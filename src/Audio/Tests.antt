-- ===== src/Audio/Tests.antt =====
-- Recordings of a few bytes.
use app_stt_aio.Base.{[], false, none, refl, some, true, ◌∷◌, ◌≡◌, Bool, List, ℕ}
use app_stt_aio.Base.Result.{ok, err}
use app_stt_aio.Audio.Batch.{
  device_access, capture_state, Device, BatchRecording, Convert, is_active,
}
use app_stt_aio.Audio.Batch.Duration.{append_all, IsPrefixWithin, append_all-IsPrefixWithin}
use app_stt_aio.Audio.Stream
use app_stt_aio.Audio.Stream.{StreamCapture}
use app_stt_aio.Audio.Stream.Runs.{Block, stream, segments, AreRunsOf, stream-AreRunsOf}
use app_stt_aio.Audio.Capture.{
  AudioCapture, idle, streaming, start_batch, stop_batch, cancel, forward_error,
}
use app_stt_aio.Audio.Capture.States.{
  reset_all, end_stream, begin_stream, on_events, new_capture, IsConsistent, on_events-IsConsistent,
}
use app_stt_aio.Audio.Capture.Streams.{cancel-streaming, failed_stream_stays}
use app_stt_aio.Audio.Capture.Recording.{record_blocks, stop-record_blocks}

abbrev mono : Device
mono = record { device_id = none; channels = 1; samplerate = 1000 }

abbrev fresh_recording : BatchRecording
fresh_recording = record {
  handle_id = 1;
  device_id = none;
  stream_channels = 1;
  sample_rate = 1000;
  max_duration_ms = some 2;
  chunks = [];
  has_stream = true;
  is_closed = false;
  duration_exceeded = false;
}

append_all-IsPrefixWithin_example :
    IsPrefixWithin 2
      ((1 ∷ 2 ∷ 3 ∷ 4 ∷ []) ∷ (5 ∷ 6 ∷ []) ∷ (7 ∷ 8 ∷ []) ∷ [])
      (append_all ((1 ∷ 2 ∷ 3 ∷ 4 ∷ []) ∷ (5 ∷ 6 ∷ []) ∷ (7 ∷ 8 ∷ []) ∷ []) fresh_recording)
append_all-IsPrefixWithin_example =
    append_all-IsPrefixWithin 2 ((1 ∷ 2 ∷ 3 ∷ 4 ∷ []) ∷ (5 ∷ 6 ∷ []) ∷ (7 ∷ 8 ∷ []) ∷ [])
      fresh_recording (refl, refl, refl, refl)

new_capture-IsConsistent : IsConsistent new_capture
new_capture-IsConsistent = record {
  idle_free = λ e. refl;
  recording_held = λ e. absurd (cc);
  streaming_free = λ e. absurd (cc);
  streaming_held = λ e. absurd (cc);
}

on_events-IsConsistent_example :
    IsConsistent
      (on_events (begin_stream (ok mono) true ∷ end_stream 1 ∷ reset_all ∷ []) new_capture)
on_events-IsConsistent_example =
    on_events-IsConsistent (begin_stream (ok mono) true ∷ end_stream 1 ∷ reset_all ∷ []) new_capture
      new_capture-IsConsistent

abbrev streaming_capture : AudioCapture
streaming_capture = record new_capture {
  state = streaming;
  stream_capture = some 1;
  stream_handle = some 1;
}

streaming_capture-IsConsistent : IsConsistent streaming_capture
streaming_capture-IsConsistent = record {
  idle_free = λ e. absurd (cc);
  recording_held = λ e. absurd (cc);
  streaming_free = λ e. refl;
  streaming_held = λ e. (refl, refl);
}

cancel-streaming_example : cancel 1 streaming_capture ≡ (err capture_state, streaming_capture)
cancel-streaming_example = cancel-streaming 1 streaming_capture streaming_capture-IsConsistent refl

failed_stream_stays_example :
    (on_events
      (end_stream 1 ∷ reset_all ∷ [])
      (forward_error device_access streaming_capture)).stream_handle
    ≡ some 1
failed_stream_stays_example =
    failed_stream_stays streaming_capture device_access (end_stream 1 ∷ reset_all ∷ [])
      streaming_capture-IsConsistent refl (λ e. absurd (cc)) (refl, (refl, tt))

abbrev identity : Convert
identity pcm rate channels = some pcm

stop-record_blocks_example :
    let r =
      stop_batch identity 1
        (record_blocks ((1 ∷ 2 ∷ []) ∷ (3 ∷ []) ∷ []) (start_batch (ok mono) true new_capture).1) in
    (r.0 ≡ ok (1 ∷ 2 ∷ 3 ∷ [])) × (r.1.state ≡ idle) × (is_active r.1.batch ≡ false)
stop-record_blocks_example =
    stop-record_blocks identity ((1 ∷ 2 ∷ []) ∷ (3 ∷ []) ∷ []) mono new_capture refl refl refl

abbrev a_stream : StreamCapture
a_stream = record {
  stream_id = 0;
  is_stopped = false;
  source_sample_rate = 16000;
  source_channels = 1;
  tracker = record {
    min_speech_ms = 60;
    hangover_ms = 30;
    max_segment_ms = 0;
    frame_ms = 30;
    segment_frames = [];
    speech_ms = 0;
    silence_ms = 0;
  };
}

abbrev block_of : ℕ → Bool → Block
block_of n is_speech = record { chunk = n ∷ n ∷ []; is_speech = is_speech; raised = false }

abbrev blocks : List Block
blocks =
    block_of 1 false ∷ block_of 2 true ∷ block_of 3 true ∷ block_of 4 false ∷ block_of 5 true ∷ []

stream-AreRunsOf_example :
    AreRunsOf
      ((1 ∷ 1 ∷ []) ∷ (2 ∷ 2 ∷ []) ∷ (3 ∷ 3 ∷ []) ∷ (4 ∷ 4 ∷ []) ∷ (5 ∷ 5 ∷ []) ∷ [])
      (segments (stream identity blocks (Stream.start (ok mono) true a_stream).1))
stream-AreRunsOf_example = stream-AreRunsOf identity mono blocks a_stream
