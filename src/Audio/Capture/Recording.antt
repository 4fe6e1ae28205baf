-- ===== src/Audio/Capture/Recording.antt =====
-- A batch recording from its start to its stop.
use app_stt_aio.Base.{
  Bytes, List, [], ap, arith, false, join, none, refl, some, sym, true, ◌++◌, ◌+◌, ◌∙◌, ◌∷◌, ◌≡◌,
}
use mathlib.Core.List.{append-nil, append_assoc}
use app_stt_aio.Base.Result.{Result, ok, err}
use app_stt_aio.Audio.Batch
use app_stt_aio.Audio.Batch.{Device, BatchRecording, Convert, converted, is_active}
use app_stt_aio.Audio.Capture.{
  AudioCapture, CaptureState, idle, recording, start_batch, stop_batch, batch_block, forward_all,
}

-- The capture while it records without a limit and holds these chunks.
abbrev while_recording : List Bytes → Device → AudioCapture → AudioCapture
while_recording cs d a = record a {
  state = recording;
  batch = record {
    next_handle_id = a.batch.next_handle_id + 1;
    active = some (record {
      handle_id = a.batch.next_handle_id;
      device_id = d.device_id;
      stream_channels = d.channels;
      sample_rate = d.samplerate;
      max_duration_ms = none;
      chunks = cs;
      has_stream = true;
      is_closed = false;
      duration_exceeded = false;
    });
  };
}

pub record_blocks : List Bytes → AudioCapture → AudioCapture
record_blocks [] a = a
record_blocks (c ∷ cs) a = record_blocks cs (batch_block false c a)

started_recording :
    (d : Device) (a : AudioCapture)
    → a.state ≡ idle
    → is_active a.batch ≡ false
    → a.max_batch_duration_ms ≡ none
    → (start_batch (ok d) true a).1 ≡ while_recording [] d a
unfolding start_batch Batch.start Batch.open_recording
started_recording d a i free unlimited = ground arith

one_block :
    (c : Bytes) (cs : List Bytes) (d : Device) (a : AudioCapture)
    → batch_block false c (while_recording cs d a) ≡ while_recording (cs ++ c ∷ []) d a
unfolding batch_block Batch.callback Batch.append_chunk forward_all
one_block c cs d a = refl

all_blocks :
    (came held : List Bytes) (d : Device) (a : AudioCapture)
    → record_blocks came (while_recording held d a) ≡ while_recording (held ++ came) d a
unfolding record_blocks
all_blocks [] held d a = ap (λ cs. while_recording cs d a) (sym (append-nil held))
all_blocks (c ∷ cs) held d a =
    ap (record_blocks cs) (one_block c held d a)
    ∙ all_blocks cs (held ++ c ∷ []) d a
    ∙ ap (λ l. while_recording l d a) (append_assoc held (c ∷ []) cs)

abbrev after_stop : {A E : Type 0} → Result E A → CaptureState
after_stop (ok pcm) = idle
after_stop (err e) = CaptureState.error

stopped :
    (convert : Convert) (cs : List Bytes) (d : Device) (a : AudioCapture)
    → stop_batch convert a.batch.next_handle_id (while_recording cs d a) ≡ (
      converted (convert (join cs) d.samplerate d.channels),
      record a {
        state = after_stop (converted (convert (join cs) d.samplerate d.channels));
        batch = record { next_handle_id = a.batch.next_handle_id + 1; active = none };
      },
    )
unfolding stop_batch Batch.stop Batch.require_handle Batch.finalize Batch.close_stream
stopped convert cs d a = ground arith

-- A recording without a limit that is stopped with its own handle gives the conversion of all the
-- blocks that came, in order; the capture is idle again, or in error if the conversion failed.
pub stop-record_blocks :
    (convert : Convert) (came : List Bytes) (d : Device) (a : AudioCapture)
    → a.state ≡ idle
    → is_active a.batch ≡ false
    → a.max_batch_duration_ms ≡ none
    → let r =
        stop_batch convert a.batch.next_handle_id
          (record_blocks came (start_batch (ok d) true a).1) in
      let pcm = converted (convert (join came) d.samplerate d.channels) in
      (r.0 ≡ pcm) × (r.1.state ≡ after_stop pcm) × (is_active r.1.batch ≡ false)
stop-record_blocks convert came d a i free unlimited =
    let e =
      ap (λ s. stop_batch convert a.batch.next_handle_id (record_blocks came s))
        (started_recording d a i free unlimited)
      ∙ ap (stop_batch convert a.batch.next_handle_id) (all_blocks came [] d a)
      ∙ stopped convert came d a in
    (ap (λ r. r.0) e, ap (λ r. r.1.state) e, ap (λ r. is_active r.1.batch) e)
