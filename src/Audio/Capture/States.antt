-- ===== src/Audio/Capture/States.antt =====
-- The states of the facade against what it owns.
use app_stt_aio.Base.{
  Bool, Bytes, List, [], arith, false, none, some, true, ℕ, ◌∷◌, ◌≡◌, Option, refl,
}
use app_stt_aio.Base.Result.{Result, ok, err}
use app_stt_aio.Audio.Batch
use app_stt_aio.Audio.Batch.{
  AudioError, capture_busy, capture_state, device_access, max_duration_exceeded, Device,
  BatchRecording, BatchCapture, Convert, is_active,
}
use app_stt_aio.Audio.Capture.{
  AudioCapture, idle, recording, streaming, start_batch, stop_batch, cancel, start_stream,
  stop_stream, reset, forward_error, forward_all, batch_block, on_block,
}

-- What the program may do with the facade, and what its streams may report.
pub data Event : Type 0 where
  begin_batch : Result AudioError Device → Bool → Event
  end_batch : Convert → ℕ → Event
  cancel_any : ℕ → Event
  begin_stream : Result AudioError Device → Bool → Event
  end_stream : ℕ → Event
  reset_all : Event
  block : Bool → Bytes → Event
  stream_error : AudioError → Event

unfoldable pub on_event : Event → AudioCapture → AudioCapture
on_event (begin_batch opened started) a = (start_batch opened started a).1
on_event (end_batch convert handle) a = (stop_batch convert handle a).1
on_event (cancel_any handle) a = (cancel handle a).1
on_event (begin_stream opened started) a = (start_stream opened started a).1
on_event (end_stream handle) a = (stop_stream handle a).1
on_event reset_all a = reset a
on_event (block bad_status chunk) a = batch_block bad_status chunk a
on_event (stream_error e) a = forward_error e a

unfoldable pub on_events : List Event → AudioCapture → AudioCapture
on_events [] a = a
on_events (e ∷ es) a = on_events es (on_event e a)

-- Idle and streaming mean that no batch recording is active, recording that one is; while streaming
-- there is a stream to stop.
pub record IsConsistent (a : AudioCapture) : Type 0 where
  pub idle_free : a.state ≡ idle → is_active a.batch ≡ false
  pub recording_held : a.state ≡ recording → is_active a.batch ≡ true
  pub streaming_free : a.state ≡ streaming → is_active a.batch ≡ false
  pub streaming_held :
      a.state ≡ streaming → (a.stream_capture ≡ some 1) × (a.stream_handle ≡ some 1)

abbrev pub new_capture : AudioCapture
new_capture = record {
  state = idle;
  max_batch_duration_ms = none;
  batch = record { next_handle_id = 1; active = none };
  stream_capture = none;
  stream_handle = none;
}

forward_error-keeps :
    (e : AudioError) (a : AudioCapture) → IsConsistent a → IsConsistent (forward_error e a)
unfolding forward_error
forward_error-keeps e a h = ground arith

forward_all-keeps :
    (es : List AudioError) (a : AudioCapture) → IsConsistent a → IsConsistent (forward_all es a)
unfolding forward_all
forward_all-keeps [] a h = h
forward_all-keeps (e ∷ es) a h =
    forward_all-keeps es (forward_error e a) (forward_error-keeps e a h)

start_batch-keeps :
    (opened : Result AudioError Device) (started : Bool) (a : AudioCapture)
    → IsConsistent a
    → IsConsistent (start_batch opened started a).1
unfolding start_batch Batch.start Batch.open_recording
start_batch-keeps (err e) started a h = ground arith
start_batch-keeps (ok d) started a h = ground arith

stop_batch-keeps :
    (convert : Convert) (handle : ℕ) (a : AudioCapture)
    → IsConsistent a
    → IsConsistent (stop_batch convert handle a).1
unfolding stop_batch Batch.stop Batch.require_handle
stop_batch-keeps convert handle a h = ground arith

cancel-keeps : (handle : ℕ) (a : AudioCapture) → IsConsistent a → IsConsistent (cancel handle a).1
unfolding cancel Batch.cancel Batch.require_handle
cancel-keeps handle a h = ground arith

start_stream-keeps :
    (opened : Result AudioError Device) (started : Bool) (a : AudioCapture)
    → IsConsistent a
    → IsConsistent (start_stream opened started a).1
unfolding start_stream
start_stream-keeps (err e) started a h = ground arith
start_stream-keeps (ok d) started a h = ground arith

stop_stream-keeps :
    (handle : ℕ) (a : AudioCapture) → IsConsistent a → IsConsistent (stop_stream handle a).1
unfolding stop_stream
stop_stream-keeps handle a h = ground arith

on_block-keeps :
    (bad_status : Bool) (chunk : Bytes) (o : Option BatchRecording) (a : AudioCapture)
    → a.batch.active ≡ o
    → IsConsistent a
    → IsConsistent (on_block bad_status chunk o a)
unfolding on_block
on_block-keeps bad_status chunk none a e h = h
on_block-keeps bad_status chunk (some r) a e h =
    forward_all-keeps (Batch.callback bad_status chunk r).0 _ (ground arith)

batch_block-keeps :
    (bad_status : Bool) (chunk : Bytes) (a : AudioCapture)
    → IsConsistent a
    → IsConsistent (batch_block bad_status chunk a)
unfolding batch_block
batch_block-keeps bad_status chunk a h = on_block-keeps bad_status chunk a.batch.active a refl h

-- Whatever the program does and whatever the devices report, the state agrees with what is active.
pub on_event-IsConsistent :
    (e : Event) (a : AudioCapture) → IsConsistent a → IsConsistent (on_event e a)
unfolding on_event reset Batch.force_reset
on_event-IsConsistent (begin_batch opened started) a h = start_batch-keeps opened started a h
on_event-IsConsistent (end_batch convert handle) a h = stop_batch-keeps convert handle a h
on_event-IsConsistent (cancel_any handle) a h = cancel-keeps handle a h
on_event-IsConsistent (begin_stream opened started) a h = start_stream-keeps opened started a h
on_event-IsConsistent (end_stream handle) a h = stop_stream-keeps handle a h
on_event-IsConsistent reset_all a h = ground arith
on_event-IsConsistent (block bad_status chunk) a h = batch_block-keeps bad_status chunk a h
on_event-IsConsistent (stream_error e) a h = forward_error-keeps e a h

-- After any events from a consistent capture: idle and streaming mean that no batch recording is active,
-- recording means that one is, and while streaming there is a stream with its handle.
pub on_events-IsConsistent :
    (es : List Event) (a : AudioCapture) → IsConsistent a → IsConsistent (on_events es a)
unfolding on_events
on_events-IsConsistent [] a h = h
on_events-IsConsistent (e ∷ es) a h =
    on_events-IsConsistent es (on_event e a) (on_event-IsConsistent e a h)
