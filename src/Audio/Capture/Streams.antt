-- ===== src/Audio/Capture/Streams.antt =====
-- How a stream ends: what `cancel` and an error of the device do to it.
use app_stt_aio.Base.{
  Bool, List, [], arith, false, refl, true, ℕ, ◌∷◌, ◌≡◌, All, Bytes, Option, none, some, ◌∙◌, ◌≢◌,
}
use app_stt_aio.Base.Result.{err}
use app_stt_aio.Audio.Batch
use app_stt_aio.Audio.Batch.{
  max_duration_exceeded, BatchRecording, AudioError, capture_state, device_access, Device,
  is_active,
}
use app_stt_aio.Audio.Capture.{
  AudioCapture, CaptureState, streaming, start_batch, stop_batch, cancel, stop_stream, reset,
  forward_error, forward_all, batch_block, on_block,
}
use app_stt_aio.Audio.Capture.States.{
  Event, begin_batch, end_batch, cancel_any, begin_stream, end_stream, reset_all, block,
  stream_error, on_event, on_events, IsConsistent,
}

-- `cancel` lets a streaming capture through its guard, and always raises behind it: the stream goes
-- on as it was.
pub cancel-streaming :
    (handle : ℕ) (a : AudioCapture)
    → IsConsistent a
    → a.state ≡ streaming
    → cancel handle a ≡ (err capture_state, a)
unfolding cancel Batch.cancel Batch.require_handle
cancel-streaming handle a h s = ground (arith, h.streaming_free s)

abbrev pub opens_stream : Event → Bool
opens_stream (begin_stream opened started) = true
opens_stream _ = false

abbrev is_streaming : CaptureState → Bool
is_streaming streaming = true
is_streaming _ = false

forward_all-stream :
    (es : List AudioError) (a : AudioCapture)
    → is_streaming a.state ≡ false
    → ((forward_all es a).stream_handle ≡ a.stream_handle)
      × (is_streaming (forward_all es a).state ≡ false)
unfolding forward_all forward_error
forward_all-stream [] a h = (refl, h)
forward_all-stream (e ∷ es) a h = ground (arith, forward_all-stream es (forward_error e a))

on_block-stream :
    (bad_status : Bool) (chunk : Bytes) (o : Option BatchRecording) (a : AudioCapture)
    → is_streaming a.state ≡ false
    → ((on_block bad_status chunk o a).stream_handle ≡ a.stream_handle)
      × (is_streaming (on_block bad_status chunk o a).state ≡ false)
unfolding on_block
on_block-stream bad_status chunk none a h = (refl, h)
on_block-stream bad_status chunk (some r) a h =
    forward_all-stream (Batch.callback bad_status chunk r).0 _ h

event-stream :
    (e : Event) (a : AudioCapture)
    → opens_stream e ≡ false
    → is_streaming a.state ≡ false
    → ((on_event e a).stream_handle ≡ a.stream_handle) × (is_streaming (on_event e a).state ≡ false)
unfolding on_event start_batch stop_batch cancel stop_stream reset forward_error batch_block
event-stream (begin_batch opened started) a o h = ground arith
event-stream (end_batch convert handle) a o h = ground arith
event-stream (cancel_any handle) a o h = ground arith
event-stream (begin_stream opened started) a o h = absurd (cc)
event-stream (end_stream handle) a o h = ground arith
event-stream reset_all a o h = (refl, refl)
event-stream (block bad_status chunk) a o h = on_block-stream bad_status chunk a.batch.active a h
event-stream (stream_error e) a o h = ground arith

events-stream :
    (es : List Event) (a : AudioCapture)
    → All (λ e. opens_stream e ≡ false) es
    → is_streaming a.state ≡ false
    → (on_events es a).stream_handle ≡ a.stream_handle
unfolding on_events
events-stream [] a o h = refl
events-stream (e ∷ es) a o h =
    let (same, still) = event-stream e a o.0 h in events-stream es (on_event e a) o.1 still ∙ same

-- Once the device of a stream has reported an error, the facade never stops the stream: whatever is
-- called, `reset` included, its handle stays until another stream takes its place.
pub failed_stream_stays :
    (a : AudioCapture) (e : AudioError) (es : List Event)
    → IsConsistent a
    → a.state ≡ streaming
    → e ≢ max_duration_exceeded
    → All (λ event. opens_stream event ≡ false) es
    → (on_events es (forward_error e a)).stream_handle ≡ some 1
unfolding forward_error
failed_stream_stays a e es h s failure o =
    events-stream es (forward_error e a) o (ground arith) ∙ ground (arith, h.streaming_held s)
