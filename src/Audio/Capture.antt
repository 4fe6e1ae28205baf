-- ===== src/Audio/Capture.antt =====
-- core/audio/audio_capture.py: the facade over one batch recording or one stream. What the device
-- does is an argument of each operation that opens it: `opened` and `started` as in Batch.start. A
-- `StreamCapture` is the count of its own starts, `_stream_id`. The chosen device, the level
-- callback and the settings do not change the states, and are left out.
pub mod States
pub mod Streams
pub mod Recording
use app_stt_aio.Base.{
  Bool, Bytes, List, Option, [], ap, false, if◌then◌else◌, nat_eq, none, not, some, string_eq, suc,
  true, ℕ, ◌-◌, ◌/◌, ◌==◌, ◌∷◌,
}
use app_stt_aio.Base.Result.{Result, ok, err}
use app_stt_aio.Audio.Batch
use app_stt_aio.Audio.Batch.{
  AudioError, capture_busy, capture_state, device_access, max_duration_exceeded, Device,
  BatchRecording, BatchCapture, Convert, is_active,
}

pub data CaptureState : Type 0 where
  idle recording streaming error : CaptureState

pub record AudioCapture : Type 0 where
  pub state : CaptureState
  pub max_batch_duration_ms : Option ℕ
  pub batch : BatchCapture
  pub stream_capture : Option ℕ
  pub stream_handle : Option ℕ

abbrev pub Step : Type 0 → Type 0
Step A = AudioCapture → Result AudioError A × AudioCapture

pub reset : AudioCapture → AudioCapture
reset a = record a { batch = Batch.force_reset a.batch; state = idle }

-- `except AudioError: self._state = ERROR; raise`, else the state of the success.
abbrev concluded : {A : Type 0} → CaptureState → Result AudioError A × BatchCapture → Step A
concluded done (ok v, b) a = (ok v, record a { batch = b; state = done })
concluded done (err e, b) a = (err e, record a { batch = b; state = error })

-- The same without the handler: an error leaves the state.
abbrev unhandled : {A : Type 0} → Result AudioError A × BatchCapture → Step A
unhandled (ok v, b) a = (ok v, record a { batch = b; state = idle })
unhandled (err e, b) a = (err e, record a { batch = b })

start_in : CaptureState → Result AudioError Device → Bool → Step BatchRecording
start_in error opened started a = (err capture_state, a)
start_in idle opened started a =
    concluded recording (Batch.start opened started a.max_batch_duration_ms a.batch) a
start_in _ opened started a = (err capture_busy, a)

pub start_batch : Result AudioError Device → Bool → Step BatchRecording
unfolding start_in
start_batch opened started a = start_in a.state opened started a

stop_in : CaptureState → Convert → ℕ → Step Bytes
stop_in error convert handle a =
    if is_active a.batch
    then unhandled (Batch.stop convert handle a.batch) a
    else (err capture_state, a)
stop_in recording convert handle a = concluded idle (Batch.stop convert handle a.batch) a
stop_in _ convert handle a = (err capture_state, a)

pub stop_batch : Convert → ℕ → Step Bytes
unfolding stop_in
stop_batch convert handle a = stop_in a.state convert handle a

cancel_in : CaptureState → ℕ → Step (Unit {0})
cancel_in error handle a =
    if is_active a.batch then unhandled (Batch.cancel handle a.batch) a else (err capture_state, a)
cancel_in recording handle a = unhandled (Batch.cancel handle a.batch) a
cancel_in streaming handle a = unhandled (Batch.cancel handle a.batch) a
cancel_in idle handle a = (err capture_state, a)

pub cancel : ℕ → Step (Unit {0})
unfolding cancel_in
cancel handle a = cancel_in a.state handle a

-- A new `StreamCapture` starts once, so its handle is numbered 1.
start_stream_in : CaptureState → Result AudioError Device → Bool → Step ℕ
start_stream_in error opened started a = (err capture_state, a)
start_stream_in idle (err e) started a = (err e, record a { stream_capture = some 1 })
start_stream_in idle (ok d) started a =
    if started
    then (ok 1, record a { stream_capture = some 1; stream_handle = some 1; state = streaming })
    else (err device_access, record a { stream_capture = some 1 })
start_stream_in _ opened started a = (err capture_busy, a)

pub start_stream : Result AudioError Device → Bool → Step ℕ
unfolding start_stream_in
start_stream opened started a = start_stream_in a.state opened started a

close_stream : Option ℕ → Option ℕ → ℕ → Step (Unit {0})
close_stream (some c) (some current) handle a =
    if handle == current
    then (ok tt, record a { stream_capture = none; stream_handle = none; state = idle })
    else (err capture_state, a)
close_stream _ _ handle a = (err capture_state, a)

abbrev is_streaming : CaptureState → Bool
is_streaming streaming = true
is_streaming _ = false

pub stop_stream : ℕ → Step (Unit {0})
unfolding close_stream
stop_stream handle a =
    if is_streaming a.state
    then close_stream a.stream_capture a.stream_handle handle a
    else (err capture_state, a)

-- Errors that the streams report from their callbacks. The end of the allowed time is no failure.
pub forward_error : AudioError → AudioCapture → AudioCapture
forward_error max_duration_exceeded a = a
forward_error _ a = record a { state = error }

pub forward_all : List AudioError → AudioCapture → AudioCapture
forward_all [] a = a
forward_all (e ∷ es) a = forward_all es (forward_error e a)

-- A block of samples for the active recording, and the errors that it reports.
on_block : Bool → Bytes → Option BatchRecording → AudioCapture → AudioCapture
on_block bad_status chunk none a = a
on_block bad_status chunk (some r) a =
    let (reports, r') = Batch.callback bad_status chunk r in
    forward_all reports (record a { batch = record a.batch { active = some r' } })

pub batch_block : Bool → Bytes → AudioCapture → AudioCapture
unfolding on_block
batch_block bad_status chunk a = on_block bad_status chunk a.batch.active a
