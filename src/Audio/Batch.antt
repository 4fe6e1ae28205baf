-- ===== src/Audio/Batch.antt =====
-- core/audio/capture_batch.py: one recording, and the capture that owns it. A buffer is its PCM
-- bytes. The devices of `sounddevice` and the conversion by numpy are arguments: `opened` is what
-- opening and starting the input stream came to, `convert` is `build_audio_buffer`. Closing a stream
-- is taken to return. A recording is known by its handle number, as `_require_handle` compares it.
pub mod Duration
use app_stt_aio.Base.{
  Bool, Bytes, List, Option, [], ap, false, if◌then◌else◌, join, leb, length, ltb, none, not, some,
  true, ℕ, ◌*◌, ◌++◌, ◌+◌, ◌-◌, ◌/◌, ◌∷◌, ◌&&◌, ◌==◌, nat_eq, string_eq,
}
use app_stt_aio.Base.Result.{Result, ok, err}

-- core/audio/errors.py
pub data AudioError : Type 0 where
  device_not_found device_access capture_busy capture_state resample max_duration_exceeded :
      AudioError

-- The parameters of the open stream.
pub record Device : Type 0 where
  pub device_id : Option ℕ
  pub channels : ℕ
  pub samplerate : ℕ

pub record BatchRecording : Type 0 where
  pub handle_id : ℕ
  pub device_id : Option ℕ
  pub stream_channels : ℕ
  pub sample_rate : ℕ
  pub max_duration_ms : Option ℕ
  pub chunks : List Bytes
  pub has_stream : Bool
  pub is_closed : Bool
  pub duration_exceeded : Bool

frames_of : ℕ → List Bytes → ℕ
frames_of frame_bytes [] = 0
frames_of frame_bytes (c ∷ cs) = length c / frame_bytes + frames_of frame_bytes cs

-- `int(frames * 1000 / rate)`. The division of floats is exact to the millisecond at these sizes.
unfoldable pub current_duration_ms : BatchRecording → ℕ
unfolding frames_of
current_duration_ms r =
    let frame_bytes = 2 * r.stream_channels in
    if leb frame_bytes 0 then 0 else frames_of frame_bytes r.chunks * 1000 / r.sample_rate

abbrev pub over : ℕ → Option ℕ → Bool
over duration none = false
over duration (some max) = ltb max duration

unfoldable pub append_chunk : Bytes → BatchRecording → Bool × BatchRecording
append_chunk chunk r =
    if r.is_closed
    then (false, r)
    else if r.duration_exceeded
    then (false, r)
    else let r' = record r { chunks = r.chunks ++ chunk ∷ [] } in
      if over (current_duration_ms r') r.max_duration_ms
      then (false, record r' { duration_exceeded = true })
      else (true, r')

pub discard : BatchRecording → BatchRecording
discard r = record r { chunks = []; is_closed = true }

-- `build_audio_buffer(pcm, sample_rate, channels)`; `none` is its `ResampleError`.
abbrev pub Convert : Type 0
Convert = Bytes → ℕ → ℕ → Option Bytes

abbrev pub converted : Option Bytes → Result AudioError Bytes
converted none = err capture_state
converted (some pcm) = ok pcm

unfoldable pub finalize : Convert → BatchRecording → Result AudioError Bytes × BatchRecording
finalize convert r = if r.is_closed then (err capture_state, r) else (
  converted (convert (join r.chunks) r.sample_rate r.stream_channels),
  record r { is_closed = true; chunks = [] },
)

pub record BatchCapture : Type 0 where
  pub next_handle_id : ℕ
  pub active : Option BatchRecording

abbrev pub is_active : BatchCapture → Bool
is_active c = elim c.active [ none ↦ false | some r ↦ true ]

-- The recording object that `start` makes.
abbrev pub new_recording : ℕ → Device → Option ℕ → BatchRecording
new_recording id d max = record {
  handle_id = id;
  device_id = d.device_id;
  stream_channels = d.channels;
  sample_rate = d.samplerate;
  max_duration_ms = max;
  chunks = [];
  has_stream = true;
  is_closed = false;
  duration_exceeded = false;
}

unfoldable pub open_recording :
    Result AudioError Device
    → Bool
    → Option ℕ
    → BatchCapture
    → Result AudioError BatchRecording × BatchCapture
open_recording (err e) started max c = (err e, c)
open_recording (ok d) started max c =
    let r = new_recording c.next_handle_id d max in
    let c' = record c { next_handle_id = c.next_handle_id + 1 } in
    if started then (ok r, record c' { active = some r }) else (err device_access, c')

-- `opened` is what `validate_device` and `open_input_stream_kwargs` came to, `started` whether the
-- stream could be made and started.
unfoldable pub start :
    Result AudioError Device
    → Bool
    → Option ℕ
    → BatchCapture
    → Result AudioError BatchRecording × BatchCapture
start opened started max c =
    if is_active c then (err capture_state, c) else open_recording opened started max c

unfoldable pub close_stream : BatchRecording → BatchRecording
close_stream r = record r { has_stream = false }

-- `_require_handle`
unfoldable pub require_handle : ℕ → BatchCapture → Option BatchRecording
require_handle handle c = elim c.active [
  | none ↦ none
  | some r ↦ if r.handle_id == handle then some r else none
]

abbrev pub stop_recording :
    Convert → Option BatchRecording → BatchCapture → Result AudioError Bytes × BatchCapture
stop_recording convert none c = (err capture_state, c)
stop_recording convert (some r) c =
    ((finalize convert (close_stream r)).0, record c { active = none })

unfoldable pub stop : Convert → ℕ → BatchCapture → Result AudioError Bytes × BatchCapture
stop convert handle c = stop_recording convert (require_handle handle c) c

abbrev pub cancel_recording :
    Option BatchRecording → BatchCapture → Result AudioError (Unit {0}) × BatchCapture
cancel_recording none c = (err capture_state, c)
cancel_recording (some r) c = (ok tt, record c { active = none })

-- The recording is closed and discarded; nothing refers to it any more.
unfoldable pub cancel : ℕ → BatchCapture → Result AudioError (Unit {0}) × BatchCapture
cancel handle c = cancel_recording (require_handle handle c) c

unfoldable pub force_reset : BatchCapture → BatchCapture
force_reset c = record c { active = none }

-- The errors that the callback of the stream reports for one block of samples: a bad status first,
-- then the end of the allowed time, which also closes the stream.
unfoldable pub callback : Bool → Bytes → BatchRecording → List AudioError × BatchRecording
callback bad_status chunk r =
    let (taken, r') = append_chunk chunk r in
    let reports = if bad_status then device_access ∷ [] else [] in
    if not taken && r'.duration_exceeded
    then (reports ++ max_duration_exceeded ∷ [], close_stream r')
    else (reports, r')
