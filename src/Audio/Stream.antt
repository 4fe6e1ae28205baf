-- ===== src/Audio/Stream.antt =====
-- core/audio/stream_capture.py: the stream of blocks from the device to the segments. Every block is
-- converted by `to_standard_pcm`, an argument, and comes with the verdict of the detector on it.
-- `raised` says whether the callback for a segment raises. The levels, and the handle of
-- `sounddevice`, do not change what is reported.
pub mod Runs
use app_stt_aio.Base.{
  Bool, Bytes, List, Option, [], ap, false, if◌then◌else◌, is_empty, length, nat_eq, none, not,
  some, string_eq, true, ℕ, ◌%◌, ◌+◌, ◌-◌, ◌/◌, ◌==◌, ◌∷◌,
}
use app_stt_aio.Base.Result.{Result, ok, err}
use app_stt_aio.Audio.Vad
use app_stt_aio.Audio.Vad.{SegmentTracker, feed, flush}
use app_stt_aio.Audio.Batch.{AudioError, device_access, Device, Convert}

pub record StreamCapture : Type 0 where
  pub stream_id : ℕ
  pub is_stopped : Bool
  pub source_sample_rate : ℕ
  pub source_channels : ℕ
  pub tracker : SegmentTracker

-- What the callbacks of the owner get: `on_segment` and `on_error`.
pub data Report : Type 0 where
  segment : Bytes → Report
  failure : Report

start_device : Result AudioError Device → Bool → StreamCapture → Result AudioError ℕ × StreamCapture
start_device (err e) started s = (err e, s)
start_device (ok d) started s =
    let s' = record s { source_sample_rate = d.samplerate; source_channels = d.channels } in
    (if started then ok s'.stream_id else err device_access, s')

-- `opened` and `started` as in Batch.
pub start : Result AudioError Device → Bool → StreamCapture → Result AudioError ℕ × StreamCapture
unfolding start_device
start opened started s =
    start_device opened started
      (record s { stream_id = s.stream_id + 1; is_stopped = false; tracker = Vad.reset s.tracker })

-- `_emit_pcm`, for a segment that may be none; `validate` asks for whole samples of two bytes.
emit_pcm : Bool → Option Bytes → List Report
emit_pcm raised none = []
emit_pcm raised (some pcm) =
    if is_empty pcm
    then []
    else if length pcm % 2 == 0
    then segment pcm ∷ (if raised then failure ∷ [] else [])
    else failure ∷ []

-- The rest of the callback, from the converted block.
feed_block : Bool → Bool → Option Bytes → StreamCapture → List Report × StreamCapture
unfolding emit_pcm
feed_block raised is_speech none s = (failure ∷ [], s)
feed_block raised is_speech (some pcm) s =
    let (completed, t) = feed pcm is_speech s.tracker in
    (emit_pcm raised completed, record s { tracker = t })

pub callback : Convert → Bool → Bool → Bytes → StreamCapture → List Report × StreamCapture
unfolding feed_block
callback convert raised is_speech chunk s =
    if s.is_stopped
    then ([], s)
    else feed_block raised is_speech (convert chunk s.source_sample_rate s.source_channels) s

pub stop : Bool → StreamCapture → List Report × StreamCapture
unfolding emit_pcm
stop raised s =
    let (completed, t) = flush true s.tracker in
    (emit_pcm raised completed, record s { is_stopped = true; tracker = t })
