-- ===== src/Audio/Vad.antt =====
-- `SegmentTracker` of core/audio/vad.py: frames of speech become segments. All times are whole
-- milliseconds.
pub mod Segments
pub mod Pieces
pub mod Limits
mod Tests
use app_stt_aio.Base.{
  Bool, ℕ, Bytes, [], Option, List, if◌then◌else◌, ◌+◌, ◌++◌, is_empty, none, ◌∷◌, ◌||◌, not, ltb,
  ◌&&◌, leb, some, join, true, false,
}

pub record SegmentTracker : Type 0 where
  pub min_speech_ms : ℕ
  pub hangover_ms : ℕ
  pub max_segment_ms : ℕ
  pub frame_ms : ℕ
  pub segment_frames : List Bytes
  pub speech_ms : ℕ
  pub silence_ms : ℕ

unfoldable pub reset : SegmentTracker → SegmentTracker
reset t = record t { segment_frames = []; speech_ms = 0; silence_ms = 0 }

pub finalize_segment : Bool → SegmentTracker → Option Bytes × SegmentTracker
finalize_segment require_min_speech t =
    if is_empty t.segment_frames
    then (none, t)
    else if require_min_speech && ltb t.speech_ms t.min_speech_ms
    then (none, reset t)
    else (some (join t.segment_frames), reset t)

feed_speech : Bytes → SegmentTracker → Option Bytes × SegmentTracker
feed_speech chunk t =
    let t' = record t {
      speech_ms = t.speech_ms + t.frame_ms;
      silence_ms = 0;
      segment_frames = t.segment_frames ++ chunk ∷ [];
    } in
    if ltb 0 t'.max_segment_ms && leb t'.max_segment_ms t'.speech_ms
    then finalize_segment true t'
    else (none, t')

feed_silence : Bytes → SegmentTracker → Option Bytes × SegmentTracker
feed_silence chunk t =
    let t' = record t {
      silence_ms = t.silence_ms + t.frame_ms;
      segment_frames =
          if is_empty t.segment_frames then t.segment_frames else t.segment_frames ++ chunk ∷ [];
    } in
    if not (is_empty t'.segment_frames) && leb t'.hangover_ms t'.silence_ms
    then finalize_segment true t'
    else (none, t')

pub feed : Bytes → Bool → SegmentTracker → Option Bytes × SegmentTracker
feed chunk true t = feed_speech chunk t
feed chunk false t = feed_silence chunk t

pub flush : Bool → SegmentTracker → Option Bytes × SegmentTracker
flush force t =
    if is_empty t.segment_frames
    then (none, t)
    else if force || leb t.min_speech_ms t.speech_ms
    then finalize_segment (not force) t
    else (none, reset t)
