-- ===== src/Audio/Vad/Tests.antt =====
-- A few frames of one byte.
use app_stt_aio.Base.{
  List, [], arith, false, none, refl, true, ℕ, ◌++◌, ◌∷◌, ◌≡◌, if◌then◌else◌, is_empty, join, some,
}
use app_stt_aio.Audio.Vad.{SegmentTracker, feed, flush, feed_speech, feed_silence, finalize_segment}
use app_stt_aio.Audio.Vad.Segments.{Frame, feed_all, IsSegmentOf, feed-IsSegmentOf}
use app_stt_aio.Audio.Vad.Limits.{IsOpen, feed_all-IsOpen, short_limit_drops}

abbrev tracker : ℕ → SegmentTracker
tracker max = record {
  min_speech_ms = 60;
  hangover_ms = 60;
  max_segment_ms = max;
  frame_ms = 30;
  segment_frames = [];
  speech_ms = 0;
  silence_ms = 0;
}

abbrev spoken : List Frame
spoken = (1 ∷ [], false) ∷ (2 ∷ [], true) ∷ (3 ∷ [], true) ∷ (4 ∷ [], false) ∷ []

feed-IsSegmentOf_example : IsSegmentOf (spoken ++ (5 ∷ [], false) ∷ []) 30 60 (2 ∷ 3 ∷ 4 ∷ 5 ∷ [])
unfolding feed_all feed feed_speech feed_silence finalize_segment
feed-IsSegmentOf_example =
    feed-IsSegmentOf spoken (5 ∷ [], false) (tracker 0) (2 ∷ 3 ∷ 4 ∷ 5 ∷ []) (refl, refl) refl

feed_all-IsOpen_example : IsOpen (feed_all spoken (tracker 0))
feed_all-IsOpen_example = feed_all-IsOpen spoken (tracker 0) (refl, refl)

short_limit_drops_example :
    let t = feed_all spoken (tracker 30) in
    ((feed (3 ∷ []) true t).0 ≡ none)
    × ((flush false t).0 ≡ none)
    × ((flush true t).0
        ≡ (if is_empty t.segment_frames then none else some (join t.segment_frames)))
short_limit_drops_example =
    short_limit_drops spoken (3 ∷ [], true) (tracker 30) (refl, refl) (omega arith) (omega arith)

abbrev holding : SegmentTracker
holding = record (tracker 0) { segment_frames = (2 ∷ []) ∷ []; speech_ms = 30 }
