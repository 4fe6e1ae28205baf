-- ===== src/Audio/Vad/Limits.antt =====
-- The limits of a segment: hangover, the longest segment, and a forced end.
use app_stt_aio.Base.{
  ◌≡◌, Bytes, [], Bool, ◌≢◌, arith, ◌<◌, ◌⊎◌, true, false, ◌+◌, none, some, List, ◌≤◌, join,
  is_empty-append, ◌∷◌, if◌then◌else◌, is_empty,
}
use app_stt_aio.Audio.Vad.{
  SegmentTracker, reset, finalize_segment, feed, feed_speech, feed_silence, flush,
}
use app_stt_aio.Audio.Vad.Segments.{Frame, feed_all, IsNew}

-- Between two frames: nothing is held without speech, the pause is shorter than the hangover, and
-- the speech is shorter than the limit.
pub record IsOpen (t : SegmentTracker) : Type 0 where
  pub idle : t.segment_frames ≡ [] → t.speech_ms ≡ 0
  pub pause : t.segment_frames ≢ [] → (t.silence_ms < t.hangover_ms) ⊎ (t.silence_ms ≡ 0)
  pub limit : 0 < t.max_segment_ms → t.speech_ms < t.max_segment_ms

-- Every frame keeps the pause below the hangover and the speech below the limit of a segment.
feed-IsOpen :
    (chunk : Bytes) (is_speech : Bool) (t : SegmentTracker)
    → IsOpen t
    → IsOpen (feed chunk is_speech t).1
unfolding feed feed_speech feed_silence finalize_segment reset
feed-IsOpen chunk true t h = ground arith
feed-IsOpen chunk false t h = ground arith

IsOpen-all : (fs : List Frame) (t : SegmentTracker) → IsOpen t → IsOpen (feed_all fs t)
unfolding feed_all
IsOpen-all [] t h = h
IsOpen-all ((chunk, b) ∷ fs) t h = IsOpen-all fs (feed chunk b t).1 (feed-IsOpen chunk b t h)

-- After any frames to a new tracker, a pause in a segment that is held is shorter than the hangover
-- or has not begun, and under a limit of the segment the speech that is held is below it.
pub feed_all-IsOpen : (fs : List Frame) (t : SegmentTracker) → IsNew t → IsOpen (feed_all fs t)
feed_all-IsOpen fs t new = IsOpen-all fs t (record {
  idle = λ e. new.1;
  pause = λ held. absurd (held new.0);
  limit = λ limited. omega (arith, new.1, limited);
})

-- A limit so short that the speech never reaches the least time.
abbrev Starved : SegmentTracker → Type 0
Starved t =
    (0 < t.max_segment_ms)
    × (t.max_segment_ms + t.frame_ms ≤ t.min_speech_ms)
    × (t.speech_ms < t.max_segment_ms)

feed-Starved :
    (chunk : Bytes) (is_speech : Bool) (t : SegmentTracker)
    → Starved t
    → ((feed chunk is_speech t).0 ≡ none) × Starved (feed chunk is_speech t).1
unfolding feed feed_speech feed_silence finalize_segment reset
feed-Starved chunk true t h = ground (arith, is_empty-append t.segment_frames chunk)
feed-Starved chunk false t h = ground arith

feed_all-Starved : (fs : List Frame) (t : SegmentTracker) → Starved t → Starved (feed_all fs t)
unfolding feed_all
feed_all-Starved [] t h = h
feed_all-Starved ((chunk, b) ∷ fs) t h =
    feed_all-Starved fs (feed chunk b t).1 (feed-Starved chunk b t h).1

-- A flush that is not forced gives nothing then.
flush-Starved : (t : SegmentTracker) → Starved t → (flush false t).0 ≡ none
unfolding flush finalize_segment reset
flush-Starved t h = ground arith

-- A forced flush of a tracker that holds frames gives all that is held, however short, and leaves
-- nothing.
flush_forced :
    (t : SegmentTracker)
    → t.segment_frames ≢ []
    → ((flush true t).0 ≡ some (join t.segment_frames)) × IsNew (flush true t).1
unfolding flush finalize_segment reset
flush_forced t some_frames = ground arith

flush-forced_frames :
    (t : SegmentTracker)
    → (flush true t).0 ≡ (if is_empty t.segment_frames then none else some (join t.segment_frames))
unfolding flush finalize_segment reset
flush-forced_frames t = ground arith

-- In a new tracker whose limit of a segment is set and lies a frame or more below the least time of
-- speech, no frame that is fed ever completes a segment. A flush after the frames gives nothing
-- unless it is forced, and a forced one gives all that is held.
pub short_limit_drops :
    (fs : List Frame) (f : Frame) (t : SegmentTracker)
    → IsNew t
    → 0 < t.max_segment_ms
    → t.max_segment_ms + t.frame_ms ≤ t.min_speech_ms
    → ((feed f.0 f.1 (feed_all fs t)).0 ≡ none)
      × ((flush false (feed_all fs t)).0 ≡ none)
      × ((flush true (feed_all fs t)).0 ≡ (
          if is_empty (feed_all fs t).segment_frames
          then none
          else some (join (feed_all fs t).segment_frames)))
short_limit_drops fs f t new limited short =
    let starved = feed_all-Starved fs t (limited, short, omega (arith, new.1, limited)) in
    (
      (feed-Starved f.0 f.1 (feed_all fs t) starved).0,
      flush-Starved (feed_all fs t) starved,
      flush-forced_frames (feed_all fs t),
    )
