-- ===== src/Audio/Vad/Segments.antt =====
-- Which frames a segment is made of.
use app_stt_aio.Base.{
  ◌≡◌, Bytes, List, Bool, ◌++◌, ℕ, true, [], ◌*◌, join, ◌+◌, ◌∷◌, some, suc, ap, ◌≤◌, arith, refl,
  sym, ◌∙◌, Option, Bool-cases, false, is_empty, inl, inr, ltb, if◌then◌else◌, subst, none,
}
use mathlib.Core.List.{append-nil, append_assoc}
use app_stt_aio.Audio.Vad.{SegmentTracker, reset, finalize_segment, feed, feed_speech, feed_silence}

-- A frame as it comes from the microphone, with the verdict of the detector.
abbrev pub Frame : Type 0
Frame = Bytes × Bool

abbrev pub chunks : List Frame → List Bytes
chunks [] = []
chunks ((chunk, b) ∷ fs) = chunk ∷ chunks fs

pub speech_frames : List Frame → ℕ
speech_frames [] = 0
speech_frames ((chunk, true) ∷ fs) = suc (speech_frames fs)
speech_frames ((chunk, false) ∷ fs) = speech_frames fs

abbrev pub IsNew : SegmentTracker → Type 0
IsNew t = (t.segment_frames ≡ []) × (t.speech_ms ≡ 0)

unfoldable pub feed_all : List Frame → SegmentTracker → SegmentTracker
feed_all [] t = t
feed_all ((chunk, is_speech) ∷ fs) t = feed_all fs (feed chunk is_speech t).1

-- The tracker holds the last frames that it was fed, from `kept` on.
record Holds (fed : List Frame) (t : SegmentTracker) : Type 0 where
  skipped : List Frame
  kept : List Frame
  split : fed ≡ skipped ++ kept
  frames : t.segment_frames ≡ chunks kept
  speech : t.speech_ms ≡ speech_frames kept * t.frame_ms

chunks-append : (fs : List Frame) (f : Frame) → chunks (fs ++ f ∷ []) ≡ chunks fs ++ f.0 ∷ []
chunks-append [] (c, b) = refl
chunks-append ((d, a) ∷ fs) (c, b) = ap (λ l. d ∷ l) (chunks-append fs (c, b))

speech_frames-append :
    (fs gs : List Frame) → speech_frames (fs ++ gs) ≡ speech_frames fs + speech_frames gs
unfolding speech_frames
speech_frames-append [] gs = omega arith
speech_frames-append ((c, true) ∷ fs) gs = omega (arith, speech_frames-append fs gs)
speech_frames-append ((c, false) ∷ fs) gs = speech_frames-append fs gs

-- A segment is a run of consecutive frames, and has the speech that is asked for.
pub record IsSegmentOf (fed : List Frame) (frame_ms min_speech_ms : ℕ) (pcm : Bytes) : Type 0 where
  pub before : List Frame
  pub run : List Frame
  pub split : fed ≡ before ++ run
  pub joined : pcm ≡ join (chunks run)
  pub enough : min_speech_ms ≤ speech_frames run * frame_ms

nothing_kept : (fed : List Frame) (t : SegmentTracker) → Holds fed (reset t)
unfolding reset speech_frames
nothing_kept fed t = record {
  skipped = fed;
  kept = [];
  split = sym (append-nil fed);
  frames = refl;
  speech = omega arith;
}

abbrev Good : List Frame → SegmentTracker → Option Bytes × SegmentTracker → Type 0
Good fed t r =
    Holds fed r.1
    × ((pcm : Bytes) → r.0 ≡ some pcm → IsSegmentOf fed t.frame_ms t.min_speech_ms pcm)

-- `finalize_segment` gives all the frames that are held, or drops them.
finalize_lem :
    (fed : List Frame) (t : SegmentTracker) → Holds fed t → Good fed t (finalize_segment true t)
unfolding finalize_segment
finalize_lem fed t h = elim (Bool-cases (is_empty t.segment_frames)) [
  | inl empty ↦ rw empty (h, λ pcm e. absurd (cc))
  | inr full ↦ rw full (elim (Bool-cases (ltb t.speech_ms t.min_speech_ms)) [
    | inl short ↦ rw short (nothing_kept fed t, λ pcm e. absurd (cc))
    | inr long ↦ rw long (
      nothing_kept fed t,
      λ pcm e. record {
        before = h.skipped;
        run = h.kept;
        split = h.split;
        joined = ground (arith, e, ap (λ (l : List Bytes). join l) h.frames);
        enough = ground (arith, long, h.speech);
      },
    )
  ])
]

keep_frame :
    (fed : List Frame) (t t' : SegmentTracker) (f : Frame)
    → Holds fed t
    → t'.frame_ms ≡ t.frame_ms
    → t'.segment_frames ≡ t.segment_frames ++ f.0 ∷ []
    → t'.speech_ms ≡ t.speech_ms + speech_frames (f ∷ []) * t.frame_ms
    → Holds (fed ++ f ∷ []) t'
keep_frame fed t t' f h same frames speech = record {
  skipped = h.skipped;
  kept = h.kept ++ f ∷ [];
  split = ap (λ l. l ++ f ∷ []) h.split ∙ append_assoc h.skipped h.kept (f ∷ []);
  frames = frames ∙ ap (λ l. l ++ f.0 ∷ []) h.frames ∙ sym (chunks-append h.kept f);
  speech = rw (same, speech_frames-append h.kept (f ∷ [])) (omega (arith, speech, h.speech));
}

no_chunks : (fs : List Frame) → is_empty (chunks fs) ≡ true → fs ≡ []
no_chunks [] h = refl
no_chunks ((c, b) ∷ fs) h = cc

settled :
    (fed : List Frame) (t : SegmentTracker) (done : Bool)
    → Holds fed t
    → Good fed t (if done then finalize_segment true t else (none, t))
settled fed t true h = finalize_lem fed t h
settled fed t false h = (h, λ pcm e. absurd (cc))

feed-Good :
    (fed : List Frame) (f : Frame) (t : SegmentTracker)
    → Holds fed t
    → Good (fed ++ f ∷ []) t (feed f.0 f.1 t)
unfolding feed feed_speech feed_silence speech_frames
feed-Good fed (chunk, true) t h =
    settled (fed ++ (chunk, true) ∷ []) _ _
      (keep_frame fed t _ (chunk, true) h refl refl (omega arith))
feed-Good fed (chunk, false) t h = elim (Bool-cases (is_empty t.segment_frames)) [
  | inl empty ↦
      let none_kept = no_chunks h.kept (ap is_empty (sym h.frames) ∙ empty) in
      rw (empty) (
        settled (fed ++ (chunk, false) ∷ []) _ _ (record {
          skipped = fed ++ (chunk, false) ∷ [];
          kept = [];
          split = sym (append-nil (fed ++ (chunk, false) ∷ []));
          frames = h.frames ∙ ap chunks none_kept;
          speech = h.speech ∙ ap (λ (fs : List Frame). speech_frames fs * t.frame_ms) none_kept;
        }))
  | inr full ↦ rw full (
      settled (fed ++ (chunk, false) ∷ []) _ _
        (keep_frame fed t _ (chunk, false) h refl refl (omega arith)))
]

feed_all-Holds :
    (fed fs : List Frame) (t : SegmentTracker) → Holds fed t → Holds (fed ++ fs) (feed_all fs t)
unfolding feed_all
feed_all-Holds fed [] t h = subst (λ l. Holds l t) (sym (append-nil fed)) h
feed_all-Holds fed ((chunk, b) ∷ fs) t h =
    subst (λ l. Holds l (feed_all fs (feed chunk b t).1)) (append_assoc fed ((chunk, b) ∷ []) fs)
      (feed_all-Holds (fed ++ (chunk, b) ∷ []) fs (feed chunk b t).1
        (feed-Good fed (chunk, b) t h).0)

same_settings :
    (c : Bytes) (b : Bool) (t : SegmentTracker)
    → ((feed c b t).1.frame_ms ≡ t.frame_ms) × ((feed c b t).1.min_speech_ms ≡ t.min_speech_ms)
unfolding feed feed_speech feed_silence finalize_segment reset
same_settings c true t = ground arith
same_settings c false t = ground arith

all_same_settings :
    (fs : List Frame) (t : SegmentTracker)
    → ((feed_all fs t).frame_ms ≡ t.frame_ms) × ((feed_all fs t).min_speech_ms ≡ t.min_speech_ms)
unfolding feed_all
all_same_settings [] t = (refl, refl)
all_same_settings ((c, b) ∷ fs) t =
    let rest = all_same_settings fs (feed c b t).1 in
    let one = same_settings c b t in (rest.0 ∙ one.0, rest.1 ∙ one.1)

-- A segment that the tracker completes, after any frames, is a run of consecutive frames that ends
-- with the last one, unchanged and in order, and has at least the least time of speech.
pub feed-IsSegmentOf :
    (fs : List Frame) (f : Frame) (t : SegmentTracker) (pcm : Bytes)
    → IsNew t
    → (feed f.0 f.1 (feed_all fs t)).0 ≡ some pcm
    → IsSegmentOf (fs ++ f ∷ []) t.frame_ms t.min_speech_ms pcm
unfolding speech_frames
feed-IsSegmentOf fs f t pcm new e =
    let held = feed_all-Holds [] fs t (record {
      skipped = [];
      kept = [];
      split = refl;
      frames = new.0;
      speech = omega (arith, new.1);
    }) in
    let same = all_same_settings fs t in
    subst (λ n. IsSegmentOf (fs ++ f ∷ []) n t.min_speech_ms pcm) same.0
      (subst (λ n. IsSegmentOf (fs ++ f ∷ []) (feed_all fs t).frame_ms n pcm) same.1
        ((feed-Good fs f (feed_all fs t) held).1 pcm e))
