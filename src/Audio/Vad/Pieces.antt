-- ===== src/Audio/Vad/Pieces.antt =====
-- What a frame does to the frames that are held: it joins them, or ends them.
use app_stt_aio.Base.{
  Bool, Bool-cases, Bytes, List, Option, [], arith, false, if◌then◌else◌, inl, inr, is_empty, join,
  ltb, nat_eq, none, refl, some, string_eq, sym, true, ◌&&◌, ◌++◌, ◌∷◌, ◌≡◌, ◌⊎◌,
}
use app_stt_aio.Base.Dict.{some_inj}
use app_stt_aio.Audio.Vad.{
  SegmentTracker, reset, finalize_segment, feed, feed_speech, feed_silence, flush,
}

-- Nothing is completed and the frame is kept, or nothing is held any more and what was completed, if
-- anything, is all that was held with the frame.
abbrev pub IsPiece : List Bytes → Option Bytes × SegmentTracker → Type 0
IsPiece held r =
    ((r.0 ≡ none) × (r.1.segment_frames ≡ held))
    ⊎ ((r.1.segment_frames ≡ []) × ((pcm : Bytes) → r.0 ≡ some pcm → pcm ≡ join held))

finalize-IsPiece :
    (need : Bool) (t : SegmentTracker) → IsPiece t.segment_frames (finalize_segment need t)
unfolding finalize_segment reset
finalize-IsPiece need t = elim (Bool-cases (is_empty t.segment_frames)) [
  | inl empty ↦ rw empty (inl (refl, refl))
  | inr full ↦ elim (Bool-cases (need && ltb t.speech_ms t.min_speech_ms)) [
    | inl short ↦ rw (full, short) (inr (refl, λ pcm e. absurd (cc)))
    | inr long ↦ rw (full, long) (inr (refl, λ pcm e. sym (some_inj e)))
  ]
]

settled-IsPiece :
    (done : Bool) (t : SegmentTracker)
    → IsPiece t.segment_frames (if done then finalize_segment true t else (none, t))
settled-IsPiece true t = finalize-IsPiece true t
settled-IsPiece false t = inl (refl, refl)

none_held : (l : List Bytes) → is_empty l ≡ true → l ≡ []
none_held [] e = refl
none_held (c ∷ cs) e = cc

pub feed-IsPiece :
    (chunk : Bytes) (is_speech : Bool) (t : SegmentTracker)
    → IsPiece (t.segment_frames ++ chunk ∷ []) (feed chunk is_speech t)
unfolding feed feed_speech feed_silence
feed-IsPiece chunk true t = settled-IsPiece _ _
feed-IsPiece chunk false t = elim (Bool-cases (is_empty t.segment_frames)) [
  | inl empty ↦ rw empty (rw empty (inr (none_held t.segment_frames empty, λ pcm e. absurd (cc))))
  | inr full ↦ rw full (settled-IsPiece _ _)
]

pub join-flush :
    (t : SegmentTracker) (pcm : Bytes) → (flush true t).0 ≡ some pcm → pcm ≡ join t.segment_frames
unfolding flush finalize_segment
join-flush t pcm e = ground arith
