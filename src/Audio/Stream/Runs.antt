-- ===== src/Audio/Stream/Runs.antt =====
-- Which segments a whole stream gives.
use app_stt_aio.Base.{
  Bool, Bool-cases, Bytes, List, Option, [], ap, false, inl, inr, is_empty, join, length, nat_eq,
  none, refl, some, string_eq, subst, sym, true, ℕ, ◌%◌, ◌++◌, ◌==◌, ◌∙◌, ◌∷◌, ◌≡◌,
}
use mathlib.Core.List.{append-nil, append_assoc}
use app_stt_aio.Audio.Vad
use app_stt_aio.Audio.Vad.{SegmentTracker, feed, flush}
use app_stt_aio.Audio.Vad.Pieces.{feed-IsPiece, join-flush}
use app_stt_aio.Base.Result.{ok}
use app_stt_aio.Audio.Batch.{Device, Convert}
use app_stt_aio.Audio.Stream.{
  StreamCapture, Report, segment, failure, emit_pcm, start_device, start, feed_block, callback,
  stop,
}

-- A block as it comes from the device, with the verdict of the detector, and whether the owner's
-- callback raises on what the block completes.
pub record Block : Type 0 where
  pub chunk : Bytes
  pub is_speech : Bool
  pub raised : Bool

-- The blocks in order, and then the stop.
pub stream : Convert → List Block → StreamCapture → List Report
stream convert [] s = (stop false s).0
stream convert (b ∷ bs) s =
    let (reports, s') = callback convert b.raised b.is_speech b.chunk s in
    reports ++ stream convert bs s'

-- The segments among the reports.
abbrev pub segments : List Report → List Bytes
segments [] = []
segments (segment pcm ∷ rs) = pcm ∷ segments rs
segments (failure ∷ rs) = segments rs

abbrev pub when_converted : Option Bytes → List Bytes → List Bytes
when_converted none rest = rest
when_converted (some pcm) rest = pcm ∷ rest

-- The blocks that could be converted.
abbrev pub standard : Convert → ℕ → ℕ → List Block → List Bytes
standard convert rate channels [] = []
standard convert rate channels (b ∷ bs) =
    when_converted (convert b.chunk rate channels) (standard convert rate channels bs)

-- Each piece is a run of consecutive chunks, and the runs follow one another without overlap.
abbrev pub AreRunsOf : List Bytes → List Bytes → Type 0
AreRunsOf chunks [] = Unit
AreRunsOf chunks (pcm ∷ rest) =
    (skipped : List Bytes) × (run : List Bytes) × (left : List Bytes) × (chunks
      ≡ skipped ++ (run ++ left))
    × (pcm ≡ join run)
    × AreRunsOf left rest

AreRunsOf-skip : (ds cs ps : List Bytes) → AreRunsOf cs ps → AreRunsOf (ds ++ cs) ps
AreRunsOf-skip ds cs [] h = tt
AreRunsOf-skip ds cs (p ∷ ps) (skipped, run, left, split, joined, rest) = (
  ds ++ skipped,
  run,
  left,
  ap (λ l. ds ++ l) split ∙ sym (append_assoc ds skipped (run ++ left)),
  joined,
  rest,
)

-- A run that may be reported, before others.
AreRunsOf-emit :
    (raised : Bool) (o : Option Bytes) (run left : List Bytes) (rs : List Report)
    → ((pcm : Bytes) → o ≡ some pcm → pcm ≡ join run)
    → AreRunsOf left (segments rs)
    → AreRunsOf (run ++ left) (segments (emit_pcm raised o ++ rs))
unfolding emit_pcm
AreRunsOf-emit raised none run left rs whole h = AreRunsOf-skip run left (segments rs) h
AreRunsOf-emit raised (some pcm) run left rs whole h = elim (Bool-cases (is_empty pcm)) [
  | inl empty ↦ rw empty (AreRunsOf-skip run left (segments rs) h)
  | inr full ↦ elim (Bool-cases (length pcm % 2 == 0)) [
    | inl even ↦
        elim raised
          as (λ raised. AreRunsOf (run ++ left) (segments (emit_pcm raised (some pcm) ++ rs))) [
            | true ↦ rw (full, even) ([], run, left, refl, whole pcm refl, h)
            | false ↦ rw (full, even) ([], run, left, refl, whole pcm refl, h)
          ]
    | inr odd ↦ rw (full, odd) (AreRunsOf-skip run left (segments rs) h)
  ]
]

-- One block, before the rest of the stream.
block-AreRunsOf :
    (raised is_speech : Bool) (pcm : Bytes) (rest : List Bytes) (rs : List Report)
    (s : StreamCapture)
    → AreRunsOf ((feed pcm is_speech s.tracker).1.segment_frames ++ rest) (segments rs)
    → AreRunsOf
        (s.tracker.segment_frames ++ pcm ∷ rest)
        (segments (emit_pcm raised (feed pcm is_speech s.tracker).0 ++ rs))
unfolding emit_pcm
block-AreRunsOf raised is_speech pcm rest rs s tail =
    let held = s.tracker.segment_frames ++ pcm ∷ [] in
    subst (λ l. AreRunsOf l (segments (emit_pcm raised (feed pcm is_speech s.tracker).0 ++ rs)))
      (append_assoc s.tracker.segment_frames (pcm ∷ []) rest)
      (elim (feed-IsPiece pcm is_speech s.tracker) [
        | inl (nothing, kept) ↦
            rw nothing (subst (λ l. AreRunsOf (l ++ rest) (segments rs)) kept tail)
        | inr (gone, whole) ↦
            AreRunsOf-emit raised (feed pcm is_speech s.tracker).0 held rest rs whole
              (subst (λ l. AreRunsOf (l ++ rest) (segments rs)) gone tail)
      ])

-- The property of the rest of a stream, from any state that is not stopped.
abbrev GivesRuns : Convert → List Block → StreamCapture → Type 0
GivesRuns convert bs s =
    AreRunsOf
      (s.tracker.segment_frames ++ standard convert s.source_sample_rate s.source_channels bs)
      (segments (stream convert bs s))

step-AreRunsOf :
    (convert : Convert) (b : Block) (bs : List Block) (o : Option Bytes) (s : StreamCapture)
    → s.is_stopped ≡ false
    → ((s' : StreamCapture) → s'.is_stopped ≡ false → GivesRuns convert bs s')
    → AreRunsOf
        (s.tracker.segment_frames
          ++ when_converted o (standard convert s.source_sample_rate s.source_channels bs))
        (segments (
          (feed_block b.raised b.is_speech o s).0
          ++ stream convert bs (feed_block b.raised b.is_speech o s).1))
unfolding feed_block
step-AreRunsOf convert b bs none s running rest = rest s running
step-AreRunsOf convert b bs (some pcm) s running rest =
    block-AreRunsOf b.raised b.is_speech pcm _ _ s
      (rest (record s { tracker = (feed pcm b.is_speech s.tracker).1 }) running)

running-AreRunsOf :
    (convert : Convert) (bs : List Block) (s : StreamCapture)
    → s.is_stopped ≡ false
    → GivesRuns convert bs s
unfolding stream stop callback
running-AreRunsOf convert [] s running =
    subst (λ rs. AreRunsOf (s.tracker.segment_frames ++ []) (segments rs))
      (append-nil (emit_pcm false (flush true s.tracker).0))
      (AreRunsOf-emit false (flush true s.tracker).0 s.tracker.segment_frames [] []
        (join-flush s.tracker) tt)
running-AreRunsOf convert (b ∷ bs) s running = simp running (
    step-AreRunsOf convert b bs (convert b.chunk s.source_sample_rate s.source_channels) s running
      (running-AreRunsOf convert bs))

-- From a start to the stop, the segments that the owner gets are runs of consecutive blocks as they
-- were converted, unchanged and in order, and no block is in two of them.
pub stream-AreRunsOf :
    (convert : Convert) (d : Device) (bs : List Block) (s : StreamCapture)
    → AreRunsOf
        (standard convert d.samplerate d.channels bs)
        (segments (stream convert bs (start (ok d) true s).1))
unfolding start start_device Vad.reset
stream-AreRunsOf convert d bs s = running-AreRunsOf convert bs (start (ok d) true s).1 refl

-- Once a stream was stopped, a block that still comes reports nothing and changes nothing.
callback-stop :
    (convert : Convert) (raised is_speech raised' : Bool) (chunk : Bytes) (s : StreamCapture)
    → callback convert raised is_speech chunk (stop raised' s).1 ≡ ([], (stop raised' s).1)
unfolding callback stop
callback-stop convert raised is_speech raised' chunk s = refl
