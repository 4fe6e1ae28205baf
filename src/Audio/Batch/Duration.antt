-- ===== src/Audio/Batch/Duration.antt =====
-- What a recording holds, and how long it can get.
use app_stt_aio.Base.{
  Bytes, List, [], ap, false, some, true, ℕ, ◌++◌, ◌<◌, ◌∷◌, ◌≡◌, ◌≤◌, Bool-cases, arith, inl, inr,
  ltb, ltb→lt, refl, subst, sym, ◌∙◌,
}
use mathlib.Core.List.{append-nil, append_assoc}
use app_stt_aio.Audio.Batch.{BatchRecording, append_chunk, current_duration_ms, frames_of}

pub append_all : List Bytes → BatchRecording → BatchRecording
append_all [] r = r
append_all (c ∷ cs) r = append_all cs (append_chunk c r).1

-- A recording that has just started, with a limit.
abbrev pub IsFresh : ℕ → BatchRecording → Type 0
IsFresh max r =
    (r.max_duration_ms ≡ some max)
    × (r.chunks ≡ [])
    × (r.is_closed ≡ false)
    × (r.duration_exceeded ≡ false)

abbrev without_last : List Bytes → List Bytes
without_last [] = []
without_last (c ∷ []) = []
without_last (c ∷ d ∷ ds) = c ∷ without_last (d ∷ ds)

-- The recording with other chunks.
abbrev pub with_chunks : List Bytes → BatchRecording → BatchRecording
with_chunks cs r = record r { chunks = cs }

-- The chunks are the first of those that came. While the limit is not passed, all of them; and the
-- chunk that passes it is the last one that is kept.
pub record IsPrefixWithin (max : ℕ) (came : List Bytes) (r : BatchRecording) : Type 0 where
  pub dropped : List Bytes
  pub split : came ≡ r.chunks ++ dropped
  pub open_yet : r.is_closed ≡ false
  pub limited : r.max_duration_ms ≡ some max
  pub whole : r.duration_exceeded ≡ false → (dropped ≡ []) × (current_duration_ms r ≤ max)
  pub over_by_one :
      r.duration_exceeded ≡ true
      → (kept : List Bytes) × (last : Bytes) × (r.chunks ≡ kept ++ last ∷ [])
        × (current_duration_ms (with_chunks kept r) ≤ max)
        × (max < current_duration_ms r)

module _ (max : ℕ) (c : Bytes) (r : BatchRecording) (not_closed : r.is_closed ≡ false)
    (limited : r.max_duration_ms ≡ some max) where
  append_ended : r.duration_exceeded ≡ true → (append_chunk c r).1 ≡ r
  unfolding append_chunk
  append_ended ended = ground arith

  abbrev grown : BatchRecording
  grown = with_chunks (r.chunks ++ c ∷ []) r

  append_passed :
      r.duration_exceeded ≡ false
      → max < current_duration_ms grown
      → (append_chunk c r).1 ≡ record grown { duration_exceeded = true }
  unfolding append_chunk
  append_passed running passed = ground arith

  append_within :
      r.duration_exceeded ≡ false → current_duration_ms grown ≤ max → (append_chunk c r).1 ≡ grown
  unfolding append_chunk
  append_within running within = ground arith

append_chunk-prefix :
    (max : ℕ) (seen : List Bytes) (c : Bytes) (r : BatchRecording)
    → IsPrefixWithin max seen r
    → IsPrefixWithin max (seen ++ c ∷ []) (append_chunk c r).1
unfolding current_duration_ms
append_chunk-prefix max seen c r h = elim (Bool-cases r.duration_exceeded) [
  | inl ended ↦
      subst (IsPrefixWithin max (seen ++ c ∷ []))
        (sym (append_ended max c r h.open_yet h.limited ended))
        (record {
          dropped = h.dropped ++ c ∷ [];
          split = ap (λ l. l ++ c ∷ []) h.split ∙ append_assoc r.chunks h.dropped (c ∷ []);
          open_yet = h.open_yet;
          limited = h.limited;
          whole = λ e. absurd (cc (ended, e));
          over_by_one = h.over_by_one;
        })
  | inr running ↦
      let r' = with_chunks (r.chunks ++ c ∷ []) r in
      let all : seen ≡ r.chunks =
        h.split ∙ ap (λ l. r.chunks ++ l) (h.whole running).0 ∙ append-nil r.chunks in
      let split' : seen ++ c ∷ [] ≡ (r.chunks ++ c ∷ []) ++ [] =
        ap (λ l. l ++ c ∷ []) all ∙ sym (append-nil (r.chunks ++ c ∷ [])) in
      elim (Bool-cases (ltb max (current_duration_ms r'))) [
        | inl passed ↦
            let late = ltb→lt max (current_duration_ms r') passed in
            subst (IsPrefixWithin max (seen ++ c ∷ []))
              (sym (append_passed max c r h.open_yet h.limited running late))
              (record {
                dropped = [];
                split = split';
                open_yet = h.open_yet;
                limited = h.limited;
                whole = λ e. absurd (cc);
                over_by_one = λ e. (r.chunks, c, refl, (h.whole running).1, late);
              })
        | inr within ↦
            let fits : current_duration_ms r' ≤ max = ground (arith, within) in
            subst (IsPrefixWithin max (seen ++ c ∷ []))
              (sym (append_within max c r h.open_yet h.limited running fits))
              (record {
                dropped = [];
                split = split';
                open_yet = h.open_yet;
                limited = h.limited;
                whole = λ e. (refl, fits);
                over_by_one = λ e. absurd (cc (running, e));
              })
      ]
]

empty_duration : (r : BatchRecording) → r.chunks ≡ [] → current_duration_ms r ≡ 0
unfolding current_duration_ms frames_of
empty_duration r e = ground arith

append_all-prefix :
    (max : ℕ) (seen came : List Bytes) (r : BatchRecording)
    → IsPrefixWithin max seen r
    → IsPrefixWithin max (seen ++ came) (append_all came r)
unfolding append_all
append_all-prefix max seen [] r h = rw append-nil h
append_all-prefix max seen (c ∷ cs) r h =
    subst (λ l. IsPrefixWithin max l (append_all cs (append_chunk c r).1))
      (append_assoc seen (c ∷ []) cs)
      (append_all-prefix max (seen ++ c ∷ []) cs (append_chunk c r).1
        (append_chunk-prefix max seen c r h))

-- From a fresh recording with a limit: what it holds are the first of the chunks that came, in
-- order. It holds all of them while their duration is within the limit; once the limit is passed
-- it holds one chunk more than fits, and takes no other.
pub append_all-IsPrefixWithin :
    (max : ℕ) (came : List Bytes) (r : BatchRecording)
    → IsFresh max r
    → IsPrefixWithin max came (append_all came r)
append_all-IsPrefixWithin max came r (limited, none_yet, not_closed, not_over) =
    append_all-prefix max [] came r (record {
      dropped = [];
      split = ap (λ l. l ++ []) (sym none_yet);
      open_yet = not_closed;
      limited = limited;
      whole = λ e. (refl, omega (arith, empty_duration r none_yet));
      over_by_one = λ e. absurd (cc (not_over, e));
    })
