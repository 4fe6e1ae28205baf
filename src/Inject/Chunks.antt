-- ===== src/Inject/Chunks.antt =====
-- The chunks in which the units of a text are sent.
use mathlib.Core.List.{append_assoc}
use app_stt_aio.Base.{
  List, [], join, refl, suc, zero, ℕ, ◌++◌, ◌∷◌, ◌≡◌, length, subst, arith, ◌+◌, ◌<◌, ◌≤◌,
  length-append,
}
use app_stt_aio.Inject.Keyboard.{split_units, chunks_of}

-- The chunks are the units, in order.
join-split_units :
    (room : ℕ) (us : List ℕ) → (split_units room us).0 ++ join (split_units room us).1 ≡ us
unfolding split_units
join-split_units room [] = refl
join-split_units zero (u ∷ us) = cc (join-split_units 63 us)
join-split_units (suc room) (u ∷ us) = cc (join-split_units room us)

pub join-chunks_of : (us : List ℕ) → join (chunks_of us) ≡ us
unfolding split_units
join-chunks_of [] = refl
join-chunks_of (u ∷ us) = cc (join-split_units 63 us)

-- Chunks of a size: all are full but the last, and none is empty.
unfoldable pub AreChunks : ℕ → List (List ℕ) → Type 0
AreChunks size [] = Unit {0}
AreChunks size (c ∷ []) = (0 < length c) × (length c ≤ size)
AreChunks size (c ∷ d ∷ cs) = (length c ≡ size) × AreChunks size (d ∷ cs)

-- The chunk that has room is its start, with at least one unit before it.
split_units-AreChunks :
    (head room : ℕ) (us : List ℕ) (first : List ℕ)
    → length first ≡ head
    → 0 < head
    → head + room ≡ 64
    → AreChunks 64 ((first ++ (split_units room us).0) ∷ (split_units room us).1)
unfolding AreChunks split_units
split_units-AreChunks head room [] first size some_units all = (
  omega (arith, length-append first [], size, some_units),
  omega (arith, length-append first [], size, all),
)
split_units-AreChunks head zero (u ∷ us) first size some_units all = (
  omega (arith, length-append first [], size, all),
  split_units-AreChunks 1 63 us (u ∷ []) refl (omega arith) refl,
)
split_units-AreChunks head (suc room) (u ∷ us) first size some_units all =
    subst (λ c. AreChunks 64 (c ∷ (split_units room us).1))
      (append_assoc first (u ∷ []) (split_units room us).0)
      (split_units-AreChunks (suc head) room us (first ++ u ∷ [])
        (omega (arith, length-append first (u ∷ []), size)) (omega arith) (omega (arith, all)))

pub chunks_of-AreChunks : (us : List ℕ) → AreChunks 64 (chunks_of us)
unfolding AreChunks split_units
chunks_of-AreChunks [] = tt
chunks_of-AreChunks (u ∷ us) = split_units-AreChunks 1 63 us (u ∷ []) refl (omega arith) refl
