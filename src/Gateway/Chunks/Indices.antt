-- ===== src/Gateway/Chunks/Indices.antt =====
-- Sorted indices: when they are exactly 0 .. n - 1.
use app_stt_aio.Base.{
  ℕ, zero, suc, ◌+◌, ◌≤◌, ◌<◌, ◌≡◌, refl, ap, subst, Bool, true, false, ◌&&◌, ◌||◌, List, [], ◌∷◌,
  arith, ltb, leb, ◌==◌, nat_eq, length, inl, inr, Bool-cases, ◌∙◌,
}
use app_stt_aio.Base.Dict.{Dict, lookup, keys, IsUnique, is_some}
use app_stt_aio.Gateway.Chunks.{sort, insert_sorted, range_from, same_list}

abbrev pub mem : ℕ → List ℕ → Bool
mem i [] = false
mem i (j ∷ js) = j == i || mem i js

-- Strictly increasing, and nothing below `lo`.
abbrev pub IsStrictFrom : ℕ → List ℕ → Type 0
IsStrictFrom lo [] = Unit
IsStrictFrom lo (i ∷ is) = (lo ≤ i) × IsStrictFrom (suc i) is

mem-insert_sorted : (i x : ℕ) (l : List ℕ) → mem i (insert_sorted x l) ≡ (x == i || mem i l)
unfolding insert_sorted
mem-insert_sorted i x [] = refl
mem-insert_sorted i x (j ∷ js) = ground (arith, mem-insert_sorted i x js)

pub mem-sort : (i : ℕ) (l : List ℕ) → mem i (sort l) ≡ mem i l
unfolding sort
mem-sort i [] = refl
mem-sort i (x ∷ l) = ground (arith, mem-insert_sorted i x (sort l), mem-sort i l)

pub mem-keys {ℓ} : {V : Type ℓ} (i : ℕ) (m : Dict ℕ V) → mem i (keys m) ≡ is_some (lookup i m)
unfolding lookup
mem-keys i [] = refl
mem-keys i ((j, v) ∷ m) = ground (arith, mem-keys i m)

strict_absent : (lo i : ℕ) (l : List ℕ) → IsStrictFrom lo l → i < lo → mem i l ≡ false
strict_absent lo i [] h below = refl
strict_absent lo i (j ∷ js) h below = ground (arith, h.0, strict_absent (suc j) i js h.1)

strict_weaken : (lo lo' : ℕ) (l : List ℕ) → lo ≤ lo' → IsStrictFrom lo' l → IsStrictFrom lo l
strict_weaken lo lo' [] le h = tt
strict_weaken lo lo' (j ∷ js) le h = (omega (arith, h.0), h.1)

insert_sorted-IsStrictFrom :
    (lo x : ℕ) (l : List ℕ)
    → IsStrictFrom lo l
    → lo ≤ x
    → mem x l ≡ false
    → IsStrictFrom lo (insert_sorted x l)
unfolding insert_sorted
insert_sorted-IsStrictFrom lo x [] h le new = (le, tt)
insert_sorted-IsStrictFrom lo x (j ∷ js) h le new = elim (Bool-cases (leb x j)) [
  | inl before ↦ rw before (le, (ground arith, h.1))
  | inr after ↦
      rw after (h.0, insert_sorted-IsStrictFrom (suc j) x js h.1 (ground arith) (ground arith))
]

pub sort-keys-IsStrictFrom {ℓ} :
    {V : Type ℓ} (m : Dict ℕ V) → IsUnique m → IsStrictFrom 0 (sort (keys m))
unfolding sort
sort-keys-IsStrictFrom [] h = tt
sort-keys-IsStrictFrom ((k, v) ∷ m) h =
    insert_sorted-IsStrictFrom 0 k (sort (keys m)) (sort-keys-IsStrictFrom m h.1) (omega arith)
      (mem-sort k (keys m) ∙ mem-keys k m ∙ ap is_some h.0)

-- A strictly increasing list with the members lo .. lo + n - 1 is that range.
pub eq-range_from :
    (lo n : ℕ) (l : List ℕ)
    → IsStrictFrom lo l
    → ((i : ℕ) → mem i l ≡ (leb lo i && ltb i (lo + n)))
    → l ≡ range_from lo n
eq-range_from lo zero [] h all = refl
eq-range_from lo (suc n) [] h all = absurd (ground (arith, all lo))
eq-range_from lo zero (x ∷ xs) h all = absurd (ground (arith, all x))
eq-range_from lo (suc n) (x ∷ xs) h all =
    let first : x ≡ lo = ground (arith, all lo, h.0, strict_absent (suc x) lo xs h.1) in
    rw (
      first,
      eq-range_from (suc lo) n xs (subst (λ j. IsStrictFrom (suc j) xs) first h.1)
          (λ i. ground (arith, all i, strict_absent (suc x) i xs h.1)),
    )

pub same_list→eq : (l m : List ℕ) → same_list l m ≡ true → l ≡ m
unfolding same_list
same_list→eq [] [] h = refl
same_list→eq [] (j ∷ js) h = cc
same_list→eq (i ∷ is) [] h = cc
same_list→eq (i ∷ is) (j ∷ js) h = ground (arith, same_list→eq is js)

pub same_list_refl : (l : List ℕ) → same_list l l ≡ true
unfolding same_list
same_list_refl [] = refl
same_list_refl (i ∷ is) = ground (arith, same_list_refl is)

pub length-range_from : (lo n : ℕ) → length (range_from lo n) ≡ n
length-range_from lo zero = refl
length-range_from lo (suc n) = ap suc (length-range_from (suc lo) n)

pub mem-range_from : (i lo n : ℕ) → mem i (range_from lo n) ≡ (leb lo i && ltb i (lo + n))
mem-range_from i lo zero = ground arith
mem-range_from i lo (suc n) = ground (arith, mem-range_from i (suc lo) n)
