-- ===== src/Gateway/Chunks/Assembly.antt =====
-- `assemble` joins the parts 0 .. n - 1 in the order of their indices, and refuses all else.
use app_stt_aio.Base.{
  Bool-cases, if◌then◌else◌, inl, inr, ℕ, zero, suc, ◌+◌, ◌≡◌, refl, ap, none, some, List, [], ◌∷◌,
  map, ◌∙◌, arith, ltb, nat_eq, length, join, get_elem?, Bytes, ◌≢◌,
}
use app_stt_aio.Base.Dict.{Dict, lookup, keys, IsUnique, is_some}
use app_stt_aio.Base.Result.{ok}
use app_stt_aio.Gateway.Chunks.{same_list, assemble, sort, range_from, part_or_empty}
use app_stt_aio.Gateway.Chunks.Indices.{
  mem, mem-range_from, same_list→eq, mem-sort, mem-keys, sort-keys-IsStrictFrom, eq-range_from,
  same_list_refl, length-range_from,
}

-- The parts are those of `pieces`, each at its index.
abbrev pub Holds : Dict ℕ Bytes → List Bytes → Type 0
Holds m pieces = (i : ℕ) → lookup i m ≡ get_elem? pieces i

is_some-get_elem? :
    (i : ℕ) (pieces : List Bytes) → is_some (get_elem? pieces i) ≡ ltb i (length pieces)
is_some-get_elem? i [] = ground arith
is_some-get_elem? zero (p ∷ ps) = ground arith
is_some-get_elem? (suc i) (p ∷ ps) = ground (arith, is_some-get_elem? i ps)

abbrev pick : Dict ℕ Bytes → ℕ → Bytes
pick m i = part_or_empty (lookup i m)

join-pick :
    (m : Dict ℕ Bytes) (lo : ℕ) (pieces : List Bytes)
    → ((i : ℕ) → lookup (lo + i) m ≡ get_elem? pieces i)
    → join (map (pick m) (range_from lo (length pieces))) ≡ join pieces
join-pick m lo [] h = refl
join-pick m lo (p ∷ ps) h =
    let first : lookup lo m ≡ some p = ap (λ n. lookup n m) (omega arith) ∙ h 0 in
    rw (first, join-pick m (suc lo) ps (λ i. ap (λ n. lookup n m) (omega arith) ∙ h (suc i)))

sorted_keys :
    (m : Dict ℕ Bytes) (pieces : List Bytes)
    → IsUnique m
    → Holds m pieces
    → sort (keys m) ≡ range_from 0 (length pieces)
sorted_keys m pieces u h =
    eq-range_from 0 (length pieces) (sort (keys m)) (sort-keys-IsStrictFrom m u) λ i.
      ground
        (arith, mem-sort i (keys m), mem-keys i m, ap is_some (h i), is_some-get_elem? i pieces)

-- A complete set of parts, in whatever order it came, gives the pieces in order.
pub assemble_complete :
    (m : Dict ℕ Bytes) (pieces : List Bytes)
    → IsUnique m
    → Holds m pieces
    → pieces ≢ []
    → assemble m ≡ ok (some (join pieces))
unfolding assemble lookup
assemble_complete [] [] u h some_piece = absurd (some_piece refl)
assemble_complete [] (p ∷ ps) u h some_piece = absurd (let e : none ≡ some p = h 0 in cc)
assemble_complete (p ∷ ps) pieces u h some_piece =
    let indices : sort (keys (p ∷ ps)) ≡ range_from 0 (length pieces) =
      sorted_keys (p ∷ ps) pieces u h in
    rw (indices, length-range_from, same_list_refl)
      (ap (λ (bytes : Bytes). ok (some bytes))
        (join-pick (p ∷ ps) 0 pieces (λ i. ap (λ n. lookup n (p ∷ ps)) (omega arith) ∙ h i)))

get_elem?-range :
    (f : ℕ → Bytes) (lo n i : ℕ)
    → get_elem? (map f (range_from lo n)) i ≡ (if ltb i n then some (f (lo + i)) else none)
get_elem?-range f lo zero i = ground arith
get_elem?-range f lo (suc n) zero = ground (arith, ap f (let e : lo + 0 ≡ lo = omega arith in e))
get_elem?-range f lo (suc n) (suc i) =
    get_elem?-range f (suc lo) n i
    ∙ ground (arith, ap f (let e : suc lo + i ≡ lo + suc i = omega arith in e))

in_range :
    (m : Dict ℕ Bytes) (n : ℕ)
    → sort (keys m) ≡ range_from 0 n
    → (i : ℕ) → is_some (lookup i m) ≡ ltb i n
in_range m n e i =
    ground (arith, mem-keys i m, mem-sort i (keys m), ap (mem i) e, mem-range_from i 0 n)

Holds-of_range :
    (m : Dict ℕ Bytes) (n : ℕ)
    → sort (keys m) ≡ range_from 0 n
    → Holds m (map (pick m) (range_from 0 n))
Holds-of_range m n e i = ground (
  arith,
  in_range m n e i,
  get_elem?-range (pick m) 0 n i,
  ap (pick m) (let z : 0 + i ≡ i = omega arith in z),
)

-- A payload is given only for a complete set of parts, and is their concatenation in order.
pub assemble_sound :
    (m : Dict ℕ Bytes) (payload : Bytes)
    → assemble m ≡ ok (some payload)
    → (pieces : List Bytes) × Holds m pieces × (payload ≡ join pieces)
unfolding assemble
assemble_sound [] payload h = absurd (cc)
assemble_sound (p ∷ ps) payload h =
    let indices = sort (keys (p ∷ ps)) in
    elim (Bool-cases (same_list indices (range_from 0 (length indices)))) [
      | inl full ↦
          let e = same_list→eq indices (range_from 0 (length indices)) full in
          (
            map (pick (p ∷ ps)) (range_from 0 (length indices)),
            Holds-of_range (p ∷ ps) (length indices) e,
            ground (arith, h, full, ap (λ l. join (map (pick (p ∷ ps)) l)) e),
          )
      | inr gap ↦ absurd (ground (arith, h, gap))
    ]
