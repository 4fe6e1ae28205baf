-- ===== src/Base/Dict.antt =====
-- Python's `dict`: pairs in insertion order; a new value for an old key keeps its place.
use Prim.Native.Nat.{ℕ, ◌+◌, ◌*◌, ◌≤◌}
use mathlib.Core.Path.{◌≡◌, refl, subst}
use mathlib.Core.Logic.{inl, inr}
use mathlib.Core.Bool.{Bool, true, false}
use mathlib.Core.Option.{Option, none, some}
use mathlib.Core.List.{List, [], ◌∷◌}
use native.Mathlib.Nat.{suc-mul}
use native.Mathlib.Omega.{arith}
use app_stt_aio.Base.Tests.{Eq, ◌==◌, if◌then◌else◌, Bool-cases}
use app_stt_aio.Base.Lists.{length}

abbrev pub Dict {ℓ κ} : Type ℓ → Type κ → Type (ℓ ⊔ κ)
Dict K V = List (K × V)

abbrev pub weigh {ℓ} : {V : Type ℓ} → (V → ℕ) → Option V → ℕ
weigh f none = 0
weigh f (some v) = f v

abbrev pub is_some {ℓ} : {V : Type ℓ} → Option V → Bool
is_some none = false
is_some (some v) = true

module _ {ℓ κ} {K : Type ℓ} {V : Type κ} where
  unfoldable pub sum_by : (V → ℕ) → Dict K V → ℕ
  sum_by f [] = 0
  sum_by f ((k, v) ∷ m) = f v + sum_by f m

  abbrev pub AllValues {μ} : (V → Type μ) → Dict K V → Type μ
  AllValues P [] = Unit
  AllValues P ((k, v) ∷ m) = P v × AllValues P m

  abbrev pub keys : Dict K V → List K
  keys [] = []
  keys ((k, v) ∷ m) = k ∷ keys m

  pub sum_by-le :
      (f : V → ℕ) (bound : ℕ) (m : Dict K V)
      → AllValues (λ v. f v ≤ bound) m
      → sum_by f m ≤ length m * bound
  unfolding sum_by
  sum_by-le f bound [] h = omega arith
  sum_by-le f bound ((k, v) ∷ m) h =
      omega (arith, sum_by-le f bound m h.1, suc-mul (length m) bound)

pub some_inj {ℓ} : {A : Type ℓ} {a b : A} → some a ≡ some b → a ≡ b
some_inj h = cc

if_same {ℓ} : {A : Type ℓ} {a : A} (b : Bool) → (if b then a else a) ≡ a
if_same true = refl
if_same false = refl

module _ {ℓ κ} {K : Type ℓ} {V : Type κ} ⦃e : Eq K⦄ where
  -- `d.get(k)`
  unfoldable pub lookup : K → Dict K V → Option V
  lookup k [] = none
  lookup k ((i, found) ∷ rest) = if i == k then some found else lookup k rest

  -- `d[k] = v`
  unfoldable pub insert : K → V → Dict K V → Dict K V
  insert k v [] = (k, v) ∷ []
  insert k v ((i, old) ∷ rest) = if i == k then (i, v) ∷ rest else (i, old) ∷ insert k v rest

  -- `del d[k]`, `d.pop(k, None)`
  unfoldable pub remove : K → Dict K V → Dict K V
  remove k [] = []
  remove k ((j, v) ∷ m) = let rest = remove k m in if j == k then rest else (j, v) ∷ rest

  -- No key stands twice.
  abbrev pub IsUnique : Dict K V → Type κ
  IsUnique [] = Unit
  IsUnique ((k, v) ∷ m) = (lookup k m ≡ none) × IsUnique m

  pub lookup-insert :
      (key other : K) (v : V) (dict : Dict K V)
      → lookup other (insert key v dict) ≡ (if key == other then some v else lookup other dict)
  unfolding insert lookup
  lookup-insert key other v [] = refl
  lookup-insert key other v ((i, old) ∷ rest) = ground (
    e.beq_iff i key,
    e.beq_iff i other,
    e.beq_iff key other,
    arith,
    lookup-insert key other v rest,
  )

  pub lookup-remove :
      (k j : K) (m : Dict K V) → lookup j (remove k m) ≡ (if k == j then none else lookup j m)
  unfolding lookup remove
  lookup-remove k j [] = ground arith
  lookup-remove k j ((i, w) ∷ m) =
      ground (arith, e.beq_iff k j, e.beq_iff i k, e.beq_iff i j, lookup-remove k j m)

  pub lookup-insert_self : (k : K) (v : V) (m : Dict K V) → lookup k (insert k v m) ≡ some v
  lookup-insert_self k v m = rw lookup-insert (rw ((e.beq_iff k k).1 refl) refl)

  pub lookup-insert_eq : (k j : K) (v : V) (m : Dict K V) → k ≡ j → lookup j (insert k v m) ≡ some v
  lookup-insert_eq k j v m h = rw lookup-insert (rw ((e.beq_iff k j).1 h) refl)

  pub lookup-remove_self : (k : K) (m : Dict K V) → lookup k (remove k m) ≡ none
  lookup-remove_self k m = rw lookup-remove (rw ((e.beq_iff k k).1 refl) refl)

  pub lookup-remove-none :
      (k j : K) (m : Dict K V) → lookup j m ≡ none → lookup j (remove k m) ≡ none
  lookup-remove-none k j m h = rw (lookup-remove, h) (if_same (k == j))

  pub length-remove : (k : K) (m : Dict K V) → length (remove k m) ≤ length m
  unfolding remove
  length-remove k [] = omega arith
  length-remove k ((j, v) ∷ m) = ground (arith, length-remove k m)

  -- Deleting a key that is there makes the dictionary shorter.
  pub length-remove_lt :
      (k : K) (m : Dict K V) → is_some (lookup k m) ≡ true → length (remove k m) + 1 ≤ length m
  unfolding remove lookup
  length-remove_lt k [] h = cc
  length-remove_lt k ((j, v) ∷ m) h = ground (arith, length-remove k m, length-remove_lt k m)

  pub length-insert : (k : K) (v : V) (m : Dict K V) → length (insert k v m) ≤ length m + 1
  unfolding insert
  length-insert k v [] = omega arith
  length-insert k v ((j, w) ∷ m) = ground (arith, length-insert k v m)

  pub length-insert_old :
      (k : K) (v : V) (m : Dict K V)
      → is_some (lookup k m) ≡ true
      → length (insert k v m) ≡ length m
  unfolding insert lookup
  length-insert_old k v [] h = absurd (cc)
  length-insert_old k v ((j, w) ∷ m) h = ground (arith, length-insert_old k v m)

  pub IsUnique-remove : (k : K) (m : Dict K V) → IsUnique m → IsUnique (remove k m)
  unfolding remove
  IsUnique-remove k [] h = tt
  IsUnique-remove k ((j, v) ∷ m) h = elim (Bool-cases (j == k)) [
    | inl same ↦ rw same (IsUnique-remove k m h.1)
    | inr other ↦ rw other (lookup-remove-none k j m h.0, IsUnique-remove k m h.1)
  ]

  pub IsUnique-insert : (k : K) (v : V) (m : Dict K V) → IsUnique m → IsUnique (insert k v m)
  unfolding insert lookup
  IsUnique-insert k v [] h = (refl, tt)
  IsUnique-insert k v ((j, w) ∷ m) h = elim (Bool-cases (j == k)) [
    | inl same ↦ rw same h
    | inr other ↦ rw other (
      rw lookup-insert (ground (arith, e.beq_iff j k, e.beq_iff k j, h.0)),
      IsUnique-insert k v m h.1,
    )
  ]

  remove_absent : (k : K) (m : Dict K V) → lookup k m ≡ none → remove k m ≡ m
  unfolding remove lookup
  remove_absent k [] h = refl
  remove_absent k ((j, v) ∷ m) h = ground (arith, remove_absent k m)

  pub sum_by-remove :
      (f : V → ℕ) (k : K) (m : Dict K V)
      → IsUnique m
      → sum_by f (remove k m) + weigh f (lookup k m) ≡ sum_by f m
  unfolding remove lookup sum_by
  sum_by-remove f k [] h = omega arith
  sum_by-remove f k ((j, v) ∷ m) h = elim (Bool-cases (j == k)) [
    | inl same ↦ rw same (
        rw (remove_absent k m (subst (λ i. lookup i m ≡ none) ((e.beq_iff j k).0 same) h.0))
          (omega arith))
    | inr other ↦ rw other (omega (arith, sum_by-remove f k m h.1))
  ]

  pub length-remove_old :
      (k : K) (m : Dict K V)
      → IsUnique m
      → is_some (lookup k m) ≡ true
      → length (remove k m) + 1 ≡ length m
  unfolding remove lookup
  length-remove_old k [] u h = absurd (cc)
  length-remove_old k ((j, v) ∷ m) u h = elim (Bool-cases (j == k)) [
    | inl same ↦ rw same (
        rw (remove_absent k m (subst (λ i. lookup i m ≡ none) ((e.beq_iff j k).0 same) u.0))
          (omega arith))
    | inr other ↦ rw other (omega (arith, length-remove_old k m u.1 (ground (arith, h, other))))
  ]

  pub length-insert_new :
      (k : K) (v : V) (m : Dict K V) → lookup k m ≡ none → length (insert k v m) ≡ length m + 1
  unfolding insert lookup
  length-insert_new k v [] h = omega arith
  length-insert_new k v ((j, w) ∷ m) h = ground (arith, length-insert_new k v m)

  pub sum_by-insert :
      (f : V → ℕ) (k : K) (v : V) (m : Dict K V)
      → sum_by f (insert k v m) + weigh f (lookup k m) ≡ sum_by f m + f v
  unfolding insert lookup sum_by
  sum_by-insert f k v [] = omega arith
  sum_by-insert f k v ((j, w) ∷ m) = ground (arith, sum_by-insert f k v m)

  module _ {μ} (P : V → Type μ) where
    pub AllValues-remove : (k : K) (m : Dict K V) → AllValues P m → AllValues P (remove k m)
    unfolding remove
    AllValues-remove k [] h = tt
    AllValues-remove k ((j, v) ∷ m) h = elim (Bool-cases (j == k)) [
      | inl same ↦ rw same (AllValues-remove k m h.1)
      | inr other ↦ rw other (h.0, AllValues-remove k m h.1)
    ]

    pub AllValues-insert :
        (k : K) (v : V) (m : Dict K V) → P v → AllValues P m → AllValues P (insert k v m)
    unfolding insert
    AllValues-insert k v [] p h = (p, tt)
    AllValues-insert k v ((j, w) ∷ m) p h = elim (Bool-cases (j == k)) [
      | inl same ↦ rw same (p, h.1)
      | inr other ↦ rw other (h.0, AllValues-insert k v m p h.1)
    ]

    pub AllValues-lookup :
        (k : K) (v : V) (m : Dict K V) → AllValues P m → lookup k m ≡ some v → P v
    unfolding lookup
    AllValues-lookup k v [] h found = absurd (cc)
    AllValues-lookup k v ((j, w) ∷ m) h found = elim (Bool-cases (j == k)) [
      | inl same ↦ subst P (some_inj (rw same at found)) h.0
      | inr other ↦ AllValues-lookup k v m h.1 (rw other at found)
    ]
