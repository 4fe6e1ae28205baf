-- ===== src/Textproc/Idempotence.antt =====
-- `basic_normalize` leaves a normalized text as it is.
use app_stt_aio.Base.{
  All, Bool, Bool-cases, List, [], ap, false, if◌then◌else◌, inl, inr, refl, true, ℕ, ◌∷◌, ◌≡◌,
}
use app_stt_aio.Base.Text.{is_space}
use app_stt_aio.Textproc.Normalize.{
  is_control, remove_controls, is_blank_char, collapse, lstrip, all_space, rstrip, basic_normalize,
}

abbrev IsClean : List ℕ → Type 0
IsClean = All (λ c. is_control c ≡ false)

-- Runs of spaces are one space, and none stands first after one.
abbrev IsTidy : Bool → List ℕ → Type 0
IsTidy within [] = Unit {0}
IsTidy within (c ∷ t) =
    if is_blank_char c then (c ≡ 32) × (within ≡ false) × IsTidy true t else IsTidy false t

-- The text begins with something that can be seen.
abbrev BeginsVisibly : List ℕ → Type 0
BeginsVisibly [] = Unit {0}
BeginsVisibly (c ∷ t) = is_space c ≡ false

remove_controls-IsClean : (t : List ℕ) → IsClean (remove_controls t)
unfolding remove_controls
remove_controls-IsClean [] = tt
remove_controls-IsClean (c ∷ t) = elim (Bool-cases (is_control c)) [
  | inl gone ↦ rw gone (remove_controls-IsClean t)
  | inr kept ↦ rw kept (kept, remove_controls-IsClean t)
]

remove_controls_same : (t : List ℕ) → IsClean t → remove_controls t ≡ t
unfolding remove_controls
remove_controls_same [] h = refl
remove_controls_same (c ∷ t) h = rw h.0 (ap (λ l. c ∷ l) (remove_controls_same t h.1))

collapse-IsClean : (within : Bool) (t : List ℕ) → IsClean t → IsClean (collapse within t)
unfolding collapse
collapse-IsClean within [] h = tt
collapse-IsClean within (c ∷ t) h = elim (Bool-cases (is_blank_char c)) [
  | inr other ↦ rw other (h.0, collapse-IsClean false t h.1)
  | inl blank ↦ elim (Bool-cases within) [
    | inl inside ↦ rw (blank, inside) (collapse-IsClean true t h.1)
    | inr first ↦ rw (blank, first) (refl, collapse-IsClean true t h.1)
  ]
]

lstrip-IsClean : (t : List ℕ) → IsClean t → IsClean (lstrip t)
unfolding lstrip
lstrip-IsClean [] h = tt
lstrip-IsClean (c ∷ t) h = elim (Bool-cases (is_space c)) [
  | inl blank ↦ rw blank (lstrip-IsClean t h.1)
  | inr seen ↦ rw seen h
]

rstrip-IsClean : (t : List ℕ) → IsClean t → IsClean (rstrip t)
unfolding rstrip
rstrip-IsClean [] h = tt
rstrip-IsClean (c ∷ t) h = elim (Bool-cases (all_space (c ∷ t))) [
  | inl blank ↦ rw blank tt
  | inr seen ↦ rw seen (h.0, rstrip-IsClean t h.1)
]

collapse-IsTidy : (within : Bool) (t : List ℕ) → IsTidy within (collapse within t)
unfolding collapse
collapse-IsTidy within [] = tt
collapse-IsTidy within (c ∷ t) = elim (Bool-cases (is_blank_char c)) [
  | inr other ↦ rw (other, other) (collapse-IsTidy false t)
  | inl blank ↦ elim (Bool-cases within) [
    | inl inside ↦ rw (blank, inside) (collapse-IsTidy true t)
    | inr first ↦ rw (blank, first) (refl, refl, collapse-IsTidy true t)
  ]
]

IsTidy-weaken : (within : Bool) (t : List ℕ) → IsTidy within t → IsTidy false t
IsTidy-weaken within [] h = tt
IsTidy-weaken within (c ∷ t) h = elim (Bool-cases (is_blank_char c)) [
  | inr other ↦ rw other (rw other at h)
  | inl blank ↦ let (space, first, rest) = rw blank at h in rw blank (space, refl, rest)
]

collapse_same : (within : Bool) (t : List ℕ) → IsTidy within t → collapse within t ≡ t
unfolding collapse
collapse_same within [] h = refl
collapse_same within (c ∷ t) h = elim (Bool-cases (is_blank_char c)) [
  | inr other ↦ rw other (ap (λ l. c ∷ l) (collapse_same false t (rw other at h)))
  | inl blank ↦
      let (space, first, rest) = rw blank at h in
      rw (blank, first) (cc (space, collapse_same true t rest))
]

lstrip-IsTidy : (within : Bool) (t : List ℕ) → IsTidy within t → IsTidy false (lstrip t)
unfolding lstrip
lstrip-IsTidy within [] h = tt
lstrip-IsTidy within (c ∷ t) h = elim (Bool-cases (is_space c)) [
  | inr seen ↦ rw seen (IsTidy-weaken within (c ∷ t) h)
  | inl space ↦ rw space (elim (Bool-cases (is_blank_char c)) [
    | inr other ↦ lstrip-IsTidy false t (rw other at h)
    | inl blank ↦ let (same, first, rest) = rw blank at h in lstrip-IsTidy true t rest
  ])
]

rstrip-IsTidy : (within : Bool) (t : List ℕ) → IsTidy within t → IsTidy within (rstrip t)
unfolding rstrip
rstrip-IsTidy within [] h = tt
rstrip-IsTidy within (c ∷ t) h = elim (Bool-cases (all_space (c ∷ t))) [
  | inl space ↦ rw space tt
  | inr seen ↦ rw seen (elim (Bool-cases (is_blank_char c)) [
    | inr other ↦ rw other (rstrip-IsTidy false t (rw other at h))
    | inl blank ↦
        let (same, first, rest) = rw blank at h in rw blank (same, first, rstrip-IsTidy true t rest)
  ])
]

lstrip-BeginsVisibly : (t : List ℕ) → BeginsVisibly (lstrip t)
unfolding lstrip
lstrip-BeginsVisibly [] = tt
lstrip-BeginsVisibly (c ∷ t) = elim (Bool-cases (is_space c)) [
  | inl blank ↦ rw blank (lstrip-BeginsVisibly t)
  | inr seen ↦ rw seen seen
]

lstrip_same : (t : List ℕ) → BeginsVisibly t → lstrip t ≡ t
unfolding lstrip
lstrip_same [] h = refl
lstrip_same (c ∷ t) h = rw h refl

rstrip-BeginsVisibly : (t : List ℕ) → BeginsVisibly t → BeginsVisibly (rstrip t)
unfolding rstrip
rstrip-BeginsVisibly [] h = tt
rstrip-BeginsVisibly (c ∷ t) h = rw h h

all_space-rstrip : (t : List ℕ) → all_space (rstrip t) ≡ all_space t
unfolding rstrip
all_space-rstrip [] = refl
all_space-rstrip (c ∷ t) = elim (Bool-cases (all_space (c ∷ t))) [
  | inl blank ↦ rw blank refl
  | inr seen ↦ rw seen (rw (all_space-rstrip t) seen)
]

rstrip_idem : (t : List ℕ) → rstrip (rstrip t) ≡ rstrip t
unfolding rstrip
rstrip_idem [] = refl
rstrip_idem (c ∷ t) = elim (Bool-cases (all_space (c ∷ t))) [
  | inl blank ↦ rw blank refl
  | inr seen ↦ rw (seen, all_space-rstrip, seen) (ap (λ l. c ∷ l) (rstrip_idem t))
]

module _ (t : List ℕ) where
  abbrev trimmed : List ℕ
  trimmed = lstrip (collapse false (remove_controls t))

  clean : IsClean (rstrip trimmed)
  clean = rstrip-IsClean _ (lstrip-IsClean _ (collapse-IsClean false _ (remove_controls-IsClean t)))

  tidy : IsTidy false (rstrip trimmed)
  tidy = rstrip-IsTidy false _ (lstrip-IsTidy false _ (collapse-IsTidy false _))

  visible : BeginsVisibly (rstrip trimmed)
  visible = rstrip-BeginsVisibly _ (lstrip-BeginsVisibly _)

-- A text that is normalized is left as it is by normalizing it again.
pub basic_normalize_idem : (t : List ℕ) → basic_normalize (basic_normalize t) ≡ basic_normalize t
unfolding basic_normalize
basic_normalize_idem t =
    rw
      (
        remove_controls_same (rstrip (trimmed t)) (clean t),
        collapse_same false (rstrip (trimmed t)) (tidy t),
        lstrip_same (rstrip (trimmed t)) (visible t),
      )
      (rstrip_idem (trimmed t))
