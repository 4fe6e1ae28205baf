-- ===== src/Modes/Choice.antt =====
-- How a mode is chosen for a session: `get_mode`, `resolve_mode` and what they read of the table. The
-- order of names of the database is the argument `before`.
use app_stt_aio.Base.{
  Bool, Bool-cases, Option, Option-cases, String, [], arith, false, if◌then◌else◌, inl, inr, nat_eq,
  none, refl, some, string_eq, true, ◌==◌, ◌||◌, ◌∷◌, ◌≡◌, ◌⊎◌,
}
use app_stt_aio.Base.Dict.{lookup}
use app_stt_aio.Base.Result.{Result, ok, err}
use app_stt_aio.Modes.{Mode, ModeTable, ModeError, mode_not_found}

get_mode_of : Option Mode → Result ModeError Mode
get_mode_of none = err mode_not_found
get_mode_of (some m) = ok m

pub get_mode : String → ModeTable → Result ModeError Mode
unfolding get_mode_of
get_mode id t = get_mode_of (lookup id t)

-- `WHERE is_default = 1 LIMIT 1`
first_default : ModeTable → Option Mode
first_default [] = none
first_default ((k, m) ∷ t) = if m.draft.is_default then some m else first_default t

better : (String → String → Bool) → Mode → Option Mode → Option Mode
better before m none = some m
better before m (some other) = if before other.draft.name m.draft.name then some other else some m

-- `WHERE enabled = 1 ORDER BY name LIMIT 1`
first_enabled : (String → String → Bool) → ModeTable → Option Mode
unfolding better
first_enabled before [] = none
first_enabled before ((k, m) ∷ t) =
    let rest = first_enabled before t in if m.draft.enabled then better before m rest else rest

or_else : Option Mode → Option Mode → Option Mode
or_else none other = other
or_else (some m) other = some m

-- `ModeRepo.get_default`
pub get_default : (String → String → Bool) → ModeTable → Option Mode
unfolding first_default first_enabled or_else
get_default before t = or_else (first_default t) (first_enabled before t)

pub get_default_mode : (String → String → Bool) → ModeTable → Result ModeError Mode
unfolding get_mode_of get_default
get_default_mode before t = get_mode_of (get_default before t)

if_enabled : Option Mode → Result ModeError Mode → Result ModeError Mode
if_enabled none other = other
if_enabled (some m) other = if m.draft.enabled then ok m else other

-- An empty id counts as none.
pub resolve_mode : (String → String → Bool) → Option String → ModeTable → Result ModeError Mode
unfolding if_enabled
resolve_mode before none t = get_default_mode before t
resolve_mode before (some id) t =
    if id == ""
    then get_default_mode before t
    else if_enabled (lookup id t) (get_default_mode before t)

unfoldable pub has_enabled : ModeTable → Bool
has_enabled [] = false
has_enabled ((k, m) ∷ t) = m.draft.enabled || has_enabled t

better_found :
    (before : String → String → Bool) (m : Mode) (o : Option Mode)
    → (got : Mode) × (better before m o ≡ some got)
unfolding better
better_found before m none = (m, refl)
better_found before m (some other) = elim (Bool-cases (before other.draft.name m.draft.name)) [
  | inl first ↦ rw first (other, refl)
  | inr later ↦ rw later (m, refl)
]

enabled_found :
    (before : String → String → Bool) (t : ModeTable)
    → has_enabled t ≡ true
    → (got : Mode) × (first_enabled before t ≡ some got)
unfolding has_enabled first_enabled
enabled_found before [] h = absurd (cc)
enabled_found before ((k, m) ∷ t) h = elim (Bool-cases m.draft.enabled) [
  | inl able ↦ simp able (better_found before m (first_enabled before t))
  | inr not_able ↦ simp not_able (enabled_found before t (ground (arith, h, not_able)))
]

default_found :
    (before : String → String → Bool) (t : ModeTable)
    → has_enabled t ≡ true
    → (got : Mode) × (get_default_mode before t ≡ ok got)
unfolding get_default_mode get_default get_mode_of or_else
default_found before t h = elim (Option-cases (first_default t)) [
  | inl absent ↦ let (got, found) = enabled_found before t h in rw (absent, found) (got, refl)
  | inr (m, present) ↦ rw present (m, refl)
]

abbrev enabled_only : Option Mode → Option Mode
enabled_only none = none
enabled_only (some m) = if m.draft.enabled then some m else none

-- The mode that a session asks for: the one of its id, if there is one and it is enabled.
unfoldable pub asked : Option String → ModeTable → Option Mode
asked none t = none
asked (some id) t = if id == "" then none else enabled_only (lookup id t)

-- The mode that is asked for, and else the default mode, which exists.
abbrev pub IsChosen : (String → String → Bool) → Option String → ModeTable → Mode → Type 0
IsChosen before id t got =
    (asked id t ≡ some got) ⊎ (asked id t ≡ none) × (get_default_mode before t ≡ ok got)

if_enabled-IsChosen :
    (before : String → String → Bool) (o : Option Mode) (t : ModeTable)
    → has_enabled t ≡ true
    → (got : Mode) × (if_enabled o (get_default_mode before t) ≡ ok got)
      × ((enabled_only o ≡ some got)
          ⊎ (enabled_only o ≡ none) × (get_default_mode before t ≡ ok got))
unfolding if_enabled
if_enabled-IsChosen before none t h =
    let (got, found) = default_found before t h in (got, found, inr (refl, found))
if_enabled-IsChosen before (some m) t h = elim (Bool-cases m.draft.enabled) [
  | inl able ↦ simp able (m, refl, inl refl)
  | inr not_able ↦
      simp not_able (let (got, found) = default_found before t h in (got, found, inr (refl, found)))
]

-- While some mode is enabled, a mode is found for every session: the mode of the id that it asks
-- for, if the id is not empty and names an enabled mode, and else, also for unknown and disabled
-- ids, the mode of `get_default_mode`.
pub resolve_mode-IsChosen :
    (before : String → String → Bool) (id : Option String) (t : ModeTable)
    → has_enabled t ≡ true
    → (got : Mode) × (resolve_mode before id t ≡ ok got) × IsChosen before id t got
unfolding resolve_mode asked
resolve_mode-IsChosen before none t h =
    let (got, found) = default_found before t h in (got, found, inr (refl, found))
resolve_mode-IsChosen before (some id) t h = elim (Bool-cases (id == "")) [
  | inl empty ↦
      simp empty (let (got, found) = default_found before t h in (got, found, inr (refl, found)))
  | inr named ↦ simp named (if_enabled-IsChosen before (lookup id t) t h)
]
