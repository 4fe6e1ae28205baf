-- ===== src/Hotkey/Conflict.antt =====
-- app/hotkey/conflict.py, with the `test_register` of a backend as an argument.
use app_stt_aio.Base.{
  Bool, Bool-cases, List, Option, String, [], false, if◌then◌else◌, inl, inr, nat_eq, none, some,
  string_eq, true, ◌==◌, ◌∷◌, ◌≡◌,
}
use app_stt_aio.Base.Result.{Result, ok, err}
use app_stt_aio.Base.Text.{strip, lower}
use app_stt_aio.Hotkey.Binding.{KeyChord, BindingError, parse_binding}

abbrev pub fallback_bindings : List String
fallback_bindings = "ctrl+shift+space" ∷ "ctrl+alt+space" ∷ "ctrl+shift+f8" ∷ "f8" ∷ "pause" ∷ []

abbrev pub cancel_fallback_bindings : List String
cancel_fallback_bindings = "escape" ∷ "ctrl+escape" ∷ "f12" ∷ []

abbrev available : (KeyChord → Bool) → Result BindingError KeyChord → Bool
available test (err e) = false
available test (ok chord) = test chord

unfoldable pub check_binding_available : (KeyChord → Bool) → String → Bool
check_binding_available test keys = available test (parse_binding keys)

pub first_free : (KeyChord → Bool) → String → List String → Option String
first_free test blocked [] = none
first_free test blocked (c ∷ cs) =
    let rest = first_free test blocked cs in
    if strip (lower c) == blocked
    then rest
    else if check_binding_available test c
    then some c
    else rest

-- Nothing is excluded besides the keys themselves.
unfoldable pub suggest_fallback_binding : (KeyChord → Bool) → String → List String → Option String
unfolding first_free
suggest_fallback_binding test keys candidates = first_free test (strip (lower keys)) candidates

abbrev Suggested : (KeyChord → Bool) → String → Option String → Type 0
Suggested test keys none = Unit
Suggested test keys (some c) =
    (check_binding_available test c ≡ true) × ((strip (lower c) == strip (lower keys)) ≡ false)

-- What is suggested in place of keys is other keys, and they are available.
suggest_fallback_binding_lem :
    (test : KeyChord → Bool) (keys : String) (candidates : List String)
    → Suggested test keys (suggest_fallback_binding test keys candidates)
unfolding suggest_fallback_binding first_free
suggest_fallback_binding_lem test keys [] = tt
suggest_fallback_binding_lem test keys (c ∷ cs) =
    let rest = suggest_fallback_binding_lem test keys cs in
    elim (Bool-cases (strip (lower c) == strip (lower keys))) [
      | inl same ↦ rw same rest
      | inr other ↦ elim (Bool-cases (check_binding_available test c)) [
        | inl free ↦ rw (other, free) (free, other)
        | inr taken ↦ rw (other, taken) rest
      ]
    ]
