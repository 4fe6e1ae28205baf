-- ===== src/Config/RepairSteps.antt =====
-- How the repair of a table of settings ends, one setting after another.
use app_stt_aio.Base.{
  All, Bool, List, Option, String, [], false, nat_eq, none, refl, some, string_eq, true, ◌==◌, ◌∙◌,
  ◌∷◌, ◌≡◌, Bool-cases, inl, inr, ap, sym, ◌||◌,
}
use app_stt_aio.Base.Dict.{lookup, is_some, lookup-insert, lookup-insert_self}
use app_stt_aio.Config.Schema.{
  Numbers, SettingDef, Value, ValueFault, value_error, overflow_error, serialize_value, read_value,
}
use app_stt_aio.Base.Result.{Result, Exec, ok, err, and_then}
use app_stt_aio.Config.Present.{ArePresent}
use app_stt_aio.Config.Migration.{Table, repair_read, repair_one, repair_settings}

or-true : (b : Bool) → (b || true) ≡ true
or-true true = refl
or-true false = refl

-- No key stands twice in the schema.
abbrev pub IsApart : {F : Type 0} → String → List (SettingDef F) → Type 0
IsApart k = All (λ d. (d.key == k) ≡ false)

module _ {F : Type 0} (py : Numbers F) where
  abbrev pub AreApart : List (SettingDef F) → Type 0
  AreApart [] = Unit {0}
  AreApart (d ∷ ds) = IsApart d.key ds × AreApart ds

  abbrev pub is_valid_read : Result ValueFault (Value F) → Bool
  is_valid_read (ok v) = true
  is_valid_read (err e) = false

  abbrev pub is_overflow_read : Result ValueFault (Value F) → Bool
  is_overflow_read (err overflow_error) = true
  is_overflow_read _ = false

  -- A table has a valid text for a setting.
  abbrev pub is_valid : SettingDef F → Option String → Bool
  is_valid d none = false
  is_valid d (some raw) = is_valid_read (read_value py d raw)

  -- A table has a text for a setting that is too large for a float.
  abbrev pub is_overflow : SettingDef F → Option String → Bool
  is_overflow d none = false
  is_overflow d (some raw) = is_overflow_read (read_value py d raw)

  unfoldable pub overflows : List (SettingDef F) → Table → Bool
  overflows [] repo = false
  overflows (d ∷ ds) repo = is_overflow d (lookup d.key repo) || overflows ds repo

  repair_read-other :
      (k : String) (d : SettingDef F) (r : Result ValueFault (Value F)) (s : List String × Table)
      → (d.key == k) ≡ false
      → lookup k (repair_read py d r s).1.1 ≡ lookup k s.1
  repair_read-other k d (ok v) s h = refl
  repair_read-other k d (err value_error) s h =
      lookup-insert d.key k (serialize_value py d d.default) s.1 ∙ rw h refl
  repair_read-other k d (err overflow_error) s h = refl

  repair_one-other :
      (k : String) (d : SettingDef F) (o : Option String) (s : List String × Table)
      → (d.key == k) ≡ false
      → lookup k (repair_one py d o s).1.1 ≡ lookup k s.1
  repair_one-other k d none s h = refl
  repair_one-other k d (some raw) s h = repair_read-other k d (read_value py d raw) s h

  and_then-other :
      (k : String) (f : Exec ValueFault (List String × Table) (Unit {0}))
      (r : Result ValueFault (Unit {0}) × (List String × Table))
      → ((s : List String × Table) → lookup k (f s).1.1 ≡ lookup k s.1)
      → lookup k (and_then r (λ _. f)).1.1 ≡ lookup k r.1.1
  and_then-other k f (ok u, s) h = h s
  and_then-other k f (err e, s) h = refl

  repair-other :
      (k : String) (ds : List (SettingDef F)) (s : List String × Table)
      → IsApart k ds
      → lookup k (repair_settings py ds s).1.1 ≡ lookup k s.1
  unfolding repair_settings
  repair-other k [] s h = refl
  repair-other k (d ∷ ds) s h =
      and_then-other k (repair_settings py ds) (repair_one py d (lookup d.key s.1) s)
        (λ s'. repair-other k ds s' h.1)
      ∙ repair_one-other k d (lookup d.key s.1) s h.0

  abbrev pub DefaultIsValid : SettingDef F → Type 0
  DefaultIsValid d = is_valid d (some (serialize_value py d d.default)) ≡ true

  -- How the repair of one setting ends: the setting is valid, or its text was too large for a float.
  abbrev IsRepaired :
      SettingDef F → Option String → Result ValueFault (Unit {0}) × (List String × Table) → Type 0
  IsRepaired d o (ok u, s) = is_valid d (lookup d.key s.1) ≡ true
  IsRepaired d o (err e, s) = (e ≡ overflow_error) × (is_overflow d o ≡ true)

  repair_read-IsRepaired :
      (d : SettingDef F) (raw : String) (r : Result ValueFault (Value F)) (s : List String × Table)
      → DefaultIsValid d
      → lookup d.key s.1 ≡ some raw
      → read_value py d raw ≡ r
      → IsRepaired d (some raw) (repair_read py d r s)
  repair_read-IsRepaired d raw (ok got) s v e q = rw (e, q) refl
  repair_read-IsRepaired d raw (err value_error) s v e q = rw lookup-insert_self v
  repair_read-IsRepaired d raw (err overflow_error) s v e q = (refl, rw q refl)

  repair_one-IsRepaired :
      (d : SettingDef F) (o : Option String) (s : List String × Table)
      → DefaultIsValid d
      → lookup d.key s.1 ≡ o
      → is_some o ≡ true
      → IsRepaired d o (repair_one py d o s)
  repair_one-IsRepaired d none s v e h = absurd (cc)
  repair_one-IsRepaired d (some raw) s v e h =
      repair_read-IsRepaired d raw (read_value py d raw) s v e refl

  apart_symm : (a b : String) → (a == b) ≡ false → (b == a) ≡ false
  apart_symm a b h = elim (Bool-cases (b == a)) [
    | inl same ↦ absurd (cc (h, (string_eq.beq_iff a b).1 (sym ((string_eq.beq_iff b a).0 same))))
    | inr other ↦ other
  ]

  -- Two tables that agree on a list of settings.
  abbrev Agree : Table → Table → List (SettingDef F) → Type 0
  Agree old new = All (λ d. lookup d.key new ≡ lookup d.key old)

  repair_one-Agree :
      (d : SettingDef F) (o : Option String) (s : List String × Table) (ds : List (SettingDef F))
      → IsApart d.key ds
      → Agree s.1 (repair_one py d o s).1.1 ds
  repair_one-Agree d o s [] h = tt
  repair_one-Agree d o s (x ∷ ds) h =
      (repair_one-other x.key d o s (apart_symm x.key d.key h.0), repair_one-Agree d o s ds h.1)

  Agree-ArePresent :
      (old new : Table) (ds : List (SettingDef F))
      → Agree old new ds
      → ArePresent old ds
      → ArePresent new ds
  Agree-ArePresent old new [] same h = tt
  Agree-ArePresent old new (d ∷ ds) same h =
      (ap is_some same.0 ∙ h.0, Agree-ArePresent old new ds same.1 h.1)

  overflows-Agree :
      (old new : Table) (ds : List (SettingDef F))
      → Agree old new ds
      → overflows ds new ≡ overflows ds old
  unfolding overflows
  overflows-Agree old new [] same = refl
  overflows-Agree old new (d ∷ ds) same =
      ap (λ o. is_overflow d o || overflows ds new) same.0
      ∙ ap (λ b. is_overflow d (lookup d.key old) || b) (overflows-Agree old new ds same.1)

  abbrev pub AreValid : Table → List (SettingDef F) → Type 0
  AreValid repo = All (λ d. is_valid d (lookup d.key repo) ≡ true)

  -- How a repair ends that began with a table.
  abbrev pub AreRepaired :
      List (SettingDef F) → Table → Result ValueFault (Unit {0}) × (List String × Table) → Type 0
  AreRepaired ds before (ok u, s) = AreValid s.1 ds
  AreRepaired ds before (err e, s) = (e ≡ overflow_error) × (overflows ds before ≡ true)

  AreRepaired-cons :
      (d : SettingDef F) (ds : List (SettingDef F)) (old mid : Table)
      (r : Result ValueFault (Unit {0}) × (List String × Table))
      → Agree old mid ds
      → lookup d.key r.1.1 ≡ lookup d.key mid
      → is_valid d (lookup d.key mid) ≡ true
      → AreRepaired ds mid r
      → AreRepaired (d ∷ ds) old r
  unfolding overflows
  AreRepaired-cons d ds old mid (ok u, s) same here valid rest =
      (ap (is_valid d) here ∙ valid, rest)
  AreRepaired-cons d ds old mid (err e, s) same here valid rest = (
    rest.0,
    ap (λ b. is_overflow d (lookup d.key old) || b) (sym (overflows-Agree old mid ds same) ∙ rest.1)
        ∙ or-true _,
  )

  repair_rest-AreRepaired :
      (d : SettingDef F) (ds : List (SettingDef F)) (old : Table)
      (r : Result ValueFault (Unit {0}) × (List String × Table))
      → IsApart d.key ds
      → Agree old r.1.1 ds
      → IsRepaired d (lookup d.key old) r
      → ((s : List String × Table)
          → ArePresent s.1 ds
          → AreRepaired ds s.1 (repair_settings py ds s))
      → ArePresent old ds
      → AreRepaired (d ∷ ds) old (and_then r (λ _. repair_settings py ds))
  unfolding overflows
  repair_rest-AreRepaired d ds old (ok u, s) apart same here rest present =
      AreRepaired-cons d ds old s.1 (repair_settings py ds s) same (repair-other d.key ds s apart)
        here (rest s (Agree-ArePresent old s.1 ds same present))
  repair_rest-AreRepaired d ds old (err e, s) apart same here rest present =
      (here.0, ap (λ b. b || overflows ds old) here.1)

  pub repair_settings-AreRepaired :
      (ds : List (SettingDef F)) (s : List String × Table)
      → AreApart ds
      → All DefaultIsValid ds
      → ArePresent s.1 ds
      → AreRepaired ds s.1 (repair_settings py ds s)
  unfolding repair_settings
  repair_settings-AreRepaired [] s apart defaults present = tt
  repair_settings-AreRepaired (d ∷ ds) s apart defaults present =
      repair_rest-AreRepaired d ds s.1 (repair_one py d (lookup d.key s.1) s) apart.0
        (repair_one-Agree d (lookup d.key s.1) s ds apart.0)
        (repair_one-IsRepaired d (lookup d.key s.1) s defaults.0 refl present.0)
        (λ s' h. repair_settings-AreRepaired ds s' apart.1 defaults.1 h) present.1
