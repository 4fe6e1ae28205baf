-- ===== src/Config/Repaired.antt =====
-- What migration and repair make of a table of settings.
use app_stt_aio.Base.{
  All, Bool, List, String, [], false, nat_eq, refl, some, string_eq, true, ◌==◌, ◌∷◌, ◌≡◌, not,
  ◌&&◌,
}
use app_stt_aio.Base.Result.{Result, ok, err}
use app_stt_aio.Config.Schema.{Numbers, SettingDef, ValueFault, overflow_error, serialize_value}
use app_stt_aio.Config.Migration.{
  Table, migrate_settings, repair_settings, repair_invalid_settings, repaired_keys,
}
use app_stt_aio.Config.Present.{migrate_settings-ArePresent}
use app_stt_aio.Config.RepairSteps.{
  IsApart, AreApart, is_valid, overflows, DefaultIsValid, AreValid, AreRepaired,
  repair_settings-AreRepaired,
}

module _ {F : Type 0} (py : Numbers F) where
  -- The same of a schema, by computation: its keys are apart, and its defaults are valid.
  abbrev is_apart : String → List (SettingDef F) → Bool
  is_apart k [] = true
  is_apart k (d ∷ ds) = not (d.key == k) && is_apart k ds

  abbrev pub are_apart : List (SettingDef F) → Bool
  are_apart [] = true
  are_apart (d ∷ ds) = is_apart d.key ds && are_apart ds

  abbrev pub defaults_valid : List (SettingDef F) → Bool
  defaults_valid [] = true
  defaults_valid (d ∷ ds) =
      is_valid py d (some (serialize_value py d d.default)) && defaults_valid ds

  both : (a b : Bool) → (a && b) ≡ true → (a ≡ true) × (b ≡ true)
  both true b h = (refl, h)
  both false b h = absurd (cc)

  not-same : (b : Bool) → not b ≡ true → b ≡ false
  not-same false h = refl
  not-same true h = absurd (cc)

  is_apart-IsApart : (k : String) (ds : List (SettingDef F)) → is_apart k ds ≡ true → IsApart k ds
  is_apart-IsApart k [] h = tt
  is_apart-IsApart k (d ∷ ds) h =
      let (here, rest) = both _ _ h in (not-same _ here, is_apart-IsApart k ds rest)

  are_apart-AreApart : (ds : List (SettingDef F)) → are_apart ds ≡ true → AreApart py ds
  are_apart-AreApart [] h = tt
  are_apart-AreApart (d ∷ ds) h =
      let (here, rest) = both _ _ h in (is_apart-IsApart d.key ds here, are_apart-AreApart ds rest)

  defaults_valid-All :
      (ds : List (SettingDef F)) → defaults_valid ds ≡ true → All (DefaultIsValid py) ds
  defaults_valid-All [] h = tt
  defaults_valid-All (d ∷ ds) h =
      let (here, rest) = both _ _ h in (here, defaults_valid-All ds rest)

  -- How the repair of a table of settings ends: every setting has a valid text, or an `OverflowError`
  -- and some text of the table that was too large for a float.
  abbrev pub HasRepaired :
      List (SettingDef F) → Table → Result ValueFault (List String) × Table → Type 0
  HasRepaired ds before (ok repaired, repo) = AreValid py repo ds
  HasRepaired ds before (err e, repo) = (e ≡ overflow_error) × (overflows py ds before ≡ true)

  repaired_keys-HasRepaired :
      (ds : List (SettingDef F)) (before : Table)
      (r : Result ValueFault (Unit {0}) × (List String × Table))
      → AreRepaired py ds before r
      → HasRepaired ds before (repaired_keys py r)
  repaired_keys-HasRepaired ds before (ok u, s) h = h
  repaired_keys-HasRepaired ds before (err e, s) h = h

  -- If the keys of the schema are apart and its defaults are valid, the repair of a table that was
  -- migrated returns, with a valid text for every setting, or it raises an `OverflowError`, and then
  -- the migrated table holds a text for a setting whose number is too large for a float.
  pub repair-HasRepaired :
      (ds : List (SettingDef F)) (repo : Table)
      → are_apart ds ≡ true
      → defaults_valid ds ≡ true
      → HasRepaired ds
          (migrate_settings py ds repo)
          (repair_invalid_settings py ds (migrate_settings py ds repo))
  unfolding repair_invalid_settings
  repair-HasRepaired ds repo apart defaults =
      let before = migrate_settings py ds repo in
      repaired_keys-HasRepaired ds before (repair_settings py ds ([], before)) (
        repair_settings-AreRepaired py ds ([], before) (are_apart-AreApart ds apart)
          (defaults_valid-All ds defaults) (migrate_settings-ArePresent py ds repo))
