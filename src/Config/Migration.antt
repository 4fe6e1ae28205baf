-- ===== src/Config/Migration.antt =====
-- app/config/migration.py. The table of settings is a dictionary of texts; what is written to the backup
-- file is left out.
use app_stt_aio.Base.{
  Bool, List, Option, String, [], false, if◌then◌else◌, ltb, nat_eq, none, some, string_eq, true,
  ◌++◌, ◌||◌, ◌∷◌,
}
use app_stt_aio.Base.Dict.{Dict, lookup, insert}
use app_stt_aio.Base.Int.{ℤ, pos, negsuc}
use app_stt_aio.Base.Result.{Result, Exec, ok, err, and_then}
use app_stt_aio.Config.Schema.{
  Numbers, SettingDef, Value, ValueFault, value_error, overflow_error, serialize_value, read_value,
}

abbrev pub Table : Type 0
Table = Dict String String

module _ {F : Type 0} (py : Numbers F) where
  abbrev pub seed_if : SettingDef F → Option String → Table → Bool × Table
  seed_if d (some raw) repo = (false, repo)
  seed_if d none repo = (true, insert d.key (serialize_value py d d.default) repo)

  -- `_seed_missing_defaults`
  unfoldable pub seed_missing_defaults : List (SettingDef F) → Table → Bool × Table
  seed_missing_defaults [] repo = (false, repo)
  seed_missing_defaults (d ∷ ds) repo =
      let (here, repo') = seed_if d (lookup d.key repo) repo in
      let (later, repo'') = seed_missing_defaults ds repo' in (here || later, repo'')

  abbrev int_or_zero : Option ℤ → ℤ
  int_or_zero none = pos 0
  int_or_zero (some z) = z

  abbrev version_in : Option String → ℤ
  version_in none = pos 0
  version_in (some raw) = int_or_zero (py.parse_int raw)

  -- `_read_schema_version`
  unfoldable pub read_schema_version : Table → ℤ
  read_schema_version repo = version_in (lookup "config.schema_version" repo)

  -- Below `CONFIG_SCHEMA_VERSION`, which is 1.
  abbrev is_old : ℤ → Bool
  is_old (pos n) = ltb n 1
  is_old (negsuc n) = true

  unfoldable pub migrate_settings : List (SettingDef F) → Table → Table
  migrate_settings definitions repo =
      let stored_version = read_schema_version repo in
      let (seeded, repo') = seed_missing_defaults definitions repo in
      if is_old stored_version || seeded
      then insert "config.schema_version" (py.show_int (pos 1)) repo'
      else repo'

  -- `except (ValueError, TypeError)`: an `OverflowError` goes through.
  abbrev pub repair_read :
      SettingDef F → Result ValueFault (Value F) → Exec ValueFault (List String × Table) (Unit {0})
  repair_read d (ok v) s = (ok tt, s)
  repair_read d (err value_error) (repaired, repo) =
      (ok tt, (repaired ++ d.key ∷ [], insert d.key (serialize_value py d d.default) repo))
  repair_read d (err overflow_error) s = (err overflow_error, s)

  abbrev pub repair_one :
      SettingDef F → Option String → Exec ValueFault (List String × Table) (Unit {0})
  repair_one d none s = (ok tt, s)
  repair_one d (some raw) s = repair_read d (read_value py d raw) s

  -- The keys that were repaired, and the table.
  unfoldable pub repair_settings :
      List (SettingDef F) → Exec ValueFault (List String × Table) (Unit {0})
  repair_settings [] s = (ok tt, s)
  repair_settings (d ∷ ds) s =
      and_then (repair_one d (lookup d.key s.1) s) (λ _. repair_settings ds)

  abbrev pub repaired_keys :
      Result ValueFault (Unit {0}) × (List String × Table) → Result ValueFault (List String) × Table
  repaired_keys (ok u, (repaired, repo)) = (ok repaired, repo)
  repaired_keys (err e, (repaired, repo)) = (err e, repo)

  unfoldable pub repair_invalid_settings : List (SettingDef F) → Exec ValueFault Table (List String)
  repair_invalid_settings definitions repo = repaired_keys (repair_settings definitions ([], repo))
