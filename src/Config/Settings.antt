-- ===== src/Config/Settings.antt =====
-- The cache of `Config` in app/config/config.py.
use app_stt_aio.Base.{List, Option, String, [], nat_eq, none, some, string_eq, ◌∷◌}
use app_stt_aio.Base.Dict.{Dict, lookup, insert}
use app_stt_aio.Base.Result.{Result, Exec, ok, err, and_then}
use app_stt_aio.Config.Schema.{
  Numbers, SettingDef, Value, ValueFault, value_error, overflow_error, serialize_value, read_value,
}
use app_stt_aio.Config.Migration.{Table, migrate_settings, repair_invalid_settings}

pub record Config (F : Type 0) : Type 0 where
  pub cache : Dict String (Value F)
  pub settings : Table

module _ {F : Type 0} (py : Numbers F) where
  -- `except (ValueError, TypeError)`: an `OverflowError` goes through.
  abbrev cache_value :
      SettingDef F → Result ValueFault (Value F) → Exec ValueFault (Config F) (Unit {0})
  cache_value d (ok v) c = (ok tt, record c { cache = insert d.key v c.cache })
  cache_value d (err value_error) c = (
    ok tt,
    record c {
      cache = insert d.key d.default c.cache;
      settings = insert d.key (serialize_value py d d.default) c.settings;
    },
  )
  cache_value d (err overflow_error) c = (err overflow_error, c)

  abbrev pub cache_one : SettingDef F → Option String → Exec ValueFault (Config F) (Unit {0})
  cache_one d none c = (ok tt, record c { cache = insert d.key d.default c.cache })
  cache_one d (some raw) c = cache_value d (read_value py d raw) c

  unfoldable pub fill_cache : List (SettingDef F) → Exec ValueFault (Config F) (Unit {0})
  fill_cache [] c = (ok tt, c)
  fill_cache (d ∷ ds) c = and_then (cache_one d (lookup d.key c.settings) c) (λ _. fill_cache ds)

  -- `_reload_cache`, on a table that can be written.
  unfoldable pub reload_cache : List (SettingDef F) → Exec ValueFault (Config F) (Unit {0})
  reload_cache definitions c = fill_cache definitions (record c { cache = [] })

  abbrev after_repair :
      List (SettingDef F)
      → Result ValueFault (List String) × Table
      → Result ValueFault (Unit {0}) × Config F
  after_repair definitions (ok repaired, repo) =
      reload_cache definitions (record { cache = []; settings = repo })
  after_repair definitions (err e, repo) = (err e, record { cache = []; settings = repo })

  -- The settings in `_initialize`, unless the store is read-only.
  unfoldable pub initialize : List (SettingDef F) → Table → Result ValueFault (Unit {0}) × Config F
  initialize definitions repo =
      after_repair definitions
        (repair_invalid_settings py definitions (migrate_settings py definitions repo))
