-- ===== src/Config/Present.antt =====
-- Migration leaves no setting without a text.
use app_stt_aio.Base.{
  All, Bool, List, Option, String, [], false, if◌then◌else◌, nat_eq, none, refl, some, string_eq,
  true, ◌==◌, ◌∷◌, ◌≡◌, Bool-cases, inl, inr,
}
use app_stt_aio.Base.Dict.{lookup, insert, is_some, lookup-insert, lookup-insert_self}
use app_stt_aio.Config.Schema.{Numbers, SettingDef}
use app_stt_aio.Config.Migration.{Table, seed_if, seed_missing_defaults, migrate_settings}

abbrev IsPresent : Table → String → Type 0
IsPresent repo k = is_some (lookup k repo) ≡ true

abbrev pub ArePresent : {F : Type 0} → Table → List (SettingDef F) → Type 0
ArePresent repo = All (λ d. IsPresent repo d.key)

module _ {F : Type 0} (py : Numbers F) where
  insert-IsPresent :
      (k j raw : String) (repo : Table) → IsPresent repo j → IsPresent (insert k raw repo) j
  insert-IsPresent k j raw repo h =
      rw lookup-insert
        (elim (Bool-cases (k == j)) [ inl same ↦ rw same refl | inr other ↦ rw other h ])

  kept :
      (old new : Table) (ds : List (SettingDef F))
      → ((k : String) → IsPresent old k → IsPresent new k)
      → ArePresent old ds
      → ArePresent new ds
  kept old new [] f h = tt
  kept old new (d ∷ ds) f h = (f d.key h.0, kept old new ds f h.1)

  seed_if-IsPresent :
      (k : String) (d : SettingDef F) (o : Option String) (repo : Table)
      → IsPresent repo k
      → IsPresent (seed_if py d o repo).1 k
  seed_if-IsPresent k d (some raw) repo h = h
  seed_if-IsPresent k d none repo h = insert-IsPresent d.key k _ repo h

  seed_if_self :
      (d : SettingDef F) (o : Option String) (repo : Table)
      → lookup d.key repo ≡ o
      → IsPresent (seed_if py d o repo).1 d.key
  seed_if_self d (some raw) repo h = rw h refl
  seed_if_self d none repo h = rw lookup-insert_self refl

  seed-IsPresent :
      (k : String) (ds : List (SettingDef F)) (repo : Table)
      → IsPresent repo k
      → IsPresent (seed_missing_defaults py ds repo).1 k
  unfolding seed_missing_defaults
  seed-IsPresent k [] repo h = h
  seed-IsPresent k (d ∷ ds) repo h =
      seed-IsPresent k ds _ (seed_if-IsPresent k d (lookup d.key repo) repo h)

  seed-ArePresent :
      (ds : List (SettingDef F)) (repo : Table) → ArePresent (seed_missing_defaults py ds repo).1 ds
  unfolding seed_missing_defaults
  seed-ArePresent [] repo = tt
  seed-ArePresent (d ∷ ds) repo = (
    seed-IsPresent d.key ds _ (seed_if_self d (lookup d.key repo) repo refl),
    seed-ArePresent ds _,
  )

  choose-ArePresent :
      (b : Bool) (ds : List (SettingDef F)) (k raw : String) (repo : Table)
      → ArePresent repo ds
      → ArePresent (if b then insert k raw repo else repo) ds
  choose-ArePresent false ds k raw repo h = h
  choose-ArePresent true ds k raw repo h = kept repo _ ds (λ j p. insert-IsPresent k j raw repo p) h

  pub migrate_settings-ArePresent :
      (ds : List (SettingDef F)) (repo : Table) → ArePresent (migrate_settings py ds repo) ds
  unfolding migrate_settings
  migrate_settings-ArePresent ds repo = choose-ArePresent _ ds _ _ _ (seed-ArePresent ds repo)
