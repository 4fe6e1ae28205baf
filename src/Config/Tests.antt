-- ===== src/Config/Tests.antt =====
-- Tests of the settings.
use app_stt_aio.Base.{
  Option, String, [], if◌then◌else◌, ltb, nat_eq, none, refl, some, string_eq, ℕ, ◌*◌, ◌==◌, ◌∷◌,
  ◌≡◌,
}
use app_stt_aio.Base.Dict.{Dict, lookup, insert}
use app_stt_aio.Base.Int.{ℤ, pos, negsuc}
use app_stt_aio.Base.Result.{ok, err}
use app_stt_aio.Base.Text.{strip, lower}
use app_stt_aio.Config.Schema.{
  Numbers, overflow_error, setting_definitions, serialize_value, parse_value, validate_value,
  read_value,
}
use app_stt_aio.Config.Migration.{Table, migrate_settings, repair_settings, repair_invalid_settings}
use app_stt_aio.Config.Repaired.{HasRepaired, repair-HasRepaired}

-- The numbers that the schema has as defaults, by their texts; floats are counted in tenths.
abbrev texts : Dict String ℕ
texts =
    ("250", 250)
    ∷ ("500", 500)
    ∷ ("30000", 30000)
    ∷ ("2048", 2048)
    ∷ ("120", 120)
    ∷ ("7", 7)
    ∷ ("8765", 8765)
    ∷ ("1", 1)
    ∷ ("huge", 1_000_000)
    ∷ []

abbrev tenths : Dict String ℕ
tenths = ("0.0", 0) ∷ ("0.3", 3) ∷ ("0.5", 5) ∷ ("1.0", 10) ∷ ("2.0", 20) ∷ []

abbrev text_for : Dict String ℕ → ℕ → String
text_for [] n = ""
text_for ((s, m) ∷ rest) n = if m == n then s else text_for rest n

abbrev as_pos : Option ℕ → Option ℤ
as_pos none = none
as_pos (some n) = some (pos n)

abbrev or_nothing : Option ℕ → ℕ
or_nothing none = 0
or_nothing (some n) = n

abbrev show : ℤ → String
show (pos n) = text_for texts n
show (negsuc n) = ""

-- Anything from a million on is too large.
abbrev scaled : ℤ → Option ℕ
scaled (pos n) = if ltb n 1_000_000 then some (n * 10) else none
scaled (negsuc n) = some 0

abbrev py : Numbers ℕ
py = record {
  parse_int = λ s. as_pos (lookup s texts);
  show_int = show;
  parse_float = λ s. lookup s tenths;
  show_float = λ n. text_for tenths n;
  is_less = ltb;
  literal = λ s. or_nothing (lookup s tenths);
  of_literal = λ n. n * 10;
  of_int = scaled;
}

-- A table with an unknown mode of the hotkeys and a port that is no number.
abbrev damaged : Table
damaged = ("hotkey.mode", "hold") ∷ ("remote.port", "x") ∷ []

repair-HasRepaired_example :
    HasRepaired py (setting_definitions py) (migrate_settings py (setting_definitions py) damaged) (
      repair_invalid_settings py
        (setting_definitions py)
        (migrate_settings py (setting_definitions py) damaged))
unfolding setting_definitions serialize_value parse_value validate_value read_value lookup strip
    lower
repair-HasRepaired_example = repair-HasRepaired py (setting_definitions py) damaged refl refl

-- A port that is too large for a float stops the repair.
abbrev overflowing : Table
overflowing = ("remote.port", "huge") ∷ ("hotkey.mode", "hold") ∷ []

repair_overflows :
    (repair_invalid_settings py (setting_definitions py) overflowing).0 ≡ err overflow_error
unfolding repair_invalid_settings repair_settings setting_definitions serialize_value parse_value
    validate_value read_value lookup strip lower insert
repair_overflows = refl

-- A mode of the hotkeys that is unknown is repaired.
repair_resets :
    repair_invalid_settings py (setting_definitions py) (("hotkey.mode", "hold") ∷ [])
    ≡ (ok ("hotkey.mode" ∷ []), ("hotkey.mode", "ptt") ∷ [])
unfolding repair_invalid_settings repair_settings setting_definitions serialize_value parse_value
    validate_value read_value lookup strip lower insert
repair_resets = refl
