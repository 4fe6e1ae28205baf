-- ===== src/Config/Schema.antt =====
-- app/config/schema.py. `Numbers F` is what Python does with the texts of numbers and with floats: `int`,
-- `float` and `str`, the order of floats, and the float that a literal or an integer is. An integer that
-- a text names can be too large for a float: `float` then raises an `OverflowError`.
use mathlib.Core.Option
use app_stt_aio.Base.{
  Bool, List, Option, String, [], false, if◌then◌else◌, nat_eq, none, not, some, string_eq, true,
  zero, ℕ, ◌==◌, ◌||◌, ◌∷◌,
}
use app_stt_aio.Base.Int.{ℤ, pos}
use app_stt_aio.Base.Text.{strip, lower}
use app_stt_aio.Base.Result.{Result, ok, err}

pub record Numbers (F : Type 0) : Type 0 where
  pub parse_int : String → Option ℤ
  pub show_int : ℤ → String
  pub parse_float : String → Option F
  pub show_float : F → String
  pub is_less : F → F → Bool
  pub literal : String → F
  -- The float of an integer of the source, which is small.
  pub of_literal : ℕ → F
  -- `float` of any integer; `none` is an `OverflowError`.
  pub of_int : ℤ → Option F

pub data Kind : Type 0 where
  bool_kind int_kind float_kind str_kind : Kind

pub data Value (F : Type 0) : Type 0 where
  bool_value : Bool → Value F
  int_value : ℤ → Value F
  float_value : F → Value F
  str_value : String → Value F

pub record SettingDef (F : Type 0) : Type 0 where
  pub key : String
  pub section : String
  pub kind : Kind
  pub default : Value F
  pub min_value : Option F
  pub max_value : Option F
  pub choices : Option (List String)

-- What a text or a value is refused with.
pub data ValueFault : Type 0 where
  value_error overflow_error : ValueFault

abbrev is_one_of : String → List String → Bool
is_one_of s [] = false
is_one_of s (x ∷ xs) = x == s || is_one_of s xs

module _ {F : Type 0} (py : Numbers F) where
  abbrev pub str_of : Value F → String
  str_of (bool_value true) = "True"
  str_of (bool_value false) = "False"
  str_of (int_value z) = py.show_int z
  str_of (float_value x) = py.show_float x
  str_of (str_value s) = s

  abbrev pub is_truthy : Value F → Bool
  is_truthy (bool_value b) = b
  is_truthy (int_value (pos zero)) = false
  is_truthy (int_value z) = true
  is_truthy (float_value x) = py.is_less x (py.of_literal 0) || py.is_less (py.of_literal 0) x
  is_truthy (str_value s) = not (s == "")

  abbrev serialized : Kind → Value F → String
  serialized bool_kind v = if is_truthy v then "true" else "false"
  serialized _ v = str_of v

  unfoldable pub serialize_value : SettingDef F → Value F → String
  serialize_value d v = serialized d.kind v

  abbrev parse_bool : String → Option (Value F)
  parse_bool lowered =
      if is_one_of lowered ("true" ∷ "1" ∷ "yes" ∷ [])
      then some (bool_value true)
      else if is_one_of lowered ("false" ∷ "0" ∷ "no" ∷ [])
      then some (bool_value false)
      else none

  abbrev parsed : Kind → String → Option (Value F)
  parsed bool_kind raw = parse_bool (lower (strip raw))
  parsed int_kind raw = Option.map int_value (py.parse_int raw)
  parsed float_kind raw = Option.map float_value (py.parse_float raw)
  parsed str_kind raw = some (str_value raw)

  -- `none` is a `ValueError`.
  unfoldable pub parse_value : SettingDef F → String → Option (Value F)
  parse_value d raw = parsed d.kind raw

  -- `isinstance(value, bool)`, `int(value)`, `float(value)` and `str(value)`, for a value of the kind that
  -- is wanted. The code converts the others, and no caller here gives one.
  abbrev converted : Kind → Value F → Option (Value F)
  converted bool_kind (bool_value b) = some (bool_value b)
  converted int_kind (int_value z) = some (int_value z)
  converted float_kind (float_value x) = some (float_value x)
  converted str_kind v = some (str_value (str_of v))
  converted _ _ = none

  abbrev or_fault {ℓ} : {A : Type ℓ} → ValueFault → Option A → Result ValueFault A
  or_fault e none = err e
  or_fault e (some x) = ok x

  -- `float(parsed)`
  abbrev float_of : Value F → Result ValueFault F
  float_of (int_value z) = or_fault overflow_error (py.of_int z)
  float_of (float_value x) = ok x
  float_of (bool_value b) = ok (py.of_literal (if b then 1 else 0))
  float_of (str_value s) = or_fault value_error (py.parse_float s)

  abbrev among : Option (List String) → String → Bool
  among none s = true
  among (some choices) s = is_one_of s choices

  -- A bound is only looked at if there is one, and `fails` is its test.
  abbrev bounded : (F → F → Bool) → Option F → Result ValueFault F → Result ValueFault (Unit {0})
  bounded fails none x = ok tt
  bounded fails (some bound) (err e) = err e
  bounded fails (some bound) (ok x) = if fails x bound then err value_error else ok tt

  abbrev after_check :
      {A : Type 0} → Result ValueFault (Unit {0}) → Result ValueFault A → Result ValueFault A
  after_check (err e) r = err e
  after_check (ok u) r = r

  abbrev checked : SettingDef F → Option (Value F) → Result ValueFault (Value F)
  checked d none = err value_error
  checked d (some v) =
      if among d.choices (str_of v)
      then after_check (bounded py.is_less d.min_value (float_of v))
          (after_check (bounded (λ x bound. py.is_less bound x) d.max_value (float_of v)) (ok v))
      else err value_error

  unfoldable pub validate_value : SettingDef F → Value F → Result ValueFault (Value F)
  validate_value d v = checked d (converted d.kind v)

  -- What `repair_invalid_settings` and the cache ask of a stored text: the value, if it is valid.
  abbrev validated : SettingDef F → Option (Value F) → Result ValueFault (Value F)
  validated d none = err value_error
  validated d (some v) = elim (validate_value d v) [ err e ↦ err e | ok _ ↦ ok v ]

  unfoldable pub read_value : SettingDef F → String → Result ValueFault (Value F)
  read_value d raw = validated d (parse_value d raw)

  -- `SETTING_DEFINITIONS`
  abbrev text : String → String → String → SettingDef F
  text section key default = record {
    key = key;
    section = section;
    kind = str_kind;
    default = str_value default;
    min_value = none;
    max_value = none;
    choices = none;
  }

  abbrev choice : String → String → String → List String → SettingDef F
  choice section key default choices = record (text section key default) { choices = some choices }

  abbrev flag : String → String → Bool → SettingDef F
  flag section key default = record (text section key "") {
    kind = bool_kind;
    default = bool_value default;
  }

  abbrev number : String → String → ℕ → ℕ → ℕ → SettingDef F
  number section key default low high = record (text section key "") {
    kind = int_kind;
    default = int_value (pos default);
    min_value = some (py.of_literal low);
    max_value = some (py.of_literal high);
  }

  abbrev decimal : String → String → String → String → String → SettingDef F
  decimal section key default low high = record (text section key "") {
    kind = float_kind;
    default = float_value (py.literal default);
    min_value = some (py.literal low);
    max_value = some (py.literal high);
  }

  unfoldable pub setting_definitions : List (SettingDef F)
  setting_definitions =
      text "audio" "audio.device_id" ""
      ∷ choice "audio" "audio.vad_engine" "energy" ("energy" ∷ "silero" ∷ [])
      ∷ decimal "audio" "audio.vad_threshold" "0.5" "0.0" "1.0"
      ∷ number "audio" "audio.min_speech_ms" 250 50 5000
      ∷ number "audio" "audio.hangover_ms" 500 100 3000
      ∷ number "audio" "audio.max_segment_ms" 30000 1000 300000
      ∷ choice "stt" "stt.provider" "faster_whisper_local" (
          "faster_whisper_local" ∷ "openai_transcribe" ∷ "groq_transcribe" ∷ "deepgram_transcribe"
          ∷ [])
      ∷ text "stt" "stt.model" "base"
      ∷ text "stt" "stt.language" "ko"
      ∷ flag "stt" "stt.fallback_to_local" true
      ∷ text "stt" "stt.cloud_base_url" ""
      ∷ text "stt" "stt.cloud_model" "whisper-1"
      ∷ choice "llm" "llm.provider" "ollama" ("ollama" ∷ "openai_compat" ∷ [])
      ∷ text "llm" "llm.model" ""
      ∷ text "llm" "llm.base_url" "http://localhost:11434"
      ∷ decimal "llm" "llm.temperature" "0.3" "0.0" "2.0"
      ∷ number "llm" "llm.max_output" 2048 64 32768
      ∷ number "llm" "llm.timeout_sec" 120 5 600
      ∷ choice "hotkey" "hotkey.mode" "ptt" ("ptt" ∷ "toggle" ∷ [])
      ∷ text "hotkey" "hotkey.record_binding" "ctrl+shift+space"
      ∷ text "hotkey" "hotkey.cancel_binding" "escape"
      ∷ flag "hotkey" "hotkey.auto_send" false
      ∷ flag "privacy" "privacy.keep_audio" false
      ∷ number "privacy" "privacy.audio_retention_days" 7 0 365
      ∷ flag "privacy" "privacy.telemetry" false
      ∷ choice "logging" "logging.level" "info" ("debug" ∷ "info" ∷ "warning" ∷ "error" ∷ [])
      ∷ choice "inject" "inject.default_method" "auto" ("auto" ∷ "unicode" ∷ "clipboard" ∷ [])
      ∷ number "inject" "inject.length_threshold" 500 50 10000
      ∷ flag "inject" "inject.press_enter" false
      ∷ choice "session" "session.queue_policy" "queue" ("queue" ∷ "cancel" ∷ "ignore" ∷ [])
      ∷ text "mode" "mode.active_id" ""
      ∷ flag "textproc" "textproc.normalize" true
      ∷ flag "textproc" "textproc.dictionary" true
      ∷ flag "textproc" "textproc.snippets" true
      ∷ flag "textproc" "textproc.punctuation_spacing" false
      ∷ flag "textproc" "textproc.number_spacing" false
      ∷ text "models" "models.custom_path" ""
      ∷ text "update" "update.manifest_url" ""
      ∷ flag "update" "update.auto_check" false
      ∷ number "remote" "remote.port" 8765 1024 65535
      ∷ flag "remote" "remote.use_tunnel" false
      ∷ flag "remote" "remote.lan_fallback" true
      ∷ flag "onboarding" "onboarding.completed" false
      ∷ text "export" "export.default_dir" ""
      ∷ text "export" "export.filename_pattern" "{date}-{time}_{mode}_{stage}"
      ∷ choice "export" "export.default_docx_template" "basic" ("basic" ∷ "meeting" ∷ "report" ∷ [])
      ∷ []
