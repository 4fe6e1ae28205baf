-- ===== src/Inject.antt =====
-- core/inject: text into the window that has the focus, by key events or by the clipboard, on Windows.
-- `Windows W` holds the calls of win32_api.py to the operating system, whose state is W.
pub mod Encoding
pub mod Keyboard
pub mod Clipboard
pub mod Injector
pub mod Realtime
pub mod Chunks
pub mod Typed
pub mod Locking
pub mod Partial
pub mod Outcomes
mod Tests
use app_stt_aio.Base.{Bool, List, Option, ap, length, suc, ℕ, ◌-◌, ◌/◌}
use app_stt_aio.Base.Result.{Exec}

-- A text is its code points.
abbrev pub Text : Type 0
Text = List ℕ

pub data InjectMethod : Type 0 where
  auto unicode clipboard : InjectMethod

-- errors.py, without `PlatformNotSupportedError`, and the two exceptions that are no `InjectError`.
pub data Fault : Type 0 where
  no_foreground_window clipboard_busy injection_failed : Fault
  unicode_encode_error type_error : Fault

pub record InjectOptions : Type 0 where
  pub press_enter : Bool
  pub per_char_delay_ms : ℕ
  pub length_threshold : ℕ
  pub unicode_fallback_to_clipboard : Bool
  pub target_check : Bool
  pub allow_replacement : Bool

-- Why an injection failed: a fault, or the option against replacements.
pub data Failure : Type 0 where
  fault : Fault → Failure
  replacement_disabled : Failure

pub record InjectResult : Type 0 where
  pub success : Bool
  pub method_used : InjectMethod
  pub chars_injected : ℕ
  pub error : Option Failure

-- A keyboard event of `SendInput`.
pub record Input : Type 0 where
  pub vk_code : ℕ
  pub scan_code : ℕ
  pub is_unicode : Bool
  pub key_up : Bool

pub record Windows (W : Type 0) : Type 0 where
  pub send_input : List Input → W → ℕ × W
  pub open_clipboard : W → Bool × W
  pub close_clipboard : W → W
  pub empty_clipboard : W → Bool × W
  pub get_clipboard_text : W → Option Text × W
  pub set_clipboard_units : List ℕ → W → Bool × W
  pub get_foreground_window : W → ℕ × W
  pub sleep : ℕ → W → W

abbrev pub Inject : Type 0 → Type 0 → Type 0
Inject W A = Exec Fault W A
