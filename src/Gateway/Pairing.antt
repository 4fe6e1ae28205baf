-- ===== src/Gateway/Pairing.antt =====
-- remote/gateway/pairing.py: the PIN, the bearer tokens and the lockout. The lock makes each method
-- atomic. Readings of the clock (whole seconds) and random draws are arguments: `now` is the first
-- reading of a method and `later` its second.
pub mod Lockout
pub mod Tokens
mod Tests
use Prim.Native.Char.{Char}
use app_stt_aio.Base.{
  ℕ, zero, suc, ◌+◌, ◌/◌, ◌%◌, String, Bool, true, false, ◌&&◌, Option, none, some, [], ltb, leb,
  ◌==◌, nat_eq, string_eq, if◌then◌else◌,
}
use app_stt_aio.Base.Dict.{Dict, lookup, insert, remove}
use app_stt_aio.Base.Text.{strip}

abbrev pub default_max_failed_attempts : ℕ
default_max_failed_attempts = 5

abbrev pub default_lockout_sec : ℕ
default_lockout_sec = 60

pub record PairingManager : Type 0 where
  pub pin_ttl_sec : ℕ
  pub token_ttl_sec : ℕ
  pub max_failed_attempts : ℕ
  pub lockout_sec : ℕ
  pub pin : Option String
  pub pin_expires_at : ℕ
  pub tokens : Dict String ℕ
  pub failed_attempts : ℕ
  pub lockout_until : ℕ

abbrev at_least_one : ℕ → ℕ
at_least_one n = if leb 1 n then n else 1

pub new_manager : ℕ → ℕ → ℕ → ℕ → PairingManager
new_manager pin_ttl token_ttl max_failed lockout = record {
  pin_ttl_sec = pin_ttl;
  token_ttl_sec = token_ttl;
  max_failed_attempts = at_least_one max_failed;
  lockout_sec = at_least_one lockout;
  pin = none;
  pin_expires_at = 0;
  tokens = [];
  failed_attempts = 0;
  lockout_until = 0;
}

-- A lockout that is over is forgotten.
pub clear_lockout : ℕ → PairingManager → PairingManager
clear_lockout now m =
    if ltb 0 m.lockout_until && leb m.lockout_until now
    then record m { failed_attempts = 0; lockout_until = 0 }
    else m

pub is_locked_out : ℕ → PairingManager → Bool × PairingManager
is_locked_out now m = if ltb now m.lockout_until then (true, m) else (false, clear_lockout now m)

digit : ℕ → Char
digit zero = "0"
digit (suc zero) = "1"
digit (suc (suc zero)) = "2"
digit (suc (suc (suc zero))) = "3"
digit (suc (suc (suc (suc zero)))) = "4"
digit (suc (suc (suc (suc (suc zero))))) = "5"
digit (suc (suc (suc (suc (suc (suc zero)))))) = "6"
digit (suc (suc (suc (suc (suc (suc (suc zero))))))) = "7"
digit (suc (suc (suc (suc (suc (suc (suc (suc zero)))))))) = "8"
digit _ = "9"

-- `f"{n:04d}"` for a draw below 10000.
pub format_pin : ℕ → String
format_pin n = String.◌∷◌ (digit (n / 1000 % 10)) (
    String.◌∷◌ (digit (n / 100 % 10))
      (String.◌∷◌ (digit (n / 10 % 10)) (String.◌∷◌ (digit (n % 10)) "")))

-- `draw` is `secrets.randbelow(10_000)`.
pub issue_pin : ℕ → ℕ → PairingManager → String × PairingManager
issue_pin now draw m =
    let pin = format_pin draw in
    (pin, record m { pin = some pin; pin_expires_at = now + m.pin_ttl_sec })

-- `self._pin`, where the empty text counts as no PIN.
abbrev set_pin : Option String → Option String
set_pin none = none
set_pin (some pin) = if pin == "" then none else some pin

-- `self._pin and now < self._pin_expires_at`
abbrev pub open_pin : ℕ → PairingManager → Option String
open_pin now m = if ltb now m.pin_expires_at then set_pin m.pin else none

pub current_pin : ℕ → PairingManager → Option String
current_pin now m = open_pin now m

pub register_failed_attempt : ℕ → PairingManager → PairingManager
register_failed_attempt now m =
    let failed = m.failed_attempts + 1 in
    if leb m.max_failed_attempts failed
    then record m { lockout_until = now + m.lockout_sec; failed_attempts = 0 }
    else record m { failed_attempts = failed }

accept_pin : ℕ → String → PairingManager → Option String × PairingManager
accept_pin now token m = (
  some token,
  record m {
    tokens = insert token (now + m.token_ttl_sec) m.tokens;
    pin = none;
    pin_expires_at = 0;
    failed_attempts = 0;
    lockout_until = 0;
  },
)

-- The PIN that was typed against the open one, when no lockout holds.
check_pin :
    ℕ → ℕ → String → String → Option String → PairingManager → Option String × PairingManager
check_pin now later token normalized none m = (none, register_failed_attempt later m)
check_pin now later token normalized (some pin) m =
    if normalized == pin then accept_pin now token m else (none, register_failed_attempt later m)

-- `token` is `secrets.token_urlsafe(32)`.
pub pair : ℕ → ℕ → String → String → PairingManager → Option String × PairingManager
pair now later token pin m =
    if ltb now m.lockout_until
    then (none, m)
    else let m' = clear_lockout now m in check_pin now later token (strip pin) (open_pin now m') m'

check_expiry : ℕ → String → Option ℕ → PairingManager → Bool × PairingManager
check_expiry now token none m = (false, m)
check_expiry now token (some expires) m =
    if leb expires now then (false, record m { tokens = remove token m.tokens }) else (true, m)

pub verify_token : ℕ → String → PairingManager → Bool × PairingManager
verify_token now token m =
    if token == "" then (false, m) else check_expiry now token (lookup token m.tokens) m

pub revoke_all : PairingManager → PairingManager
revoke_all m = record m {
  pin = none;
  pin_expires_at = 0;
  tokens = [];
  failed_attempts = 0;
  lockout_until = 0;
}
