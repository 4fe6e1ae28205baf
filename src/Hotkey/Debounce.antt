-- ===== src/Hotkey/Debounce.antt =====
-- app/hotkey/debounce.py. The key id "record:<vk>" is the number of the key; times are milliseconds.
use app_stt_aio.Base.{
  Bool, Option, [], false, if◌then◌else◌, ltb, nat_eq, none, not, some, string_eq, true, ℕ, ◌+◌,
}
use app_stt_aio.Base.Dict.{Dict, lookup, insert}

pub record KeyDebouncer : Type 0 where
  pub interval_ms : ℕ
  pub last_accepted : Dict ℕ ℕ

abbrev pub last_or_zero : Option ℕ → ℕ
last_or_zero none = 0
last_or_zero (some t) = t

unfoldable pub accepted_at : ℕ → ℕ → KeyDebouncer → KeyDebouncer
accepted_at now key d = record d { last_accepted = insert key now d.last_accepted }

unfoldable pub accept : ℕ → ℕ → Bool → KeyDebouncer → Bool × KeyDebouncer
accept now key is_repeat d =
    if not is_repeat
    then (true, accepted_at now key d)
    else if ltb now (last_or_zero (lookup key d.last_accepted) + d.interval_ms)
    then (false, d)
    else (true, accepted_at now key d)

-- `reset()`; it is never called with a key.
unfoldable pub reset : KeyDebouncer → KeyDebouncer
reset d = record d { last_accepted = [] }
