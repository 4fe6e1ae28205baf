-- ===== src/Gateway/Pairing/Tests.antt =====
-- A gateway with the PIN 0042.
use app_stt_aio.Base.{
  List, String, [], arith, false, nat_eq, none, refl, some, string_eq, true, ℕ, ◌<◌, ◌∷◌, ◌≡◌, ◌≤◌,
}
use app_stt_aio.Base.Text.{strip}
use app_stt_aio.Gateway.Pairing.{
  PairingManager, pair, check_pin, accept_pin, register_failed_attempt, clear_lockout, verify_token,
  revoke_all, is_locked_out,
}
use app_stt_aio.Gateway.Pairing.Lockout.{
  Attempt, IsSane, judged, all_refused, try_all, guesses_bounded, failures_lock,
}
use app_stt_aio.Gateway.Pairing.Tokens.{
  attempt, verify, perform_all, pin_works_once, pair_needs_pin, revoke_all-final,
}

abbrev waiting : PairingManager
waiting = record {
  pin_ttl_sec = 120;
  token_ttl_sec = 3600;
  max_failed_attempts = 2;
  lockout_sec = 60;
  pin = some "0042";
  pin_expires_at = 1120;
  tokens = [];
  failed_attempts = 0;
  lockout_until = 0;
}

abbrev a_token : String
a_token = "t"

abbrev guess : ℕ → String → Attempt
guess now typed = record { now = now; later = now; token = "t"; typed = typed }

abbrev three_guesses : List Attempt
three_guesses = guess 1001 "0000" ∷ guess 1002 "1111" ∷ guess 1003 "2222" ∷ []

waiting-IsSane : IsSane waiting
waiting-IsSane = record {
  limit = omega arith;
  pause = omega arith;
  below = omega arith;
  reset = λ e. refl;
}

guesses_bounded_example : judged three_guesses waiting ≤ 2
unfolding all_refused pair check_pin accept_pin register_failed_attempt clear_lockout strip
guesses_bounded_example =
    guesses_bounded 1060 three_guesses waiting waiting-IsSane
      ((omega arith, omega arith), ((omega arith, omega arith), ((omega arith, omega arith), tt)))
      refl

failures_lock_example :
    (is_locked_out 1030 (try_all (guess 1001 "0000" ∷ guess 1002 "1111" ∷ []) waiting)).0 ≡ true
unfolding all_refused pair check_pin accept_pin register_failed_attempt clear_lockout strip
failures_lock_example =
    failures_lock (guess 1001 "0000" ∷ []) (guess 1002 "1111") waiting refl refl refl 1030

pin_works_once_example :
    (pair 1005 1005 "v" "0042" (
      perform_all
        (verify 1002 "t" ∷ attempt 1003 1003 "u" "0000" ∷ [])
        (pair 1001 1001 "t" " 0042 " waiting).1)).0
    ≡ none
unfolding pair check_pin accept_pin clear_lockout strip
pin_works_once_example =
    pin_works_once 1001 1001 "t" " 0042 " waiting
      (verify 1002 "t" ∷ attempt 1003 1003 "u" "0000" ∷ []) 1005 1005 "v" "0042" refl

pair_needs_pin_example :
    (a_token ≡ a_token) × (some "0042" ≡ some (strip " 0042 ")) × (1001 < 1120) × (0 ≤ 1001)
unfolding pair check_pin accept_pin clear_lockout strip
pair_needs_pin_example = pair_needs_pin 1001 1001 a_token " 0042 " a_token waiting refl

revoke_all-final_example :
    (verify_token 1010 "t" (perform_all (attempt 1003 1003 "u" "0042" ∷ []) (revoke_all waiting))).0
    ≡ false
revoke_all-final_example = revoke_all-final (attempt 1003 1003 "u" "0042" ∷ []) waiting 1010 "t"
