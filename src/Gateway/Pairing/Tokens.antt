-- ===== src/Gateway/Pairing/Tokens.antt =====
-- What opens the gateway: a PIN works once, a token for its time, and nothing after a revocation.
use app_stt_aio.Base.{
  List, ℕ, String, ◌≡◌, ◌∷◌, none, true, false, some, ◌<◌, [], arith, ◌≤◌, refl, Option-cases, ◌==◌,
  ltb, inl, inr, ◌+◌, string_eq,
}
use app_stt_aio.Base.Dict.{lookup, lookup-insert_self, is_some}
use app_stt_aio.Base.Text.{strip}
use app_stt_aio.Gateway.Pairing.{
  PairingManager, clear_lockout, register_failed_attempt, accept_pin, check_pin, pair,
  is_locked_out, verify_token, check_expiry, revoke_all,
}

-- The methods that clients reach: attempts to pair, token checks, and a look at the lockout.
pub data Call : Type 0 where
  attempt : ℕ → ℕ → String → String → Call
  verify : ℕ → String → Call
  look : ℕ → Call

pub perform : Call → PairingManager → PairingManager
perform (attempt now later token pin) m = (pair now later token pin m).1
perform (verify now token) m = (verify_token now token m).1
perform (look now) m = (is_locked_out now m).1

pub perform_all : List Call → PairingManager → PairingManager
perform_all [] m = m
perform_all (c ∷ cs) m = perform_all cs (perform c m)

perform-no_pin : (c : Call) (m : PairingManager) → m.pin ≡ none → (perform c m).pin ≡ none
unfolding perform pair clear_lockout check_pin accept_pin register_failed_attempt verify_token
    check_expiry is_locked_out
perform-no_pin (attempt now later token pin) m h = ground arith
perform-no_pin (verify now token) m h = ground arith
perform-no_pin (look now) m h = ground arith

no_pin_no_token :
    (now later : ℕ) (token pin : String) (m : PairingManager)
    → m.pin ≡ none
    → (pair now later token pin m).0 ≡ none
unfolding pair clear_lockout check_pin accept_pin register_failed_attempt
no_pin_no_token now later token pin m h = ground arith

calls-no_pin : (cs : List Call) (m : PairingManager) → m.pin ≡ none → (perform_all cs m).pin ≡ none
unfolding perform_all
calls-no_pin [] m h = h
calls-no_pin (c ∷ cs) m h = calls-no_pin cs (perform c m) (perform-no_pin c m h)

pin_is_used :
    (now later : ℕ) (token typed : String) (m : PairingManager)
    → is_some (pair now later token typed m).0 ≡ true
    → (pair now later token typed m).1.pin ≡ none
unfolding pair clear_lockout check_pin accept_pin register_failed_attempt
pin_is_used now later token typed m h = ground arith

-- A PIN works once: after an attempt that got a token, whatever clients call, no attempt gets
-- another token until a new PIN is issued.
pub pin_works_once :
    (now later : ℕ) (token typed : String) (m : PairingManager) (calls : List Call)
    (now' later' : ℕ) (token' typed' : String)
    → is_some (pair now later token typed m).0 ≡ true
    → (pair now' later' token' typed' (perform_all calls (pair now later token typed m).1)).0 ≡ none
pin_works_once now later token typed m calls now' later' token' typed' h =
    no_pin_no_token now' later' token' typed' _
      (calls-no_pin calls _ (pin_is_used now later token typed m h))

-- A token that an attempt got is accepted from then on exactly before its expiry.
token_lifetime :
    (now later : ℕ) (token typed : String) (m : PairingManager) (at : ℕ)
    → (token == "") ≡ false
    → (pair now later token typed m).0 ≡ some token
    → (verify_token at token (pair now later token typed m).1).0 ≡ ltb at (now + m.token_ttl_sec)
unfolding pair clear_lockout check_pin accept_pin register_failed_attempt verify_token check_expiry
token_lifetime now later token typed m at named h =
    ground (arith, lookup-insert_self token (now + m.token_ttl_sec) m.tokens)

-- A token is given only for the PIN that is open at that time, typed up to surrounding spaces, and
-- outside any lockout.
pub pair_needs_pin :
    (now later : ℕ) (token typed got : String) (m : PairingManager)
    → (pair now later token typed m).0 ≡ some got
    → (got ≡ token)
      × (m.pin ≡ some (strip typed))
      × (now < m.pin_expires_at)
      × (m.lockout_until ≤ now)
unfolding pair clear_lockout check_pin accept_pin register_failed_attempt
pair_needs_pin now later token typed got m h = elim (Option-cases m.pin) [
  | inl absent ↦ absurd (ground (arith, absent))
  | inr (pin, set) ↦ ground (arith, set, string_eq.beq_iff (strip typed) pin)
]

-- A dictionary of tokens gains nothing but through an attempt that succeeds.
revoked_calls :
    (c : Call) (m : PairingManager) → m.pin ≡ none → m.tokens ≡ [] → (perform c m).tokens ≡ []
unfolding perform pair clear_lockout check_pin accept_pin register_failed_attempt verify_token
    check_expiry is_locked_out lookup
revoked_calls (attempt now later token pin) m h e = ground arith
revoked_calls (verify now token) m h e = ground arith
revoked_calls (look now) m h e = ground arith

revoked_all_calls :
    (cs : List Call) (m : PairingManager)
    → m.pin ≡ none
    → m.tokens ≡ []
    → (perform_all cs m).tokens ≡ []
unfolding perform_all
revoked_all_calls [] m h e = e
revoked_all_calls (c ∷ cs) m h e =
    revoked_all_calls cs (perform c m) (perform-no_pin c m h) (revoked_calls c m h e)

-- After `revoke_all`, whatever clients call, no token at all is accepted until a new PIN is issued.
pub revoke_all-final :
    (calls : List Call) (m : PairingManager) (at : ℕ) (token : String)
    → (verify_token at token (perform_all calls (revoke_all m))).0 ≡ false
unfolding verify_token check_expiry lookup revoke_all
revoke_all-final calls m at token = ground (arith, revoked_all_calls calls (revoke_all m) refl refl)
