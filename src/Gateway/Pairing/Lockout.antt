-- ===== src/Gateway/Pairing/Lockout.antt =====
-- How many wrong PINs can be tried: the counter and the lockout of `pair`.
use app_stt_aio.Base.{
  ℕ, suc, ◌+◌, ◌≤◌, ◌<◌, String, ◌≡◌, Bool, true, false, Option, none, some, List, [], ◌∷◌, arith,
  ltb, leb, if◌then◌else◌, inl, inr, Bool-cases, All, ◌==◌, string_eq, ◌-◌, not, length, subst, sym,
  ◌++◌, ◌∙◌, ap, ◌&&◌,
}
use app_stt_aio.Base.Text.{strip}
use app_stt_aio.Base.Dict.{is_some}
use app_stt_aio.Gateway.Pairing.{
  PairingManager, clear_lockout, open_pin, register_failed_attempt, accept_pin, check_pin, pair,
  is_locked_out, new_manager,
}

-- The counter stays below its limit, and is 0 while a lockout is set.
pub record IsSane (m : PairingManager) : Type 0 where
  pub limit : 1 ≤ m.max_failed_attempts
  pub pause : 1 ≤ m.lockout_sec
  pub below : m.failed_attempts < m.max_failed_attempts
  pub reset : 0 < m.lockout_until → m.failed_attempts ≡ 0

new_manager-IsSane :
    (pin_ttl token_ttl max_failed lockout : ℕ)
    → IsSane (new_manager pin_ttl token_ttl max_failed lockout)
unfolding new_manager
new_manager-IsSane pin_ttl token_ttl max_failed lockout = ground arith

clear_lockout-IsSane : (now : ℕ) (m : PairingManager) → IsSane m → IsSane (clear_lockout now m)
unfolding clear_lockout
clear_lockout-IsSane now m h = ground arith

register-IsSane :
    (now : ℕ) (m : PairingManager)
    → m.lockout_until ≡ 0
    → IsSane m
    → IsSane (register_failed_attempt now m)
unfolding register_failed_attempt
register-IsSane now m unlocked h = ground arith

cleared :
    (now : ℕ) (m : PairingManager)
    → ltb now m.lockout_until ≡ false
    → (clear_lockout now m).lockout_until ≡ 0
unfolding clear_lockout
cleared now m h = ground arith

check_pin-IsSane :
    (now later : ℕ) (token normalized : String) (o : Option String) (m : PairingManager)
    → m.lockout_until ≡ 0
    → IsSane m
    → IsSane (check_pin now later token normalized o m).1
unfolding check_pin accept_pin
check_pin-IsSane now later token normalized none m unlocked h = register-IsSane later m unlocked h
check_pin-IsSane now later token normalized (some pin) m unlocked h =
    elim (Bool-cases (normalized == pin)) [
      | inl right ↦ rw right (record {
        limit = h.limit;
        pause = h.pause;
        below = omega (arith, h.limit);
        reset = λ p. absurd (omega arith);
      })
      | inr wrong ↦ rw wrong (register-IsSane later m unlocked h)
    ]

-- Every attempt to pair keeps the counter below its limit, and at 0 while a lockout is set.
pair-IsSane :
    (now later : ℕ) (token pin : String) (m : PairingManager)
    → IsSane m
    → IsSane (pair now later token pin m).1
unfolding pair
pair-IsSane now later token pin m h = elim (Bool-cases (ltb now m.lockout_until)) [
  | inl locked ↦ rw locked h
  | inr free ↦ rw free (
      check_pin-IsSane now later token (strip pin) (open_pin now (clear_lockout now m))
        (clear_lockout now m) (cleared now m free) (clear_lockout-IsSane now m h))
]

-- One call of `pair`: both clock readings, the token that it would give, and what was typed.
pub record Attempt : Type 0 where
  pub now : ℕ
  pub later : ℕ
  pub token : String
  pub typed : String

abbrev pub try_pair : Attempt → PairingManager → Option String × PairingManager
try_pair t m = pair t.now t.later t.token t.typed m

-- Whether the typed PIN is looked at: not while a lockout holds.
abbrev pub is_judged : Attempt → PairingManager → Bool
is_judged t m = not (ltb t.now m.lockout_until)

abbrev pub count_if : Bool → ℕ → ℕ
count_if true n = suc n
count_if false n = n

-- How many attempts of the list are looked at.
pub judged : List Attempt → PairingManager → ℕ
judged [] m = 0
judged (t ∷ rest) m = count_if (is_judged t m) (judged rest (try_pair t m).1)

-- Each attempt of the list is refused.
unfoldable pub all_refused : List Attempt → PairingManager → Bool
all_refused [] m = true
all_refused (t ∷ rest) m = not (is_some (try_pair t m).0) && all_refused rest (try_pair t m).1

-- An attempt within one lockout time that ends at `end`.
abbrev pub InWindow : ℕ → ℕ → Attempt → Type 0
InWindow lockout_sec end t = (t.now < end) × (end ≤ t.later + lockout_sec)

-- How many refusals are left before `end`.
abbrev budget : ℕ → PairingManager → ℕ
budget end m =
    if leb end m.lockout_until
    then 0
    else if ltb 0 m.lockout_until
    then m.max_failed_attempts
    else m.max_failed_attempts - m.failed_attempts

lockout_sec-pair :
    (t : Attempt) (m : PairingManager)
    → ((try_pair t m).1.lockout_sec ≡ m.lockout_sec)
      × ((try_pair t m).1.max_failed_attempts ≡ m.max_failed_attempts)
unfolding pair clear_lockout check_pin accept_pin register_failed_attempt
lockout_sec-pair t m = ground arith

budget-pair :
    (end : ℕ) (t : Attempt) (m : PairingManager)
    → IsSane m
    → InWindow m.lockout_sec end t
    → is_some (try_pair t m).0 ≡ false
    → count_if (is_judged t m) (budget end (try_pair t m).1) ≤ budget end m
unfolding pair clear_lockout check_pin accept_pin register_failed_attempt
budget-pair end t m h w refused = ground arith

InWindow-same :
    (l l' end : ℕ) (ts : List Attempt) → l' ≡ l → All (InWindow l end) ts → All (InWindow l' end) ts
InWindow-same l l' end ts e h = subst (λ n. All (InWindow n end) ts) (sym e) h

judged-le-budget :
    (end : ℕ) (ts : List Attempt) (m : PairingManager)
    → IsSane m
    → All (InWindow m.lockout_sec end) ts
    → all_refused ts m ≡ true
    → judged ts m ≤ budget end m
unfolding judged all_refused
judged-le-budget end [] m h w refused = omega arith
judged-le-budget end (t ∷ rest) m h w refused =
    let m' = (try_pair t m).1 in
    let first : is_some (try_pair t m).0 ≡ false = ground (arith, refused) in
    let ih =
      judged-le-budget end rest m' (pair-IsSane t.now t.later t.token t.typed m h)
        (InWindow-same m.lockout_sec m'.lockout_sec end rest (lockout_sec-pair t m).0 w.1)
        (ground (arith, refused)) in
    ground (arith, ih, budget-pair end t m h w.0 first, is_judged t m)

-- Within a stretch of time no longer than the lockout, at most `max_failed_attempts` refused
-- attempts are compared with the PIN, whatever is tried and however the clock readings lie.
pub guesses_bounded :
    (end : ℕ) (attempts : List Attempt) (m : PairingManager)
    → IsSane m
    → All (InWindow m.lockout_sec end) attempts
    → all_refused attempts m ≡ true
    → judged attempts m ≤ m.max_failed_attempts
guesses_bounded end attempts m h w refused =
    ground (arith, judged-le-budget end attempts m h w refused)

one_failure :
    (t : Attempt) (m : PairingManager)
    → m.lockout_until ≡ 0
    → m.failed_attempts + 1 < m.max_failed_attempts
    → is_some (try_pair t m).0 ≡ false
    → ((try_pair t m).1.lockout_until ≡ 0)
      × ((try_pair t m).1.failed_attempts ≡ m.failed_attempts + 1)
unfolding pair clear_lockout check_pin accept_pin register_failed_attempt
one_failure t m e below refused = ground arith

last_failure :
    (t : Attempt) (m : PairingManager)
    → m.lockout_until ≡ 0
    → m.failed_attempts + 1 ≡ m.max_failed_attempts
    → is_some (try_pair t m).0 ≡ false
    → (try_pair t m).1.lockout_until ≡ t.later + m.lockout_sec
unfolding pair clear_lockout check_pin accept_pin register_failed_attempt
last_failure t m e last refused = ground arith

pub try_all : List Attempt → PairingManager → PairingManager
try_all [] m = m
try_all (t ∷ rest) m = try_all rest (try_pair t m).1

-- As many refused attempts in a row as the limit allows start a lockout, which lasts for
-- `lockout_sec` after the last of them.
pub failures_lock :
    (before : List Attempt) (last : Attempt) (m : PairingManager)
    → m.lockout_until ≡ 0
    → m.failed_attempts + length before + 1 ≡ m.max_failed_attempts
    → all_refused (before ++ last ∷ []) m ≡ true
    → (now : ℕ)
    → (is_locked_out now (try_all (before ++ last ∷ []) m)).0 ≡ ltb now (last.later + m.lockout_sec)
unfolding all_refused try_all is_locked_out
failures_lock [] last m e count refused now =
    ground (arith, last_failure last m e (omega (arith, count)))
failures_lock (t ∷ before) last m e count refused now =
    let m' = (try_pair t m).1 in
    let same = lockout_sec-pair t m in
    let (open_still, one_more) =
      one_failure t m e (omega (arith, count)) (ground (arith, refused)) in
    failures_lock before last m' open_still (omega (arith, one_more, same.1, count))
      (ground (arith, refused)) now
    ∙ ap (λ (n : ℕ). ltb now (last.later + n)) same.0
