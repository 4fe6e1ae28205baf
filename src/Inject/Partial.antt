-- ===== src/Inject/Partial.antt =====
-- What `inject_partial` does where the text has grown.
use app_stt_aio.Base.{
  Bool, Bool-cases, Option, false, inl, inr, not, refl, true, ◌≡◌, is_empty, none, some, ◌&&◌,
}
use app_stt_aio.Base.Result.{Result, ok, err, pure, recover, and_then}
use app_stt_aio.Inject.{Text, InjectMethod, InjectOptions, InjectResult, Fault, Windows, Inject}
use app_stt_aio.Inject.Keyboard.{text, send_backspaces}
use app_stt_aio.Inject.Injector.{
  Injector, default_options, or_default, fail_with, check_if, replace_last, is_inject_error,
}
use app_stt_aio.Inject.Realtime.{RealtimeInjector, after, note, inject_partial}

-- A call that raises.
abbrev IsRaised : {W A : Type 0} → Result Fault A × W → Type 0
IsRaised (ok a, w) = true ≡ false
IsRaised (err e, w) = Unit {0}

-- A call that raises, or reports that nothing was injected.
abbrev HasFailed : {W : Type 0} → Result Fault InjectResult × W → Type 0
HasFailed (ok result, w) = result.success ≡ false
HasFailed (err e, w) = Unit {0}

and_then-IsRaised :
    {W A B : Type 0} (r : Result Fault A × W) (f : A → Inject W B)
    → ((a : A) (w : W) → IsRaised (f a w))
    → IsRaised (and_then r f)
and_then-IsRaised (ok a, w) f h = h a w
and_then-IsRaised (err e, w) f h = tt

recover-HasFailed :
    {W : Type 0} (method : InjectMethod) (r : Result Fault InjectResult × W)
    → IsRaised r
    → HasFailed (recover (fail_with method) r)
recover-HasFailed method (ok a, w) h = absurd (cc)
recover-HasFailed method (err e, w) h = elim (Bool-cases (is_inject_error e)) [
  | inl known ↦ rw known refl
  | inr other ↦ rw other tt
]

-- `replace_last` with a text for the length.
replace_last-HasFailed :
    {W : Type 0} (os : Windows W) (i : Injector) (t u : Text) (method : Option InjectMethod)
    (options : Option InjectOptions) (w : W)
    → HasFailed (replace_last os i t (text u) method options w)
unfolding replace_last send_backspaces
replace_last-HasFailed os i t u method options w =
    elim (Bool-cases (not (or_default (default_options i) options).allow_replacement)) [
      | inl disabled ↦ rw disabled refl
      | inr enabled ↦ rw enabled (
          recover-HasFailed _
            (and_then (check_if os (or_default (default_options i) options).target_check w) _)
            (and_then-IsRaised (check_if os (or_default (default_options i) options).target_check w)
              _ (λ _ _. tt)))
    ]

-- The outcome of a partial text: an exception, or no success and the state as it was.
abbrev pub HasFailedOn :
    {W : Type 0} → RealtimeInjector → Result Fault (InjectResult × RealtimeInjector) × W → Type 0
HasFailedOn r (ok (result, r'), w) = (result.success ≡ false) × (r' ≡ r)
HasFailedOn r (err e, w) = Unit {0}

note-HasFailedOn :
    {W : Type 0} (r : RealtimeInjector) (t : Text) (is_final : Bool)
    (x : Result Fault InjectResult × W)
    → HasFailed x
    → HasFailedOn r (and_then x (λ result. pure (result, note t is_final result r)))
note-HasFailedOn r t is_final (ok result, w) h = (h, rw h refl)
note-HasFailedOn r t is_final (err e, w) h = tt

-- While the last text is not empty, a partial text that starts with it, and adds something to it or
-- is final, is not injected with success, whatever the operating system does: `inject_partial`
-- raises, or returns a result without success and remembers nothing new.
pub inject_partial-HasFailedOn :
    {W : Type 0} (os : Windows W) (r : RealtimeInjector) (t rest : Text) (is_final : Bool) (w : W)
    → after r.last_text t ≡ some rest
    → is_empty r.last_text ≡ false
    → (is_empty rest && not is_final) ≡ false
    → HasFailedOn r (inject_partial os r t is_final w)
unfolding inject_partial
inject_partial-HasFailedOn os r t rest is_final w grown old more =
    rw (grown, more, old)
      (note-HasFailedOn r t is_final _
        (replace_last-HasFailed os r.injector r.last_text t none (some r.options) w))
