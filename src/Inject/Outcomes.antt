-- ===== src/Inject/Outcomes.antt =====
-- What `inject` reports.
use app_stt_aio.Base.{
  Bool-cases, Option, [], false, if◌then◌else◌, inl, inr, length, none, refl, true, ℕ, ◌&&◌, ◌∷◌,
  ◌≡◌, nat_eq, string_eq, some,
}
use app_stt_aio.Base.Dict.{is_some}
use app_stt_aio.Base.Result.{Result, ok, err, pure, recover, and_then, ◌>>◌}
use app_stt_aio.Inject.{
  Text, InjectMethod, unicode, auto, clipboard, no_foreground_window, clipboard_busy,
  injection_failed, unicode_encode_error, type_error, InjectOptions, InjectResult, Fault, Windows,
  Inject,
}
use app_stt_aio.Inject.Keyboard.{send_units, send_unicode_text, send_enter}
use app_stt_aio.Inject.Encoding.{text_to_utf16_units}
use app_stt_aio.Inject.Clipboard.{paste_via_clipboard}
use app_stt_aio.Inject.Injector.{
  Injector, succeeded, inject, fail_with, check_if, send_text, enter_if, inject_with_method,
  handle_inject_error, inject_error, inject_resolved, is_unicode_method, is_injection_failed,
  is_inject_error, resolve_method,
}

-- A success counts every character; a failure counts none and names its error.
abbrev pub IsReport : Text → InjectResult → Type 0
IsReport t result =
    if result.success
    then (result.chars_injected ≡ length t) × (result.error ≡ none)
    else (result.chars_injected ≡ 0) × (is_some result.error ≡ true)

-- A report, or an exception that is no `InjectError`.
abbrev pub IsOutcome : {W : Type 0} → Text → Result Fault InjectResult × W → Type 0
IsOutcome t (ok result, w) = IsReport t result
IsOutcome t (err e, w) = is_inject_error e ≡ false

-- A report, or any exception.
abbrev IsAttempt : {W : Type 0} → Text → Result Fault InjectResult × W → Type 0
IsAttempt t (ok result, w) = IsReport t result
IsAttempt t (err e, w) = Unit {0}

-- A count of characters, or any exception.
abbrev IsCount : {W : Type 0} → Text → Result Fault ℕ × W → Type 0
IsCount t (ok n, w) = n ≡ length t
IsCount t (err e, w) = Unit {0}

IsCount-pure :
    {W A : Type 0} (t : Text) (r : Result Fault A × W)
    → IsCount t (and_then r (λ _. pure (length t)))
IsCount-pure t (ok a, w) = refl
IsCount-pure t (err e, w) = tt

fail_with-IsOutcome :
    {W : Type 0} (t : Text) (method : InjectMethod) (r : Result Fault InjectResult × W)
    → IsAttempt t r
    → IsOutcome t (recover (fail_with method) r)
fail_with-IsOutcome t method (ok result, w) h = h
fail_with-IsOutcome t method (err e, w) h = elim (Bool-cases (is_inject_error e)) [
  | inl known ↦ rw known (refl, refl)
  | inr other ↦ rw other other
]

entered-IsAttempt :
    {W : Type 0} (t : Text) (method : InjectMethod) (n : ℕ) (r : Result Fault (Unit {0}) × W)
    → n ≡ length t
    → IsAttempt t (and_then r (λ _. pure (succeeded method n)))
entered-IsAttempt t method n (ok _, w) h = (h, refl)
entered-IsAttempt t method n (err e, w) h = tt

counted-IsAttempt :
    {W : Type 0} (t : Text) (method : InjectMethod) (r : Result Fault ℕ × W)
    (enter : Inject W (Unit {0}))
    → IsCount t r
    → IsAttempt t (and_then r (λ chars. enter >> pure (succeeded method chars)))
counted-IsAttempt t method (ok n, w) enter h = entered-IsAttempt t method n (enter w) h
counted-IsAttempt t method (err e, w) enter h = tt

module _ {W : Type 0} (os : Windows W) where
  send_text-IsCount :
      (method : InjectMethod) (t : Text) (delay : ℕ) (w : W)
      → IsCount t (send_text os method t delay w)
  unfolding send_unicode_text
  send_text-IsCount clipboard t delay w = IsCount-pure t (paste_via_clipboard os t w)
  send_text-IsCount unicode [] delay w = refl
  send_text-IsCount unicode (c ∷ t) delay w =
      IsCount-pure (c ∷ t) (send_units os delay (text_to_utf16_units (c ∷ t)) w)
  send_text-IsCount auto [] delay w = refl
  send_text-IsCount auto (c ∷ t) delay w =
      IsCount-pure (c ∷ t) (send_units os delay (text_to_utf16_units (c ∷ t)) w)

  inject_with_method-IsAttempt :
      (t : Text) (method : InjectMethod) (opts : InjectOptions) (w : W)
      → IsAttempt t (inject_with_method os t method opts w)
  unfolding inject_with_method
  inject_with_method-IsAttempt t method opts w =
      counted-IsAttempt t method (send_text os method t opts.per_char_delay_ms w)
        (enter_if os opts.press_enter) (send_text-IsCount method t opts.per_char_delay_ms w)

  handle_inject_error-IsOutcome :
      (t : Text) (method : InjectMethod) (opts : InjectOptions) (e : Fault) (w : W)
      → IsOutcome t (handle_inject_error os t method opts e w)
  unfolding handle_inject_error
  handle_inject_error-IsOutcome t method opts e w =
      elim (Bool-cases
        (is_unicode_method method && opts.unicode_fallback_to_clipboard && is_injection_failed e)) [
          | inl again ↦
              rw again (
                fail_with-IsOutcome t clipboard _ (inject_with_method-IsAttempt t clipboard opts w))
          | inr over ↦ rw over (refl, refl)
        ]

  inject_error-IsOutcome :
      (t : Text) (method : InjectMethod) (opts : InjectOptions) (r : Result Fault InjectResult × W)
      → IsAttempt t r
      → IsOutcome t (recover (inject_error os t method opts) r)
  inject_error-IsOutcome t method opts (ok result, w) h = h
  inject_error-IsOutcome t method opts (err no_foreground_window, w) h = (refl, refl)
  inject_error-IsOutcome t method opts (err unicode_encode_error, w) h = refl
  inject_error-IsOutcome t method opts (err type_error, w) h = refl
  inject_error-IsOutcome t method opts (err clipboard_busy, w) h =
      handle_inject_error-IsOutcome t method opts clipboard_busy w
  inject_error-IsOutcome t method opts (err injection_failed, w) h =
      handle_inject_error-IsOutcome t method opts injection_failed w

  check-IsAttempt :
      (t : Text) (r : Result Fault (Unit {0}) × W) (f : Inject W InjectResult)
      → ((w : W) → IsAttempt t (f w))
      → IsAttempt t (and_then r (λ _. f))
  check-IsAttempt t (ok _, w) f h = h w
  check-IsAttempt t (err e, w) f h = tt

  inject_resolved-IsOutcome :
      (t : Text) (method : InjectMethod) (opts : InjectOptions) (w : W)
      → IsOutcome t (inject_resolved os t method opts w)
  inject_resolved-IsOutcome [] method opts w = (refl, refl)
  inject_resolved-IsOutcome (c ∷ t) method opts w = inject_error-IsOutcome (c ∷ t) method opts _ (
      check-IsAttempt (c ∷ t) (check_if os opts.target_check w) _
        (inject_with_method-IsAttempt (c ∷ t) method opts))

  -- Whatever the operating system does, `inject` reports: a success counts every character of the text and
  -- has no error, a failure counts none and has one. No `InjectError` leaves it as an exception.
  pub inject-IsOutcome :
      (i : Injector) (t : Text) (method : Option InjectMethod) (options : Option InjectOptions)
      (w : W)
      → IsOutcome t (inject os i t method options w)
  unfolding inject
  inject-IsOutcome i t method options w = inject_resolved-IsOutcome t _ _ w

  enter_failed :
      (t : Text) (opts : InjectOptions) (n : ℕ) (w1 w2 w3 : W)
      → opts.press_enter ≡ true
      → send_unicode_text os t opts.per_char_delay_ms w1 ≡ (ok n, w2)
      → send_enter os w2 ≡ (err injection_failed, w3)
      → inject_with_method os t unicode opts w1 ≡ (err injection_failed, w3)
  unfolding inject_with_method
  enter_failed t opts n w1 w2 w3 enter sent key = rw (sent, enter, key) refl

  -- Where the text has been typed and then the Enter key does not go out, the whole text is inserted again by
  -- the clipboard: `inject` does what a paste of the text does after the failed key.
  inject-enter_failed :
      (i : Injector) (c : ℕ) (t : Text) (opts : InjectOptions) (n : ℕ) (w w1 w2 w3 : W)
      → opts.press_enter ≡ true
      → opts.unicode_fallback_to_clipboard ≡ true
      → check_if os opts.target_check w ≡ (ok tt, w1)
      → send_unicode_text os (c ∷ t) opts.per_char_delay_ms w1 ≡ (ok n, w2)
      → send_enter os w2 ≡ (err injection_failed, w3)
      → inject os i (c ∷ t) (some unicode) (some opts) w
        ≡ recover (fail_with clipboard) (inject_with_method os (c ∷ t) clipboard opts w3)
  unfolding inject resolve_method handle_inject_error
  inject-enter_failed i c t opts n w w1 w2 w3 enter fallback window sent key =
      rw (window, enter_failed (c ∷ t) opts n w1 w2 w3 enter sent key, fallback) refl
