-- ===== src/Inject/Injector.antt =====
-- core/inject/injector.py on Windows, where a text is injected, and realtime.py. The reports to the
-- diagnostics and the logging have no part here.
use app_stt_aio.Base.{
  Bool, Option, [], false, if◌then◌else◌, length, ltb, none, not, some, true, ℕ, ◌&&◌, ◌∷◌,
}
use app_stt_aio.Base.Result.{ok, err, pure, recover, ◌>>=◌, ◌>>◌}
use app_stt_aio.Inject.{
  Text, InjectMethod, auto, unicode, clipboard, Fault, injection_failed, no_foreground_window,
  type_error, unicode_encode_error, InjectOptions, Failure, fault, replacement_disabled,
  InjectResult, Windows, Inject,
}
use app_stt_aio.Inject.Keyboard.{
  Number, send_backspaces, send_enter, send_unicode_text, ensure_foreground_window,
}
use app_stt_aio.Inject.Clipboard.{paste_via_clipboard}

pub record Injector : Type 0 where
  pub default_method : InjectMethod
  pub threshold : ℕ
  pub enter : Bool
  pub fallback : Bool

unfoldable pub resolve_method : Text → InjectMethod → ℕ → InjectMethod
resolve_method t auto threshold = if ltb threshold (length t) then clipboard else unicode
resolve_method t method threshold = method

abbrev pub or_default {ℓ} : {A : Type ℓ} → A → Option A → A
or_default d none = d
or_default d (some a) = a

abbrev pub default_options : Injector → InjectOptions
default_options i = record {
  press_enter = i.enter;
  per_char_delay_ms = 0;
  length_threshold = i.threshold;
  unicode_fallback_to_clipboard = i.fallback;
  target_check = true;
  allow_replacement = true;
}

abbrev pub succeeded : InjectMethod → ℕ → InjectResult
succeeded method n = record {
  success = true;
  method_used = method;
  chars_injected = n;
  error = none;
}

abbrev pub failed : InjectMethod → Failure → InjectResult
failed method e = record {
  success = false;
  method_used = method;
  chars_injected = 0;
  error = some e;
}

abbrev pub is_unicode_method : InjectMethod → Bool
is_unicode_method unicode = true
is_unicode_method _ = false

abbrev pub is_injection_failed : Fault → Bool
is_injection_failed injection_failed = true
is_injection_failed _ = false

-- `isinstance(e, InjectError)`
abbrev pub is_inject_error : Fault → Bool
is_inject_error unicode_encode_error = false
is_inject_error type_error = false
is_inject_error _ = true

-- `except InjectError as e: return failed(e)`
abbrev pub fail_with : {W : Type 0} → InjectMethod → Fault → Inject W InjectResult
fail_with method e w = if is_inject_error e then (ok (failed method (fault e)), w) else (err e, w)

module _ {W : Type 0} (os : Windows W) where
  abbrev pub send_text : InjectMethod → Text → ℕ → Inject W ℕ
  send_text clipboard t delay = do paste_via_clipboard os t; pure (length t)
  send_text _ t delay = send_unicode_text os t delay

  abbrev pub enter_if : Bool → Inject W (Unit {0})
  enter_if true = send_enter os
  enter_if false = pure tt

  unfoldable pub inject_with_method : Text → InjectMethod → InjectOptions → Inject W InjectResult
  inject_with_method t method opts = do
    chars ← send_text method t opts.per_char_delay_ms
    enter_if opts.press_enter
    pure (succeeded method chars)

  unfoldable pub handle_inject_error :
      Text → InjectMethod → InjectOptions → Fault → Inject W InjectResult
  handle_inject_error t resolved opts e w =
      if is_unicode_method resolved && opts.unicode_fallback_to_clipboard && is_injection_failed e
      then recover (fail_with clipboard) (inject_with_method t clipboard opts w)
      else (ok (failed resolved (fault e)), w)

  -- The `except` clauses of `inject`.
  abbrev pub inject_error : Text → InjectMethod → InjectOptions → Fault → Inject W InjectResult
  inject_error t resolved opts no_foreground_window w =
      (ok (failed resolved (fault no_foreground_window)), w)
  inject_error t resolved opts unicode_encode_error w = (err unicode_encode_error, w)
  inject_error t resolved opts type_error w = (err type_error, w)
  inject_error t resolved opts e w = handle_inject_error t resolved opts e w

  abbrev pub check_if : Bool → Inject W (Unit {0})
  check_if true = ensure_foreground_window os
  check_if false = pure tt

  abbrev pub inject_resolved : Text → InjectMethod → InjectOptions → Inject W InjectResult
  inject_resolved [] resolved opts = pure (succeeded resolved 0)
  inject_resolved (c ∷ t) resolved opts = λ w.
      recover (inject_error (c ∷ t) resolved opts)
        ((check_if opts.target_check >> inject_with_method (c ∷ t) resolved opts) w)

  unfoldable pub inject :
      Injector → Text → Option InjectMethod → Option InjectOptions → Inject W InjectResult
  inject i t method options =
      let opts = or_default (default_options i) options in
      inject_resolved t
        (resolve_method t (or_default i.default_method method) opts.length_threshold) opts

  unfoldable pub replace_last :
      Injector → Text → Number → Option InjectMethod → Option InjectOptions → Inject W InjectResult
  replace_last i t prev_text_len method options w =
      let opts = or_default (default_options i) options in
      let effective = or_default i.default_method method in
      let resolved = resolve_method t effective opts.length_threshold in
      if not opts.allow_replacement
      then (ok (failed resolved replacement_disabled), w)
      else recover (fail_with resolved) (
          (do
            check_if opts.target_check
            send_backspaces os prev_text_len
            inject i t (some effective) (some (record opts { target_check = false })))
            w)
