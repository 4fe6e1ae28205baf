-- ===== src/Inject/Realtime.antt =====
-- core/inject/realtime.py: the text of a running transcription.
use app_stt_aio.Base.{
  Bool, Option, [], false, if◌then◌else◌, is_empty, nat_eq, none, not, some, string_eq, true, ◌&&◌,
  ◌==◌, ◌∷◌,
}
use app_stt_aio.Base.Result.{pure, ◌>>=◌}
use app_stt_aio.Inject.{Text, unicode, InjectOptions, InjectResult, Windows, Inject}
use app_stt_aio.Inject.Keyboard.{text}
use app_stt_aio.Inject.Injector.{Injector, inject, replace_last, succeeded}

pub record RealtimeInjector : Type 0 where
  pub injector : Injector
  pub options : InjectOptions
  pub last_text : Text

-- `b.removeprefix(a)` where b starts with a.
unfoldable pub after : Text → Text → Option Text
after [] t = some t
after (c ∷ p) [] = none
after (c ∷ p) (d ∷ t) = let rest = after p t in if c == d then rest else none

-- The new part of a text that starts with the last one, or the whole of another.
abbrev pub delta : Option Text → Text → Text
delta none t = t
delta (some rest) t = rest

abbrev pub note : Text → Bool → InjectResult → RealtimeInjector → RealtimeInjector
note t is_final result r =
    if result.success then record r { last_text = if is_final then [] else t } else r

abbrev pub starts_with : Option Text → Bool
starts_with none = false
starts_with (some rest) = true

module _ {W : Type 0} (os : Windows W) where
  -- `replace_last` is called with the last text as the new one and the new text as a length.
  abbrev pub inject_new : RealtimeInjector → Text → Inject W InjectResult
  inject_new r t =
      if starts_with (after r.last_text t) && not (is_empty r.last_text)
      then replace_last os r.injector r.last_text (text t) none (some r.options)
      else inject os r.injector t none (some r.options)

  unfoldable pub inject_partial :
      RealtimeInjector → Text → Bool → Inject W (InjectResult × RealtimeInjector)
  inject_partial r t is_final =
      if is_empty (delta (after r.last_text t) t) && not is_final
      then pure (succeeded unicode 0, r)
      else do result ← inject_new r t; pure (result, note t is_final result r)

  unfoldable pub reset : RealtimeInjector → RealtimeInjector
  reset r = record r { last_text = [] }
