-- ===== src/Hotkey/Signals.antt =====
-- The order of the signals that a hotkey manager gives to its callbacks.
use app_stt_aio.Base.Result.{Result, ok, err}
use app_stt_aio.Hotkey.Conflict.{
  fallback_bindings, cancel_fallback_bindings, suggest_fallback_binding,
}
use app_stt_aio.Hotkey.Binding.{BindingError, parse_binding, KeyChord}
use app_stt_aio.Hotkey.Manager.{
  register_chord, register_fallback, record_binding, cancel_binding, register_or_fallback,
  HotkeyManager, HotkeyMode, HotkeyBinding, HotkeyConfig, Signal, RecordState, record_start,
  record_stop, auto_send, cancel, conflict, idle, recording, is_recording, signal,
  emit_record_start, finish_recording, emit_cancel, set_mode, register, unregister, apply_config,
}
use app_stt_aio.Base.{
  Bool, List, Option, String, [], none, some, ◌++◌, ◌∷◌, ◌≡◌, false, refl, if◌then◌else◌,
  Bool-cases, inl, inr, nat_eq, string_eq, true,
}

-- A listener's view of the signals: a recording starts when none is going on, stops when one is, and a
-- cancel ends it or finds none. `none` is a signal out of order.
unfoldable pub heard : Signal → RecordState → Option RecordState
heard record_start idle = some recording
heard record_start recording = none
heard record_stop recording = some idle
heard record_stop idle = none
heard auto_send recording = some idle
heard auto_send idle = none
heard cancel s = some idle
heard (conflict b) s = some s

abbrev pub heard_from : Signal → Option RecordState → Option RecordState
heard_from x none = none
heard_from x (some s) = heard x s

unfoldable pub replay : List Signal → Option RecordState → Option RecordState
replay [] o = o
replay (x ∷ xs) o = replay xs (heard_from x o)

-- What the listener has heard agrees with the manager's state.
abbrev pub IsHeard : HotkeyManager → Type 0
IsHeard m = replay m.signals (some idle) ≡ some m.record_state

replay-append :
    (xs : List Signal) (x : Signal) (o : Option RecordState)
    → replay (xs ++ x ∷ []) o ≡ heard_from x (replay xs o)
unfolding replay
replay-append [] x o = refl
replay-append (y ∷ ys) x o = replay-append ys x (heard_from y o)

hear :
    (xs : List Signal) (x : Signal) (s : RecordState)
    → replay xs (some idle) ≡ some s
    → replay (xs ++ x ∷ []) (some idle) ≡ heard x s
hear xs x s h = rw (replay-append, h) refl

hear_stop :
    (send : Bool) (xs : List Signal) (s : RecordState)
    → is_recording s ≡ true
    → replay xs (some idle) ≡ some s
    → replay (xs ++ (if send then auto_send else record_stop) ∷ []) (some idle) ≡ some idle
unfolding heard
hear_stop send xs idle r h = absurd (cc)
hear_stop true xs recording r h = hear xs auto_send recording h
hear_stop false xs recording r h = hear xs record_stop recording h

hear_start :
    (xs : List Signal) (s : RecordState)
    → is_recording s ≡ false
    → replay xs (some idle) ≡ some s
    → replay (xs ++ record_start ∷ []) (some idle) ≡ some recording
unfolding heard
hear_start xs recording r h = absurd (cc)
hear_start xs idle r h = hear xs record_start idle h

pub finish_recording-IsHeard :
    (send : Bool) (m : HotkeyManager)
    → is_recording m.record_state ≡ true
    → IsHeard m
    → IsHeard (finish_recording send m)
unfolding finish_recording signal
finish_recording-IsHeard send m r h = hear_stop send m.signals m.record_state r h

pub emit_record_start-IsHeard :
    (m : HotkeyManager)
    → is_recording m.record_state ≡ false
    → IsHeard m
    → IsHeard (emit_record_start m)
unfolding emit_record_start signal
emit_record_start-IsHeard m r h = hear_start m.signals m.record_state r h

pub emit_cancel-IsHeard : (m : HotkeyManager) → IsHeard m → IsHeard (emit_cancel m)
unfolding emit_cancel signal heard
emit_cancel-IsHeard m h = hear m.signals cancel m.record_state h

conflict-IsHeard :
    (b : HotkeyBinding) (m : HotkeyManager) → IsHeard m → IsHeard (signal (conflict b) m)
unfolding signal heard
conflict-IsHeard b m h = hear m.signals (conflict b) m.record_state h

-- `if c then a else b` where the test may be used.
pub choose :
    (c : Bool) (m n : HotkeyManager)
    → (c ≡ true → IsHeard m)
    → (c ≡ false → IsHeard n)
    → IsHeard (if c then m else n)
choose true m n on_true on_false = on_true refl
choose false m n on_true on_false = on_false refl

pub set_mode-IsHeard :
    (mode : HotkeyMode) (m : HotkeyManager) → IsHeard m → IsHeard (set_mode mode m)
unfolding set_mode
set_mode-IsHeard mode m h =
    choose (is_recording m.record_state) _ _
      (λ r. finish_recording-IsHeard false (record m { mode = mode }) r h) (λ r. h)

register_chord-IsHeard :
    (test : KeyChord → Bool) (b : HotkeyBinding) (parsed : Result BindingError KeyChord)
    (m : HotkeyManager)
    → IsHeard m
    → IsHeard (register_chord test b parsed m).1
register_chord-IsHeard test b (err e) m h = conflict-IsHeard b m h
register_chord-IsHeard test b (ok chord) m h = elim (Bool-cases (test chord)) [
  | inl free ↦ rw free h
  | inr taken ↦ rw taken (conflict-IsHeard b m h)
]

pub register-IsHeard :
    (test : KeyChord → Bool) (b : HotkeyBinding) (m : HotkeyManager)
    → IsHeard m
    → IsHeard (register test b m).1
unfolding register
register-IsHeard test b m h = register_chord-IsHeard test b (parse_binding b.keys) m h

module _ (test : KeyChord → Bool) (binding : String → HotkeyBinding) where
  register_fallback-IsHeard :
      (o : Option String) (m : HotkeyManager)
      → IsHeard m
      → IsHeard (register_fallback test binding o m)
  register_fallback-IsHeard none m h = h
  register_fallback-IsHeard (some keys) m h = register-IsHeard test (binding keys) m h

  register_or_fallback-IsHeard :
      (candidates : List String) (keys : String) (m : HotkeyManager)
      → IsHeard m
      → IsHeard (register_or_fallback test binding candidates keys m)
  unfolding register_or_fallback
  register_or_fallback-IsHeard candidates keys m h =
      choose (register test (binding keys) m).0 _ _ (λ _. register-IsHeard test (binding keys) m h)
        (λ _.
          register_fallback-IsHeard (suggest_fallback_binding test keys candidates) _
            (register-IsHeard test (binding keys) m h))

pub apply_config-IsHeard :
    (test : KeyChord → Bool) (c : HotkeyConfig) (m : HotkeyManager)
    → IsHeard m
    → IsHeard (apply_config test c m)
unfolding apply_config unregister
apply_config-IsHeard test c m h =
    register_or_fallback-IsHeard test cancel_binding cancel_fallback_bindings c.cancel_keys _ (
      register_or_fallback-IsHeard test (record_binding _) fallback_bindings c.record_keys _
        (set_mode-IsHeard c.mode m h))
