-- ===== src/Hotkey/Manager.antt =====
-- `HotkeyManager` of app/hotkey/hotkey_manager.py. What its callbacks are called for is a trace of
-- signals; the callbacks are taken to return. `test` is the backend's `test_register`, and `now` the
-- clock of the debouncer in milliseconds.

use app_stt_aio.Base.{
  Bool, List, Option, String, [], false, if◌then◌else◌, leb, nat_eq, none, not, some, string_eq,
  suc, true, zero, ℕ, ◌&&◌, ◌++◌, ◌∷◌,
}
use app_stt_aio.Base.Dict.{Dict, lookup, insert, remove, keys}
use app_stt_aio.Base.Result.{Result, Exec, ok, err}
use app_stt_aio.Hotkey.Binding.{
  Modifiers, alt, no_modifiers, has_modifier, KeyChord, BindingError, parse_binding,
}
use app_stt_aio.Hotkey.Conflict.{
  fallback_bindings, cancel_fallback_bindings, suggest_fallback_binding,
}
use app_stt_aio.Hotkey.Debounce
use app_stt_aio.Hotkey.Debounce.{KeyDebouncer, accept}

pub data HotkeyAction : Type 0 where
  record_action cancel_action auto_send_action : HotkeyAction

pub data HotkeyMode : Type 0 where
  ptt toggle : HotkeyMode

pub data RecordState : Type 0 where
  idle recording : RecordState

pub record HotkeyBinding : Type 0 where
  pub id : String
  pub keys : String
  pub action : HotkeyAction
  pub mode : Option HotkeyMode

-- The calls of the callbacks.
pub data Signal : Type 0 where
  record_start record_stop auto_send cancel : Signal
  conflict : HotkeyBinding → Signal

pub data HotkeyError : Type 0 where
  hotkey_state registration key_error : HotkeyError

pub record HotkeyManager : Type 0 where
  pub debouncer : KeyDebouncer
  pub auto_send_enabled : Bool
  pub mode : HotkeyMode
  pub record_state : RecordState
  pub bindings : Dict String HotkeyBinding
  pub chords : Dict String KeyChord
  pub pressed : Modifiers
  pub started : Bool
  pub hooked : Bool
  pub signals : List Signal

pub record KeyEvent : Type 0 where
  pub vk : ℕ
  pub is_down : Bool
  pub is_repeat : Bool

abbrev pub is_recording : RecordState → Bool
is_recording recording = true
is_recording idle = false

abbrev pub is_ptt : HotkeyMode → Bool
is_ptt ptt = true
is_ptt toggle = false

unfoldable pub signal : Signal → HotkeyManager → HotkeyManager
signal s m = record m { signals = m.signals ++ s ∷ [] }

-- `_emit_record_start`
unfoldable pub emit_record_start : HotkeyManager → HotkeyManager
emit_record_start m = signal record_start (record m { record_state = recording })

unfoldable pub finish_recording : Bool → HotkeyManager → HotkeyManager
finish_recording send m =
    signal (if send then auto_send else record_stop) (record m { record_state = idle })

unfoldable pub emit_cancel : HotkeyManager → HotkeyManager
emit_cancel m = signal cancel (record m { record_state = idle })

unfoldable pub should_auto_send : HotkeyManager → Bool
should_auto_send m = m.auto_send_enabled && has_modifier alt m.pressed

unfoldable pub set_mode : HotkeyMode → HotkeyManager → HotkeyManager
set_mode mode m =
    let m' = record m { mode = mode } in
    if is_recording m'.record_state then finish_recording false m' else m'

abbrev pub register_chord :
    (KeyChord → Bool)
    → HotkeyBinding
    → Result BindingError KeyChord
    → HotkeyManager
    → Bool × HotkeyManager
register_chord test b (err e) m = (false, signal (conflict b) m)
register_chord test b (ok chord) m =
    if test chord
    then (
      true,
      record m { bindings = insert b.id b m.bindings; chords = insert b.id chord m.chords },
    )
    else (false, signal (conflict b) m)

unfoldable pub register : (KeyChord → Bool) → HotkeyBinding → HotkeyManager → Bool × HotkeyManager
register test b m = register_chord test b (parse_binding b.keys) m

unfoldable pub unregister : String → HotkeyManager → HotkeyManager
unregister id m = record m { bindings = remove id m.bindings; chords = remove id m.chords }

abbrev pub register_fallback :
    (KeyChord → Bool) → (String → HotkeyBinding) → Option String → HotkeyManager → HotkeyManager
register_fallback test binding none m = m
register_fallback test binding (some keys) m = (register test (binding keys) m).1

-- `_register_record_binding` and `_register_cancel_binding`, which differ in the binding and in the
-- candidates.
unfoldable pub register_or_fallback :
    (KeyChord → Bool)
    → (String → HotkeyBinding)
    → List String
    → String
    → HotkeyManager
    → HotkeyManager
register_or_fallback test binding candidates keys m =
    let (done, m') = register test (binding keys) m in
    if done
    then m'
    else register_fallback test binding (suggest_fallback_binding test keys candidates) m'

abbrev pub record_binding : HotkeyMode → String → HotkeyBinding
record_binding mode keys = record {
  id = "record";
  keys = keys;
  action = record_action;
  mode = some mode;
}

abbrev pub cancel_binding : String → HotkeyBinding
cancel_binding keys = record { id = "cancel"; keys = keys; action = cancel_action; mode = none }

-- The settings that `apply_config` reads.
pub record HotkeyConfig : Type 0 where
  pub mode : HotkeyMode
  pub auto_send : Bool
  pub record_keys : String
  pub cancel_keys : String

unfoldable pub apply_config : (KeyChord → Bool) → HotkeyConfig → HotkeyManager → HotkeyManager
apply_config test c m =
    let m' = record (set_mode c.mode m) { auto_send_enabled = c.auto_send } in
    register_or_fallback test cancel_binding cancel_fallback_bindings c.cancel_keys (
      register_or_fallback test (record_binding m'.mode) fallback_bindings c.record_keys
        (unregister "cancel" (unregister "record" m')))

-- The attempts to start the hook, with whether each becomes ready.
abbrev pub attempt : ℕ → List Bool → Exec HotkeyError HotkeyManager (Unit {0})
attempt zero ready m = (err registration, m)
attempt (suc n) [] m = attempt n [] (record m { hooked = false })
attempt (suc n) (true ∷ ready) m = (ok tt, record m { hooked = true; started = true })
attempt (suc n) (false ∷ ready) m = attempt n ready (record m { hooked = false })

-- `bench` is the switch for benchmarks in the environment.
unfoldable pub start : Bool → ℕ → List Bool → Exec HotkeyError HotkeyManager (Unit {0})
start bench max_attempts ready m =
    if m.started
    then (ok tt, m)
    else if bench
    then (ok tt, record m { started = true })
    else attempt (if leb 1 max_attempts then max_attempts else 1) ready m

unfoldable pub stop : HotkeyManager → HotkeyManager
stop m = if not m.started then m else record m {
  hooked = false;
  started = false;
  pressed = no_modifiers;
  record_state = idle;
  debouncer = Debounce.reset m.debouncer;
}

abbrev pub is_action : HotkeyAction → HotkeyAction → Bool
is_action record_action record_action = true
is_action cancel_action cancel_action = true
is_action auto_send_action auto_send_action = true
is_action _ _ = false

unfoldable pub binding_for_action : HotkeyAction → Dict String HotkeyBinding → Option HotkeyBinding
binding_for_action a [] = none
binding_for_action a ((id, b) ∷ rest) =
    if is_action b.action a then some b else binding_for_action a rest

-- `self._chords[binding.id]` for the binding of an action; `none` inside is a `KeyError`.
abbrev pub chord_for : Option HotkeyBinding → Dict String KeyChord → Option (Option KeyChord)
chord_for none chords = none
chord_for (some b) chords = some (lookup b.id chords)
