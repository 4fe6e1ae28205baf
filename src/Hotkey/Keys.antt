-- ===== src/Hotkey/Keys.antt =====
-- `_handle_key_event` of app/hotkey/hotkey_manager.py.
use app_stt_aio.Base.{
  Bool, Option, false, if◌then◌else◌, nat_eq, none, not, some, string_eq, true, ℕ, ◌&&◌, ◌==◌,
}
use app_stt_aio.Base.Result.{Exec, ok, err}
use app_stt_aio.Hotkey.Binding.{
  Modifier, set_modifier, has_modifier, KeyChord, modifier_from_vk, chord_matches_pressed,
}
use app_stt_aio.Hotkey.Debounce.{KeyDebouncer, accept}
use app_stt_aio.Hotkey.Manager.{
  HotkeyError, hotkey_state, key_error, HotkeyManager, KeyEvent, record_action, cancel_action,
  is_recording, is_ptt, emit_record_start, finish_recording, emit_cancel, should_auto_send,
  binding_for_action, chord_for,
}

abbrev pub Handler : Type 0
Handler = Exec HotkeyError HotkeyManager (Unit {0})

-- A modifier of the chord that is pressed or let go ends a recording of push-to-talk.
abbrev pub with_record_chord : Option (Option KeyChord) → Modifier → Handler
with_record_chord none key m = (err hotkey_state, m)
with_record_chord (some none) key m = (err key_error, m)
with_record_chord (some (some chord)) key m =
    if has_modifier key chord.modifiers
    then (ok tt, finish_recording (should_auto_send m) m)
    else (ok tt, m)

unfoldable pub handle_modifier : Modifier → KeyEvent → Handler
handle_modifier key e m =
    let m' = record m { pressed = set_modifier e.is_down key m.pressed } in
    if is_ptt m'.mode && is_recording m'.record_state
    then with_record_chord (chord_for (binding_for_action record_action m'.bindings) m'.chords) key
        m'
    else (ok tt, m')

-- A press of the record key that the debouncer has let through.
abbrev pub record_pressed : HotkeyManager → HotkeyManager
record_pressed m =
    if not (is_recording m.record_state)
    then emit_record_start m
    else if is_ptt m.mode
    then m
    else finish_recording (should_auto_send m) m

abbrev pub record_down : Bool × KeyDebouncer → HotkeyManager → HotkeyManager
record_down (true, d) m = record_pressed (record m { debouncer = d })
record_down (false, d) m = record m { debouncer = d }

abbrev pub record_up : HotkeyManager → HotkeyManager
record_up m =
    if is_ptt m.mode && is_recording m.record_state
    then finish_recording (should_auto_send m) m
    else m

abbrev pub handle_record : ℕ → Option (Option KeyChord) → KeyEvent → Handler
handle_record now none e m = (ok tt, m)
handle_record now (some none) e m = (err key_error, m)
handle_record now (some (some chord)) e m =
    if not (e.vk == chord.vk)
    then (ok tt, m)
    else if not (chord_matches_pressed chord m.pressed)
    then (ok tt, m)
    else if e.is_down
    then (ok tt, record_down (accept now chord.vk e.is_repeat m.debouncer) m)
    else (ok tt, record_up m)

abbrev pub record_key : ℕ → KeyEvent → Handler
record_key now e m =
    handle_record now (chord_for (binding_for_action record_action m.bindings) m.chords) e m

abbrev pub handle_cancel : ℕ → Option (Option KeyChord) → KeyEvent → Handler
handle_cancel now none e m = record_key now e m
handle_cancel now (some none) e m = (err key_error, m)
handle_cancel now (some (some chord)) e m =
    if e.vk == chord.vk && e.is_down && chord_matches_pressed chord m.pressed
    then (ok tt, emit_cancel m)
    else record_key now e m

abbrev pub handle_key : ℕ → Option Modifier → KeyEvent → Handler
handle_key now (some key) e m = handle_modifier key e m
handle_key now none e m =
    handle_cancel now (chord_for (binding_for_action cancel_action m.bindings) m.chords) e m

unfoldable pub handle_key_event : ℕ → KeyEvent → Handler
handle_key_event now e m = handle_key now (modifier_from_vk e.vk) e m
