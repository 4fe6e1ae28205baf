-- ===== src/Hotkey/Tests.antt =====
-- Tests of the hotkeys.
use app_stt_aio.Base.{[], arith, false, nat_eq, refl, string_eq, true, ◌∷◌, ◌≡◌}
use app_stt_aio.Base.Dict.{lookup}
use app_stt_aio.Hotkey.Binding.{no_modifiers, KeyChord}
use app_stt_aio.Hotkey.Manager.{HotkeyManager, KeyEvent, ptt, toggle, idle, record_binding}
use app_stt_aio.Hotkey.Keys.{handle_key_event}
use app_stt_aio.Hotkey.Repeats.{IsOld, handle_key_event-repeat}
use app_stt_aio.Hotkey.Signals.{IsHeard, replay}
use app_stt_aio.Hotkey.Listening.{key_event, change_mode, operate_all, operate_all-IsHeard}

abbrev space_chord : KeyChord
space_chord = record { modifiers = no_modifiers; key_name = "space"; vk = 0x20 }

-- The space bar records, by push-to-talk.
abbrev space_manager : HotkeyManager
space_manager = record {
  debouncer = record { interval_ms = 50; last_accepted = [] };
  auto_send_enabled = false;
  mode = ptt;
  record_state = idle;
  bindings = ("record", record_binding ptt "space") ∷ [];
  chords = ("record", space_chord) ∷ [];
  pressed = no_modifiers;
  started = true;
  hooked = true;
  signals = [];
}

abbrev space_down : KeyEvent
space_down = record { vk = 0x20; is_down = true; is_repeat = false }

abbrev space_up : KeyEvent
space_up = record { vk = 0x20; is_down = false; is_repeat = false }

operate_all-IsHeard_example : IsHeard (
    operate_all
      (key_event 1000 space_down ∷ change_mode toggle ∷ key_event 1200 space_up ∷ [])
      space_manager)
unfolding replay
operate_all-IsHeard_example =
    operate_all-IsHeard
      (key_event 1000 space_down ∷ change_mode toggle ∷ key_event 1200 space_up ∷ []) space_manager
      refl

none_accepted : IsOld 1000 space_down.vk space_manager.debouncer
unfolding IsOld lookup
none_accepted = omega arith

handle_key_event-repeat_example :
    handle_key_event 1000 (record space_down { is_repeat = true }) space_manager
    ≡ handle_key_event 1000 (record space_down { is_repeat = false }) space_manager
handle_key_event-repeat_example =
    handle_key_event-repeat 1000 space_down space_manager none_accepted
