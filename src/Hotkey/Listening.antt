-- ===== src/Hotkey/Listening.antt =====
-- The signals of whole runs of a hotkey manager.
use app_stt_aio.Base.{
  Bool, Bool-cases, List, Option, String, [], false, if◌then◌else◌, inl, inr, nat_eq, none, not,
  some, string_eq, true, ℕ, ◌&&◌, ◌∷◌, ◌≡◌, refl, suc, zero, ◌==◌,
}
use app_stt_aio.Base.Result.{Result}
use app_stt_aio.Hotkey.Binding.{
  Modifier, KeyChord, has_modifier, chord_matches_pressed, modifier_from_vk,
}
use app_stt_aio.Hotkey.Debounce.{KeyDebouncer, accept}
use app_stt_aio.Hotkey.Manager.{
  HotkeyError, HotkeyManager, HotkeyMode, HotkeyBinding, HotkeyConfig, KeyEvent, is_recording,
  is_ptt, should_auto_send, set_mode, register, unregister, apply_config, attempt, start,
}
use app_stt_aio.Hotkey.Keys.{
  with_record_chord, handle_modifier, record_pressed, record_down, record_up, handle_record,
  handle_cancel, handle_key, handle_key_event,
}
use app_stt_aio.Hotkey.Signals.{
  IsHeard, choose, finish_recording-IsHeard, emit_record_start-IsHeard, emit_cancel-IsHeard,
  set_mode-IsHeard, register-IsHeard, apply_config-IsHeard,
}

-- The operations between a start and a stop.
pub data Operation : Type 0 where
  key_event : ℕ → KeyEvent → Operation
  change_mode : HotkeyMode → Operation
  add_binding : (KeyChord → Bool) → HotkeyBinding → Operation
  drop_binding : String → Operation
  configure : (KeyChord → Bool) → HotkeyConfig → Operation
  launch : Bool → ℕ → List Bool → Operation

-- An operation that raises leaves the state it has made so far.
unfoldable pub operate : Operation → HotkeyManager → HotkeyManager
operate (key_event now e) m = (handle_key_event now e m).1
operate (change_mode mode) m = set_mode mode m
operate (add_binding test b) m = (register test b m).1
operate (drop_binding id) m = unregister id m
operate (configure test c) m = apply_config test c m
operate (launch bench max_attempts ready) m = (start bench max_attempts ready m).1

unfoldable pub operate_all : List Operation → HotkeyManager → HotkeyManager
operate_all [] m = m
operate_all (o ∷ os) m = operate_all os (operate o m)

choose_exec :
    (c : Bool) (r s : Result HotkeyError (Unit {0}) × HotkeyManager)
    → IsHeard r.1
    → IsHeard s.1
    → IsHeard (if c then r else s).1
choose_exec true r s h k = h
choose_exec false r s h k = k

and_right : (a b : Bool) → (a && b) ≡ true → b ≡ true
and_right true b h = h
and_right false b h = absurd (cc)

not-true : (b : Bool) → not b ≡ true → b ≡ false
not-true false h = refl
not-true true h = absurd (cc)

not-false : (b : Bool) → not b ≡ false → b ≡ true
not-false true h = refl
not-false false h = absurd (cc)

-- Key events.
with_record_chord-IsHeard :
    (o : Option (Option KeyChord)) (key : Modifier) (m : HotkeyManager)
    → is_recording m.record_state ≡ true
    → IsHeard m
    → IsHeard (with_record_chord o key m).1
with_record_chord-IsHeard none key m r h = h
with_record_chord-IsHeard (some none) key m r h = h
with_record_chord-IsHeard (some (some chord)) key m r h =
    elim (Bool-cases (has_modifier key chord.modifiers)) [
      | inl held ↦ rw held (finish_recording-IsHeard (should_auto_send m) m r h)
      | inr other ↦ rw other h
    ]

handle_modifier-IsHeard :
    (key : Modifier) (e : KeyEvent) (m : HotkeyManager)
    → IsHeard m
    → IsHeard (handle_modifier key e m).1
unfolding handle_modifier
handle_modifier-IsHeard key e m h =
    elim (Bool-cases (is_ptt m.mode && is_recording m.record_state)) [
      | inl both ↦ rw both (with_record_chord-IsHeard _ key _ (and_right (is_ptt m.mode) _ both) h)
      | inr other ↦ rw other h
    ]

record_pressed-IsHeard : (m : HotkeyManager) → IsHeard m → IsHeard (record_pressed m)
record_pressed-IsHeard m h =
    choose (not (is_recording m.record_state)) _ _
      (λ r. emit_record_start-IsHeard m (not-true _ r) h)
      (λ r.
        choose (is_ptt m.mode) _ _ (λ _. h)
          (λ _. finish_recording-IsHeard (should_auto_send m) m (not-false _ r) h))

record_down-IsHeard :
    (r : Bool × KeyDebouncer) (m : HotkeyManager) → IsHeard m → IsHeard (record_down r m)
record_down-IsHeard (true, d) m h = record_pressed-IsHeard _ h
record_down-IsHeard (false, d) m h = h

record_up-IsHeard : (m : HotkeyManager) → IsHeard m → IsHeard (record_up m)
record_up-IsHeard m h =
    choose (is_ptt m.mode && is_recording m.record_state) _ _
      (λ both. finish_recording-IsHeard (should_auto_send m) m (and_right (is_ptt m.mode) _ both) h)
      (λ _. h)

handle_record-IsHeard :
    (now : ℕ) (o : Option (Option KeyChord)) (e : KeyEvent) (m : HotkeyManager)
    → IsHeard m
    → IsHeard (handle_record now o e m).1
handle_record-IsHeard now none e m h = h
handle_record-IsHeard now (some none) e m h = h
handle_record-IsHeard now (some (some chord)) e m h = choose_exec (not (e.vk == chord.vk)) _ _ h (
    choose_exec (not (chord_matches_pressed chord m.pressed)) _ _ h (
      choose_exec e.is_down _ _
        (record_down-IsHeard (accept now chord.vk e.is_repeat m.debouncer) m h)
        (record_up-IsHeard m h)))

handle_cancel-IsHeard :
    (now : ℕ) (o : Option (Option KeyChord)) (e : KeyEvent) (m : HotkeyManager)
    → IsHeard m
    → IsHeard (handle_cancel now o e m).1
handle_cancel-IsHeard now none e m h = handle_record-IsHeard now _ e m h
handle_cancel-IsHeard now (some none) e m h = h
handle_cancel-IsHeard now (some (some chord)) e m h =
    choose_exec (e.vk == chord.vk && e.is_down && chord_matches_pressed chord m.pressed) _ _
      (emit_cancel-IsHeard m h) (handle_record-IsHeard now _ e m h)

handle_key-IsHeard :
    (now : ℕ) (o : Option Modifier) (e : KeyEvent) (m : HotkeyManager)
    → IsHeard m
    → IsHeard (handle_key now o e m).1
handle_key-IsHeard now (some key) e m h = handle_modifier-IsHeard key e m h
handle_key-IsHeard now none e m h = handle_cancel-IsHeard now _ e m h

attempt-IsHeard :
    (n : ℕ) (ready : List Bool) (m : HotkeyManager) → IsHeard m → IsHeard (attempt n ready m).1
attempt-IsHeard zero ready m h = h
attempt-IsHeard (suc n) [] m h = attempt-IsHeard n [] _ h
attempt-IsHeard (suc n) (true ∷ ready) m h = h
attempt-IsHeard (suc n) (false ∷ ready) m h = attempt-IsHeard n ready _ h

operate-IsHeard : (o : Operation) (m : HotkeyManager) → IsHeard m → IsHeard (operate o m)
unfolding operate handle_key_event unregister start
operate-IsHeard (key_event now e) m h = handle_key-IsHeard now (modifier_from_vk e.vk) e m h
operate-IsHeard (change_mode mode) m h = set_mode-IsHeard mode m h
operate-IsHeard (add_binding test b) m h = register-IsHeard test b m h
operate-IsHeard (drop_binding id) m h = h
operate-IsHeard (configure test c) m h = apply_config-IsHeard test c m h
operate-IsHeard (launch bench max_attempts ready) m h =
    choose_exec m.started _ _ h (choose_exec bench _ _ h (attempt-IsHeard _ ready m h))

-- Whatever key events, changes of mode, bindings and settings come, in any order and as long as the
-- manager is not stopped, a listener that agreed with its state before never hears a start during a
-- recording or an end without one, and agrees with its state at the end.
pub operate_all-IsHeard :
    (os : List Operation) (m : HotkeyManager) → IsHeard m → IsHeard (operate_all os m)
unfolding operate_all
operate_all-IsHeard [] m h = h
operate_all-IsHeard (o ∷ os) m h = operate_all-IsHeard os (operate o m) (operate-IsHeard o m h)
