-- ===== src/Hotkey/Repeats.antt =====
-- What the debouncer does for a repeated press that comes late.
use app_stt_aio.Base.{
  ap, arith, false, if◌then◌else◌, nat_eq, not, string_eq, true, ℕ, ◌+◌, ◌≡◌, ◌≤◌, Option, none,
  refl, some, ◌&&◌, ◌==◌, Bool-cases, inl, inr, subst,
}
use app_stt_aio.Base.Dict.{lookup}
use app_stt_aio.Hotkey.Debounce.{KeyDebouncer, accept, last_or_zero}
use app_stt_aio.Hotkey.Manager.{HotkeyManager, KeyEvent, emit_cancel}
use app_stt_aio.Base.Result.{ok}
use app_stt_aio.Hotkey.Binding.{Modifier, KeyChord, chord_matches_pressed, modifier_from_vk}
use app_stt_aio.Hotkey.Keys.{
  handle_key_event, handle_modifier, handle_key, handle_cancel, handle_record, record_down,
  record_up,
}

-- The key was not accepted within the interval before this time.
unfoldable pub IsOld : ℕ → ℕ → KeyDebouncer → Type 0
IsOld now key d = last_or_zero (lookup key d.last_accepted) + d.interval_ms ≤ now

accept-repeat :
    (now key : ℕ) (d : KeyDebouncer)
    → IsOld now key d
    → accept now key true d ≡ accept now key false d
unfolding accept IsOld
accept-repeat now key d h = ground (arith, h)

module _ (now : ℕ) (e : KeyEvent) (m : HotkeyManager) (h : IsOld now e.vk m.debouncer) where
  abbrev repeated : KeyEvent
  repeated = record e { is_repeat = true }

  abbrev fresh : KeyEvent
  fresh = record e { is_repeat = false }

  handle_record-repeat :
      (o : Option (Option KeyChord)) → handle_record now o repeated m ≡ handle_record now o fresh m
  handle_record-repeat none = refl
  handle_record-repeat (some none) = refl
  handle_record-repeat (some (some chord)) = elim (Bool-cases (e.vk == chord.vk)) [
    | inr other ↦ rw other refl
    | inl same ↦ rw same (
        ap
          (λ r.
            if not (chord_matches_pressed chord m.pressed)
            then (ok tt, m)
            else if e.is_down
            then (ok tt, record_down r m)
            else (ok tt, record_up m))
          (accept-repeat now chord.vk m.debouncer
            (subst (λ key. IsOld now key m.debouncer) ((nat_eq.beq_iff e.vk chord.vk).0 same) h)))
  ]

  handle_cancel-repeat :
      (o : Option (Option KeyChord)) → handle_cancel now o repeated m ≡ handle_cancel now o fresh m
  handle_cancel-repeat none = handle_record-repeat _
  handle_cancel-repeat (some none) = refl
  handle_cancel-repeat (some (some chord)) =
      ap
        (λ r.
          if e.vk == chord.vk && e.is_down && chord_matches_pressed chord m.pressed
          then (ok tt, emit_cancel m)
          else r)
        (handle_record-repeat _)

  handle_key-repeat : (o : Option Modifier) → handle_key now o repeated m ≡ handle_key now o fresh m
  unfolding handle_modifier
  handle_key-repeat none = handle_cancel-repeat _
  handle_key-repeat (some key) = refl

-- A repeated press of a key that comes at least the interval after that key was last accepted, or
-- after time 0 if it never was, is handled as a new press in every state.
pub handle_key_event-repeat :
    (now : ℕ) (e : KeyEvent) (m : HotkeyManager)
    → IsOld now e.vk m.debouncer
    → handle_key_event now (record e { is_repeat = true }) m
      ≡ handle_key_event now (record e { is_repeat = false }) m
unfolding handle_key_event
handle_key_event-repeat now e m h = handle_key-repeat now e m h (modifier_from_vk e.vk)
