-- ===== src/Inject/Keyboard.antt =====
-- core/inject/unicode_input.py and foreground.py.
use app_stt_aio.Base.{
  Bool, List, [], false, suc, true, zero, ℕ, ◌∷◌, Option, if◌then◌else◌, length, ltb, nat_eq, none,
  some, string_eq, ◌*◌, ◌==◌,
}
use app_stt_aio.Base.Result.{Result, ok, err, pure, raise, ◌>>◌}
use app_stt_aio.Inject.{
  Text, Fault, injection_failed, no_foreground_window, type_error, unicode_encode_error, Input,
  Windows, Inject,
}
use app_stt_aio.Inject.Encoding.{text_to_utf16_units}

-- What a caller hands over as a number: a number (a negative one does what 0 does), or a text.
pub data Number : Type 0 where
  number : ℕ → Number
  text : Text → Number

unfoldable pub keyboard_event : ℕ → Bool → Input
keyboard_event scan_code key_up = record {
  vk_code = 0;
  scan_code = scan_code;
  is_unicode = true;
  key_up = key_up;
}

abbrev pub vk_event : ℕ → Bool → Input
vk_event vk key_up = record { vk_code = vk; scan_code = 0; is_unicode = false; key_up = key_up }

unfoldable pub build_vk_events : ℕ → ℕ → List Input
build_vk_events vk zero = []
build_vk_events vk (suc n) = vk_event vk false ∷ vk_event vk true ∷ build_vk_events vk n

-- The events of a chunk of units.
unfoldable pub unit_events : List ℕ → List Input
unit_events [] = []
unit_events (u ∷ us) = keyboard_event u false ∷ keyboard_event u true ∷ unit_events us

-- The chunks of `_UNICODE_CHUNK_SIZE` (64) units: the units that the chunk at the front still has room
-- for, and the chunks after it.
unfoldable pub split_units : ℕ → List ℕ → List ℕ × List (List ℕ)
split_units room [] = ([], [])
split_units zero (u ∷ us) = let (c, cs) = split_units 63 us in ([], (u ∷ c) ∷ cs)
split_units (suc room) (u ∷ us) = let (c, cs) = split_units room us in (u ∷ c, cs)

abbrev pub chunks_of : List ℕ → List (List ℕ)
chunks_of us = (split_units 0 us).1

module _ {W : Type 0} (os : Windows W) where
  abbrev pub all_sent : ℕ → ℕ × W → Result Fault (Unit {0}) × W
  all_sent n (sent, w) = if sent == n then (ok tt, w) else (err injection_failed, w)

  unfoldable pub send_events : List Input → Inject W (Unit {0})
  send_events [] w = (ok tt, w)
  send_events (e ∷ es) w = all_sent (length (e ∷ es)) (os.send_input (e ∷ es) w)

  unfoldable pub send_backspaces : Number → Inject W (Unit {0})
  send_backspaces (text t) = raise type_error
  send_backspaces (number zero) = pure tt
  send_backspaces (number (suc n)) = send_events (build_vk_events 0x08 (suc n))

  unfoldable pub send_enter : Inject W (Unit {0})
  send_enter = send_events (build_vk_events 0x0d 1)

  abbrev pub pause : ℕ → Inject W (Unit {0})
  pause n w = if ltb 0 n then (ok tt, os.sleep n w) else (ok tt, w)

  unfoldable pub send_chunks : ℕ → List (List ℕ) → Inject W (Unit {0})
  send_chunks delay [] = pure tt
  send_chunks delay (c ∷ cs) = do
    send_events (unit_events c)
    pause (delay * length c)
    send_chunks delay cs

  abbrev pub send_units : ℕ → Option (List ℕ) → Inject W (Unit {0})
  send_units delay none = raise unicode_encode_error
  send_units delay (some us) = send_chunks delay (chunks_of us)

  unfoldable pub send_unicode_text : Text → ℕ → Inject W ℕ
  send_unicode_text [] delay = pure 0
  send_unicode_text (c ∷ t) delay = do
    send_units delay (text_to_utf16_units (c ∷ t))
    pure (length (c ∷ t))

  abbrev pub window_found : ℕ × W → Result Fault (Unit {0}) × W
  window_found (hwnd, w) = if hwnd == 0 then (err no_foreground_window, w) else (ok tt, w)

  unfoldable pub ensure_foreground_window : Inject W (Unit {0})
  ensure_foreground_window w = window_found (os.get_foreground_window w)
