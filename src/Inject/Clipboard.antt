-- ===== src/Inject/Clipboard.antt =====
-- core/inject/clipboard_input.py; the waits are in milliseconds.
use app_stt_aio.Base.{
  Bool, List, Option, [], false, if◌then◌else◌, none, some, suc, true, zero, ℕ, ◌*◌, ◌++◌, ◌+◌, ◌∷◌,
  nat_eq, string_eq, ◌==◌,
}
use app_stt_aio.Base.Result.{Result, ok, err, ◌>>=◌, ◌>>◌, finally, pure}
use app_stt_aio.Inject.{
  Text, Fault, clipboard_busy, injection_failed, unicode_encode_error, Windows, Inject,
}
use app_stt_aio.Inject.Encoding.{text_to_utf16_units}
use app_stt_aio.Inject.Keyboard.{vk_event, all_sent}

module _ {W : Type 0} (os : Windows W) where
  unfoldable pub send_ctrl_v : Inject W (Unit {0})
  send_ctrl_v w = all_sent os 4 (
      os.send_input
        (vk_event 0x11 false ∷ vk_event 0x56 false ∷ vk_event 0x56 true ∷ vk_event 0x11 true ∷ [])
        w)

  -- The attempts left to open the clipboard, and the number of the next.
  abbrev pub opened : (W → Result Fault (Unit {0}) × W) → ℕ → Bool × W → Result Fault (Unit {0}) × W
  opened retry attempt (true, w) = (ok tt, w)
  opened retry attempt (false, w) = retry (os.sleep (50 * attempt) w)

  unfoldable pub try_open : ℕ → ℕ → Inject W (Unit {0})
  try_open zero attempt w = (err clipboard_busy, w)
  try_open (suc left) attempt w = opened (try_open left (attempt + 1)) attempt (os.open_clipboard w)

  -- `_with_clipboard`
  unfoldable pub with_clipboard : Inject W (Unit {0})
  unfolding try_open
  with_clipboard = try_open 3 1

  -- A call of the operating system that says whether it succeeded.
  abbrev pub must : Bool × W → Result Fault (Unit {0}) × W
  must (done, w) = if done then (ok tt, w) else (err injection_failed, w)

  abbrev pub set_units : Option (List ℕ) → W → Result Fault Bool × W
  set_units none w = (err unicode_encode_error, w)
  set_units (some us) w = let (done, w') = os.set_clipboard_units us w in (ok done, w')

  -- The text and the zero character after it are encoded.
  unfoldable pub set_clipboard_text : Text → Inject W Bool
  set_clipboard_text t w = set_units (text_to_utf16_units (t ++ 0 ∷ [])) w

  unfoldable pub fill_clipboard : Text → Inject W (Unit {0})
  unfolding set_clipboard_text
  fill_clipboard t = do
    λ w. must (os.empty_clipboard w)
    done ← set_clipboard_text t
    λ w. must (done, w)

  abbrev pub read_open : Result Fault (Unit {0}) × W → Option Text × W
  read_open (err e, w) = (none, w)
  read_open (ok _, w) = let (found, w') = os.get_clipboard_text w in (found, os.close_clipboard w')

  unfoldable pub read_clipboard_backup : W → Option Text × W
  unfolding with_clipboard
  read_clipboard_backup w = read_open (with_clipboard w)

  abbrev pub put_back : Option Text → Inject W (Unit {0})
  put_back none w = (ok tt, w)
  put_back (some t) w = (set_clipboard_text t >>= λ _. pure tt) w

  -- `_restore_clipboard`: the attempts left, the number of this one, and what the next one does.
  abbrev pub restore_emptied :
      Inject W (Unit {0}) → ℕ → ℕ → Option Text → Bool × W → Result Fault (Unit {0}) × W
  restore_emptied retry left attempt original (true, w) =
      finally os.close_clipboard (put_back original w)
  restore_emptied retry left attempt original (false, w) =
      if left == 0
      then (ok tt, os.close_clipboard w)
      else retry (os.close_clipboard (os.sleep (50 * attempt) (os.close_clipboard w)))

  abbrev pub restore_opened :
      Inject W (Unit {0})
      → ℕ
      → ℕ
      → Option Text
      → Result Fault (Unit {0}) × W
      → Result Fault (Unit {0}) × W
  restore_opened retry left attempt original (err e, w) =
      if left == 0 then (ok tt, w) else retry (os.sleep (50 * attempt) w)
  restore_opened retry left attempt original (ok _, w) =
      restore_emptied retry left attempt original (os.empty_clipboard w)

  unfoldable pub try_restore : ℕ → ℕ → Option Text → Inject W (Unit {0})
  try_restore zero attempt original w = (ok tt, w)
  try_restore (suc left) attempt original w =
      restore_opened (try_restore left (attempt + 1) original) left attempt original
        (with_clipboard w)

  unfoldable pub restore_clipboard : Option Text → Inject W (Unit {0})
  restore_clipboard original = try_restore 3 1 original

  unfoldable pub paste_via_clipboard : Text → Inject W (Unit {0})
  paste_via_clipboard t w =
      let (backup, w') = read_clipboard_backup w in
      (do
        with_clipboard
        λ v. finally os.close_clipboard (fill_clipboard t v)
        send_ctrl_v
        λ v. (ok tt, os.sleep 50 v)
        restore_clipboard backup)
        w'
