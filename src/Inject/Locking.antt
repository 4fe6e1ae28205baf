-- ===== src/Inject/Locking.antt =====
-- The clipboard is a lock that all programs share: whoever opens it has to close it.
use app_stt_aio.Base.{
  Bool, Bool-cases, List, Option, false, inl, inr, nat_eq, refl, string_eq, suc, true, zero, ℕ, ◌*◌,
  ◌+◌, ◌==◌, ◌≡◌,
}
use app_stt_aio.Base.Result.{Result, ok, err, and_then, finally}
use app_stt_aio.Inject.{Text, Input, Fault, Windows, Inject}
use app_stt_aio.Inject.Keyboard.{all_sent}
use app_stt_aio.Inject.Clipboard.{
  send_ctrl_v, opened, try_open, with_clipboard, fill_clipboard, read_open, read_clipboard_backup,
  restore_emptied, restore_opened, try_restore, restore_clipboard, paste_via_clipboard,
}

-- The model takes it that `CloseClipboard` succeeds and lets go of the clipboard (the code ignores what it
-- returns). A failed `OpenClipboard`, key events and waiting do not take
-- it.
pub record IsLocking {W : Type 0} (os : Windows W) (is_open : W → Bool) : Type 0 where
  pub close_closed : (w : W) → is_open (os.close_clipboard w) ≡ false
  pub open_closed :
      (w : W)
      → is_open w ≡ false
      → (os.open_clipboard w).0 ≡ false
      → is_open (os.open_clipboard w).1 ≡ false
  pub send_closed :
      (es : List Input) (w : W) → is_open w ≡ false → is_open (os.send_input es w).1 ≡ false
  pub sleep_closed : (n : ℕ) (w : W) → is_open w ≡ false → is_open (os.sleep n w) ≡ false

module _ {W : Type 0} (is_open : W → Bool) where
  abbrev pub IsClosed : W → Type 0
  IsClosed w = is_open w ≡ false

  -- An error leaves the clipboard closed.
  abbrev FailsClosed : {A : Type 0} → Result Fault A × W → Type 0
  FailsClosed (ok a, w) = Unit {0}
  FailsClosed (err e, w) = IsClosed w

module _ {W : Type 0} (os : Windows W) (is_open : W → Bool) (law : IsLocking os is_open) where
  and_then-IsClosed :
      {A B : Type 0} (r : Result Fault A × W) (f : A → Inject W B)
      → IsClosed is_open r.1
      → ((a : A) (w : W) → IsClosed is_open w → IsClosed is_open (f a w).1)
      → IsClosed is_open (and_then r f).1
  and_then-IsClosed (ok a, w) f h k = k a w h
  and_then-IsClosed (err e, w) f h k = h

  -- What follows closes the clipboard itself.
  and_then-FailsClosed :
      {A B : Type 0} (r : Result Fault A × W) (f : A → Inject W B)
      → FailsClosed is_open r
      → ((a : A) (w : W) → IsClosed is_open (f a w).1)
      → IsClosed is_open (and_then r f).1
  and_then-FailsClosed (ok a, w) f h k = k a w
  and_then-FailsClosed (err e, w) f h k = h

  opened-FailsClosed :
      (retry : Inject W (Unit {0})) (attempt : ℕ) (r : Bool × W)
      → ((w : W) → IsClosed is_open w → FailsClosed is_open (retry w))
      → (r.0 ≡ false → IsClosed is_open r.1)
      → FailsClosed is_open (opened os retry attempt r)
  opened-FailsClosed retry attempt (true, w) k h = tt
  opened-FailsClosed retry attempt (false, w) k h = k _ (law.sleep_closed (50 * attempt) w (h refl))

  try_open-FailsClosed :
      (left attempt : ℕ) (w : W)
      → IsClosed is_open w
      → FailsClosed is_open (try_open os left attempt w)
  unfolding try_open
  try_open-FailsClosed zero attempt w h = h
  try_open-FailsClosed (suc left) attempt w h =
      opened-FailsClosed (try_open os left (attempt + 1)) attempt (os.open_clipboard w)
        (λ v k. try_open-FailsClosed left (attempt + 1) v k) (law.open_closed w h)

  with_clipboard-FailsClosed :
      (w : W) → IsClosed is_open w → FailsClosed is_open (with_clipboard os w)
  unfolding with_clipboard
  with_clipboard-FailsClosed = try_open-FailsClosed 3 1

  read_open-IsClosed :
      (r : Result Fault (Unit {0}) × W)
      → FailsClosed is_open r
      → IsClosed is_open (read_open os r).1
  read_open-IsClosed (ok _, w) h = law.close_closed _
  read_open-IsClosed (err e, w) h = h

  read_clipboard_backup-IsClosed :
      (w : W) → IsClosed is_open w → IsClosed is_open (read_clipboard_backup os w).1
  unfolding read_clipboard_backup
  read_clipboard_backup-IsClosed w h =
      read_open-IsClosed (with_clipboard os w) (with_clipboard-FailsClosed w h)

  module _ (retry : Inject W (Unit {0}))
      (again : (w : W) → IsClosed is_open w → IsClosed is_open (retry w).1) (left attempt : ℕ)
      (original : Option Text) where
    restore_emptied-IsClosed :
        (r : Bool × W) → IsClosed is_open (restore_emptied os retry left attempt original r).1
    restore_emptied-IsClosed (true, w) = law.close_closed _
    restore_emptied-IsClosed (false, w) = elim (Bool-cases (left == 0)) [
      | inl last ↦ rw last (law.close_closed w)
      | inr more ↦ rw more (again _ (law.close_closed _))
    ]

    restore_opened-IsClosed :
        (r : Result Fault (Unit {0}) × W)
        → FailsClosed is_open r
        → IsClosed is_open (restore_opened os retry left attempt original r).1
    restore_opened-IsClosed (ok _, w) h = restore_emptied-IsClosed (os.empty_clipboard w)
    restore_opened-IsClosed (err e, w) h = elim (Bool-cases (left == 0)) [
      | inl last ↦ rw last h
      | inr more ↦ rw more (again _ (law.sleep_closed (50 * attempt) w h))
    ]

  try_restore-IsClosed :
      (left attempt : ℕ) (original : Option Text) (w : W)
      → IsClosed is_open w
      → IsClosed is_open (try_restore os left attempt original w).1
  unfolding try_restore
  try_restore-IsClosed zero attempt original w h = h
  try_restore-IsClosed (suc left) attempt original w h =
      restore_opened-IsClosed (try_restore os left (attempt + 1) original)
        (λ v k. try_restore-IsClosed left (attempt + 1) original v k) left attempt original
        (with_clipboard os w) (with_clipboard-FailsClosed w h)

  all_sent-IsClosed :
      (n : ℕ) (r : ℕ × W) → IsClosed is_open r.1 → IsClosed is_open (all_sent os n r).1
  all_sent-IsClosed n (sent, w) h = elim (Bool-cases (sent == n)) [
    | inl all ↦ rw all h
    | inr lost ↦ rw lost h
  ]

  send_ctrl_v-IsClosed : (w : W) → IsClosed is_open w → IsClosed is_open (send_ctrl_v os w).1
  unfolding send_ctrl_v
  send_ctrl_v-IsClosed w h = all_sent-IsClosed 4 _ (law.send_closed _ w h)

  -- If `CloseClipboard` lets go of the clipboard, a paste that starts with the clipboard closed ends
  -- with it closed, whichever of the other calls of the operating system fail and whether or not the
  -- paste raises.
  pub paste_via_clipboard-IsClosed :
      (t : Text) (w : W) → IsClosed is_open w → IsClosed is_open (paste_via_clipboard os t w).1
  unfolding paste_via_clipboard restore_clipboard
  paste_via_clipboard-IsClosed t w h =
      let closed = read_clipboard_backup-IsClosed w h in
      and_then-FailsClosed (with_clipboard os (read_clipboard_backup os w).1) _
        (with_clipboard-FailsClosed _ closed)
        (λ _ v.
          and_then-IsClosed (finally os.close_clipboard (fill_clipboard os t v)) _
            (law.close_closed _)
            (λ _ u k. and_then-IsClosed (send_ctrl_v os u) _ (send_ctrl_v-IsClosed u k) (λ _ x l.
              try_restore-IsClosed 3 1 (read_clipboard_backup os w).0 _ (law.sleep_closed 50 x l))))
