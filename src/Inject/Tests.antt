-- ===== src/Inject/Tests.antt =====
-- Tests of the injection, on a system that takes every key event and lends its clipboard at once.
use app_stt_aio.Base.{
  Bool, List, [], arith, false, if◌then◌else◌, length, nat_eq, none, refl, some, string_eq, true, ℕ,
  ◌&&◌, ◌++◌, ◌==◌, ◌∷◌, ◌≡◌, join,
}
use app_stt_aio.Base.Result.{pure, ◌>>◌}
use app_stt_aio.Inject.{Text, unicode, InjectOptions, Input, Windows}
use app_stt_aio.Inject.Encoding.{
  text_to_utf16_units, units_of, decode_from, decode-text_to_utf16_units,
}
use app_stt_aio.Inject.Keyboard.{unit_events, send_unicode_text, send_chunks, chunks_of}
use app_stt_aio.Inject.Clipboard.{paste_via_clipboard}
use app_stt_aio.Inject.Injector.{Injector, inject}
use app_stt_aio.Inject.Realtime.{RealtimeInjector, inject_partial, after}
use app_stt_aio.Inject.Chunks.{AreChunks}
use app_stt_aio.Inject.Typed.{take, IsTyping, Types, send_unicode_text-Types}
use app_stt_aio.Inject.Locking.{IsLocking, IsClosed, paste_via_clipboard-IsClosed}
use app_stt_aio.Inject.Partial.{HasFailedOn, inject_partial-HasFailedOn}
use app_stt_aio.Inject.Outcomes.{IsOutcome, inject-IsOutcome}

record Desktop : Type 0 where
  stream : List Input
  locked : Bool

-- Enter alone is refused: a press of it comes as two events.
abbrev taken : Bool → List Input → ℕ
taken stubborn [] = 0
taken stubborn (e ∷ es) = if stubborn && e.vk_code == 0x0d then 0 else length (e ∷ es)

abbrev desktop : Bool → Windows Desktop
desktop stubborn = record {
  send_input =
      λ es w. (taken stubborn es, record w { stream = w.stream ++ take (taken stubborn es) es });
  open_clipboard = λ w. (true, record w { locked = true });
  close_clipboard = λ w. record w { locked = false };
  empty_clipboard = λ w. (true, w);
  get_clipboard_text = λ w. (some [], w);
  set_clipboard_units = λ us w. (true, w);
  get_foreground_window = λ w. (7, w);
  sleep = λ n w. w;
}

abbrev fresh : Desktop
fresh = record { stream = []; locked = false }

abbrev options : InjectOptions
options = record {
  press_enter = true;
  per_char_delay_ms = 0;
  length_threshold = 500;
  unicode_fallback_to_clipboard = true;
  target_check = true;
  allow_replacement = true;
}

abbrev injector : Injector
injector = record { default_method = unicode; threshold = 500; enter = false; fallback = true }

-- The letter a and a character outside the first plane.
abbrev two_chars : Text
two_chars = 0x61 ∷ 0x1f600 ∷ []

abbrev two_chars_units : List ℕ
two_chars_units = 0x61 ∷ 0xd83d ∷ 0xde00 ∷ []

decode-text_to_utf16_units_example : decode_from two_chars_units none ≡ some two_chars
unfolding text_to_utf16_units units_of
decode-text_to_utf16_units_example =
    decode-text_to_utf16_units two_chars two_chars_units (omega arith, (omega arith, tt)) refl

typing : IsTyping (desktop false) (λ w. w.stream)
typing = record { sent_typed = λ es w. refl; sleep_typed = λ n w. refl }

send_unicode_text-Types_example :
    (send_unicode_text (desktop false) two_chars 0
      ≡ (send_chunks (desktop false) 0 (chunks_of two_chars_units) >> pure (length two_chars)))
    × AreChunks 64 (chunks_of two_chars_units)
    × (join (chunks_of two_chars_units) ≡ two_chars_units)
    × Types
        (λ w. w.stream)
        (send_unicode_text (desktop false) two_chars 0)
        (unit_events two_chars_units)
unfolding text_to_utf16_units units_of
send_unicode_text-Types_example =
    send_unicode_text-Types (desktop false) (λ w. w.stream) typing two_chars two_chars_units 0 refl

locking : IsLocking (desktop false) (λ w. w.locked)
locking = record {
  close_closed = λ w. refl;
  open_closed = λ w h k. absurd (cc);
  send_closed = λ es w h. h;
  sleep_closed = λ n w h. h;
}

paste_via_clipboard-IsClosed_example :
    IsClosed (λ w. w.locked) (paste_via_clipboard (desktop false) two_chars fresh).1
paste_via_clipboard-IsClosed_example =
    paste_via_clipboard-IsClosed (desktop false) (λ w. w.locked) locking two_chars fresh refl

inject-IsOutcome_example :
    IsOutcome two_chars (inject (desktop true) injector two_chars none (some options) fresh)
inject-IsOutcome_example =
    inject-IsOutcome (desktop true) injector two_chars none (some options) fresh

abbrev partial : RealtimeInjector
partial = record { injector = injector; options = options; last_text = 0x61 ∷ [] }

inject_partial-HasFailedOn_example :
    HasFailedOn partial (inject_partial (desktop false) partial two_chars false fresh)
unfolding after
inject_partial-HasFailedOn_example =
    inject_partial-HasFailedOn (desktop false) partial two_chars (0x1f600 ∷ []) false fresh refl
      refl refl
