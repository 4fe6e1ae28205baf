-- ===== src/Inject/Typed.antt =====
-- What the key events type: the chunks of a text leave no trace.
use mathlib.Core.List.{append-nil, append_assoc}
use app_stt_aio.Base.Dict.{some_inj}
use app_stt_aio.Base.Result.{Result, ok, err, pure, and_then, ◌>>=◌, ◌>>◌}
use app_stt_aio.Inject.{Text, Input, Fault, Windows, Inject}
use app_stt_aio.Inject.Chunks.{AreChunks, join-chunks_of, chunks_of-AreChunks}
use app_stt_aio.Inject.Encoding.{text_to_utf16_units}
use app_stt_aio.Inject.Keyboard.{
  unit_events, split_units, chunks_of, all_sent, send_events, pause, send_chunks, send_units,
  send_unicode_text,
}
use app_stt_aio.Base.{
  List, [], join, refl, suc, zero, ℕ, ◌++◌, ◌∷◌, ◌≡◌, ap, length, some, subst, sym, ◌∙◌, Bool-cases,
  inl, inr, ltb, nat_eq, none, string_eq, ◌*◌, ◌==◌, Option,
}

-- The first n of a list.
unfoldable pub take {ℓ} : {A : Type ℓ} → ℕ → List A → List A
take zero xs = []
take (suc n) [] = []
take (suc n) (x ∷ xs) = x ∷ take n xs

-- `SendInput` inserts the first of the events it is given into the stream of input, and says how many.
-- `typed` is that stream; waiting does not change it.
pub record IsTyping {W : Type 0} (os : Windows W) (typed : W → List Input) : Type 0 where
  pub sent_typed :
      (es : List Input) (w : W)
      → typed (os.send_input es w).1 ≡ typed w ++ take (os.send_input es w).0 es
  pub sleep_typed : (n : ℕ) (w : W) → typed (os.sleep n w) ≡ typed w

take-IsPrefix {ℓ} : {A : Type ℓ} (n : ℕ) (xs : List A) → (q : List A) × (take n xs ++ q ≡ xs)
unfolding take
take-IsPrefix zero xs = (xs, refl)
take-IsPrefix (suc n) [] = ([], refl)
take-IsPrefix (suc n) (x ∷ xs) = let (q, h) = take-IsPrefix n xs in (q, ap (λ ys. x ∷ ys) h)

take-length {ℓ} : {A : Type ℓ} (xs : List A) → take (length xs) xs ≡ xs
unfolding take
take-length [] = refl
take-length (x ∷ xs) = cc (take-length xs)

unit_events-append : (us vs : List ℕ) → unit_events (us ++ vs) ≡ unit_events us ++ unit_events vs
unfolding unit_events
unit_events-append [] vs = refl
unit_events-append (u ∷ us) vs = cc (unit_events-append us vs)

module _ {W : Type 0} (typed : W → List Input) where
  -- What a step has typed after a stream of input: all of the events, or some first ones and an error.
  abbrev pub HasTyped : {A : Type 0} → List Input → List Input → Result Fault A × W → Type 0
  HasTyped before es (ok a, w) = typed w ≡ before ++ es
  HasTyped before es (err e, w) =
      (p : List Input) × (q : List Input) × (typed w ≡ before ++ p) × (p ++ q ≡ es)

  abbrev pub Types : {A : Type 0} → Inject W A → List Input → Type 0
  Types m es = (w : W) → HasTyped (typed w) es (m w)

module _ {W : Type 0} (os : Windows W) (typed : W → List Input) (law : IsTyping os typed) where
  pure-Types : {A : Type 0} (a : A) → Types typed (pure a) []
  pure-Types a w = sym (append-nil _)

  -- The same from a longer stream.
  shift-HasTyped :
      {A : Type 0} (before es fs : List Input) (r : Result Fault A × W)
      → HasTyped typed (before ++ es) fs r
      → HasTyped typed before (es ++ fs) r
  shift-HasTyped before es fs (ok a, w) h = h ∙ append_assoc before es fs
  shift-HasTyped before es fs (err e, w) (p, q, here, rest) =
      (es ++ p, q, here ∙ append_assoc before es p, append_assoc es p q ∙ ap (λ x. es ++ x) rest)

  and_then-HasTyped :
      {A B : Type 0} (r : Result Fault A × W) (f : A → Inject W B) (before es fs : List Input)
      → HasTyped typed before es r
      → ((a : A) → Types typed (f a) fs)
      → HasTyped typed before (es ++ fs) (and_then r f)
  and_then-HasTyped (err e, w) f before es fs h k =
      let (p, q, here, rest) = h in
      (p, q ++ fs, here, sym (append_assoc p q fs) ∙ ap (λ x. x ++ fs) rest)
  and_then-HasTyped (ok a, w) f before es fs h k =
      shift-HasTyped before es fs (f a w) (subst (λ x. HasTyped typed x fs (f a w)) h (k a w))

  bind-Types :
      {A B : Type 0} (m : Inject W A) (f : A → Inject W B) (es fs : List Input)
      → Types typed m es
      → ((a : A) → Types typed (f a) fs)
      → Types typed (m >>= f) (es ++ fs)
  bind-Types m f es fs h k w = and_then-HasTyped (m w) f (typed w) es fs (h w) k

  all_sent-HasTyped :
      (before es : List Input) (r : ℕ × W)
      → typed r.1 ≡ before ++ take r.0 es
      → HasTyped typed before es (all_sent os (length es) r)
  all_sent-HasTyped before es (n, w) h = elim (Bool-cases (n == length es)) [
    | inl all ↦ rw all (
        h
        ∙ ap (λ x. before ++ x)
            (ap (λ k. take k es) ((nat_eq.beq_iff n (length es)).0 all) ∙ take-length es))
    | inr some_lost ↦ rw some_lost (let (q, rest) = take-IsPrefix n es in (take n es, q, h, rest))
  ]

  send_events-Types : (es : List Input) → Types typed (send_events os es) es
  unfolding send_events
  send_events-Types [] w = sym (append-nil _)
  send_events-Types (e ∷ es) w = all_sent-HasTyped (typed w) (e ∷ es) _ (law.sent_typed (e ∷ es) w)

  pause-Types : (n : ℕ) → Types typed (pause os n) []
  pause-Types n w = elim (Bool-cases (ltb 0 n)) [
    | inl long ↦ rw long (law.sleep_typed n w ∙ sym (append-nil _))
    | inr short ↦ rw short (sym (append-nil _))
  ]

  send_chunks-Types :
      (delay : ℕ) (cs : List (List ℕ))
      → Types typed (send_chunks os delay cs) (unit_events (join cs))
  unfolding send_chunks unit_events
  send_chunks-Types delay [] w = sym (append-nil _)
  send_chunks-Types delay (c ∷ cs) w =
      subst (Types typed (send_chunks os delay (c ∷ cs))) (sym (unit_events-append c (join cs)))
        (bind-Types (send_events os (unit_events c)) _ (unit_events c) (unit_events (join cs))
          (send_events-Types (unit_events c))
          (λ _.
            bind-Types (pause os (delay * length c)) _ [] (unit_events (join cs))
              (pause-Types (delay * length c)) (λ _. send_chunks-Types delay cs)))
        w

  send_units-Types :
      (delay : ℕ) (o : Option (List ℕ)) (us : List ℕ)
      → o ≡ some us
      → Types typed (send_units os delay o) (unit_events us)
  send_units-Types delay none us h = absurd (cc)
  send_units-Types delay (some vs) us h =
      subst (λ x. Types typed (send_chunks os delay (chunks_of vs)) (unit_events x))
        (join-chunks_of vs ∙ some_inj h) (send_chunks-Types delay (chunks_of vs))

  send_text-Types :
      (t : Text) (us : List ℕ) (delay : ℕ)
      → text_to_utf16_units t ≡ some us
      → Types typed (send_unicode_text os t delay) (unit_events us)
  unfolding send_unicode_text text_to_utf16_units unit_events
  send_text-Types [] us delay h w =
      subst (λ x. typed w ≡ typed w ++ unit_events x) (some_inj h) (sym (append-nil _))
  send_text-Types (c ∷ t) us delay h w =
      subst (λ es. HasTyped typed (typed w) es (send_unicode_text os (c ∷ t) delay w))
        (append-nil _)
        (bind-Types (send_units os delay (text_to_utf16_units (c ∷ t))) _ (unit_events us) []
          (send_units-Types delay _ us h) (λ _. pure-Types (length (c ∷ t))) w)

  send_text-chunks :
      (t : Text) (us : List ℕ) (delay : ℕ)
      → text_to_utf16_units t ≡ some us
      → send_unicode_text os t delay ≡ (send_chunks os delay (chunks_of us) >> pure (length t))
  unfolding send_unicode_text text_to_utf16_units send_chunks split_units
  send_text-chunks [] us delay h = rw (sym (some_inj h)) refl
  send_text-chunks (c ∷ t) us delay h = rw h refl

  -- A text that has UTF-16 units is sent as chunks of its units, in order, each of 64 units but the
  -- last, which has 1 to 64. What arrives is the press and release of each unit in order: all where
  -- the call returns, and some first ones where it raises.
  pub send_unicode_text-Types :
      (t : Text) (us : List ℕ) (delay : ℕ)
      → text_to_utf16_units t ≡ some us
      → (send_unicode_text os t delay ≡ (send_chunks os delay (chunks_of us) >> pure (length t)))
        × AreChunks 64 (chunks_of us)
        × (join (chunks_of us) ≡ us)
        × Types typed (send_unicode_text os t delay) (unit_events us)
  send_unicode_text-Types t us delay h = (
    send_text-chunks t us delay h,
    chunks_of-AreChunks us,
    join-chunks_of us,
    send_text-Types t us delay h,
  )
