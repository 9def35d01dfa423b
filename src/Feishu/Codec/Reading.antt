-- ===== src/Feishu/Codec/Reading.antt =====
-- internal/feishu/codec.go: the rules by which the readers of `Unmarshal` consume what `Marshal`
-- wrote.
use talkintent.Common.{
  ℕ, zero, suc, ◌+◌, ◌-◌, ◌^◌, ◌≤◌, ◌<◌, ◌≡◌, refl, ap, ◌∙◌, [], ◌∷◌, ◌++◌, length, drop,
  length-append, length-drop, take-append, drop-append, drop_add, arith, ltb, true, false,
}
use mathlib.Core.Path.{subst}
use talkintent.Common.Effect.{Result, ok, pure, ◌>>=◌}
use talkintent.Feishu.Frame.{Bytes, Frame}
use talkintent.Feishu.Codec.Varint.{Error, encode_varint}
use talkintent.Feishu.Codec.Unmarshal.{
  Reader, read_varint, read_block, read_bytes, expect, loop, lift, number_case, bytes_case,
}
use talkintent.Feishu.Codec.Groups.{decode_varint-encode_varint, encode_small}

one_byte : (tag : ℕ) → tag < 128 → encode_varint tag ≡ tag ∷ []
unfolding encode_varint
one_byte tag h = encode_small 9 tag h

module _ (input : Bytes) where
  -- Wherever `xs` is what is left of the input, the reader returns `a` and leaves `rest`.
  pub record Reads {A : Type 0} (m : Reader A) (xs : Bytes) (a : A) (rest : Bytes) : Type 0 where
    pub at : (o : ℕ) → drop o input ≡ xs → (p : ℕ) × (m o ≡ (ok a, p)) × (drop p input ≡ rest)

  pub Reads-bind :
      {A B : Type 0} {m : Reader A} (k : A → Reader B) {xs ys zs : Bytes} {a : A} {b : B}
      → Reads m xs a ys
      → Reads (k a) ys b zs
      → Reads (m >>= k) xs b zs
  unfolding ◌>>=◌
  Reads-bind k h g = record {
    at = λ o e.
        let (p, run, left) = h.at o e in
        let (q, run', left') = g.at p left in (q, rw run run', left');
  }

  pub Reads-pure : {A : Type 0} (a : A) (xs : Bytes) → Reads (pure a) xs a xs
  unfolding pure
  Reads-pure a xs = record { at = λ o e. (o, refl, e) }

  pub Reads-lift :
      {A : Type 0} (r : Result Error A) (a : A) (xs : Bytes) → r ≡ ok a → Reads (lift r) xs a xs
  Reads-lift r a xs h = record { at = λ o e. (o, rw h refl, e) }

  pub Reads-varint :
      (v : ℕ) (rest : Bytes)
      → v < 2 ^ 64
      → Reads (read_varint input) (encode_varint v ++ rest) v rest
  unfolding read_varint
  Reads-varint v rest h = record {
    at = λ o e. (
      o + length (encode_varint v),
      rw (e, decode_varint-encode_varint v rest h) refl,
      drop_add o (length (encode_varint v)) input
          ∙ ap (drop (length (encode_varint v))) e
          ∙ drop-append (encode_varint v) rest,
    );
  }

  pub Reads-tag :
      (tag : ℕ) (rest : Bytes) → tag < 128 → Reads (read_varint input) (tag ∷ rest) tag rest
  Reads-tag tag rest h =
      subst (λ xs. Reads (read_varint input) (xs ++ rest) tag rest) (one_byte tag h)
        (Reads-varint tag rest (omega arith))

  room :
      (o : ℕ) (s rest : Bytes)
      → drop o input ≡ s ++ rest
      → ltb (length input - o) (length s) ≡ false
  room o s rest e = ground (arith, length-drop o input, length-append s rest, ap length e)

  Reads-block : (s rest : Bytes) → Reads (read_block input (length s)) (s ++ rest) s rest
  unfolding read_block
  Reads-block s rest = record {
    at = λ o e. (
      o + length s,
      rw (room o s rest e, e, take-append s rest) refl,
      drop_add o (length s) input ∙ ap (drop (length s)) e ∙ drop-append s rest,
    );
  }

  pub Reads-bytes :
      (s rest : Bytes)
      → length s < 2 ^ 64
      → Reads (read_bytes input) (encode_varint (length s) ++ (s ++ rest)) s rest
  unfolding read_bytes
  Reads-bytes s rest h = Reads-bind _ (Reads-varint (length s) (s ++ rest) h) (Reads-block s rest)

  pub Reads-number_case :
      (v : ℕ) (rest : Bytes) (store : ℕ → Frame)
      → v < 2 ^ 64
      → Reads (number_case input 0 store) (encode_varint v ++ rest) (store v) rest
  unfolding expect
  Reads-number_case v rest store h =
      Reads-bind _ (Reads-varint v rest h) (Reads-pure (store v) rest)

  pub Reads-bytes_case :
      (s rest : Bytes) (store : Bytes → Frame)
      → length s < 2 ^ 64
      → Reads (bytes_case input 2 store) (encode_varint (length s) ++ (s ++ rest)) (store s) rest
  unfolding expect
  Reads-bytes_case s rest store h = Reads-bind _ (Reads-bytes s rest h) (Reads-pure (store s) rest)

  -- The loop reads all of `xs`, given a round for each of its bytes.
  module _ {A : Type 0} (round : A → Reader A) where
    pub record Parses (a : A) (xs : Bytes) (b : A) : Type 0 where
      pub within : (fuel : ℕ) → length xs ≤ fuel → Reads (loop input round fuel a) xs b []

    ended : (o : ℕ) → drop o input ≡ [] → ltb o (length input) ≡ false
    ended o e = ground (arith, length-drop o input, ap length e)

    started : (o : ℕ) (xs : Bytes) → drop o input ≡ xs → 0 < length xs → ltb o (length input) ≡ true
    started o xs e h = ground (arith, length-drop o input, ap length e)

    loop_end : (fuel : ℕ) (a : A) → Reads (loop input round fuel a) [] a []
    unfolding loop
    loop_end zero a = record { at = λ o e. (o, rw (ended o e) refl, e) }
    loop_end (suc fuel) a = record { at = λ o e. (o, rw (ended o e) refl, e) }

    pub Parses-end : (a : A) → Parses a [] a
    Parses-end a = record { within = λ fuel h. loop_end fuel a }

    loop_step :
        (fuel : ℕ) (a b : A) (xs : Bytes)
        → 0 < length xs
        → Reads (round a >>= loop input round fuel) xs b []
        → Reads (loop input round (suc fuel) a) xs b []
    unfolding loop
    loop_step fuel a b xs l h = record { at = λ o e. rw (started o xs e l) (h.at o e) }

    within_lem :
        (fuel : ℕ) (a b c : A) (xs ys : Bytes)
        → Reads (round a) xs b ys
        → length ys < length xs
        → Parses b ys c
        → length xs ≤ fuel
        → Reads (loop input round fuel a) xs c []
    within_lem zero a b c xs ys h l p f = absurd (omega arith)
    within_lem (suc fuel) a b c xs ys h l p f =
        loop_step fuel a c xs (omega arith) (Reads-bind _ h (p.within fuel (omega arith)))

    pub Parses-step :
        {a b c : A} {xs ys : Bytes}
        → Reads (round a) xs b ys
        → length ys < length xs
        → Parses b ys c
        → Parses a xs c
    Parses-step {a} {b} {c} {xs} {ys} h l p = record {
      within = λ fuel f. within_lem fuel a b c xs ys h l p f;
    }
