-- ===== src/Feishu/Codec/Groups.antt =====
-- internal/feishu/codec.go: `decodeVarint` on what `encodeVarint` wrote, seven bits at a time.
use talkintent.Common.{
  ℕ, zero, suc, ◌+◌, ◌*◌, ◌/◌, ◌%◌, ◌^◌, ◌≤◌, ◌<◌, ◌≡◌, refl, ap, ◌∙◌, [], ◌∷◌, ◌++◌, length, arith,
  bit_or, leb, Bool-cases, inl, inr,
}
use talkintent.Common.Bits.{low_bits, top_bit, set_top_bit, bit_or-add}
use talkintent.Common.Effect.{Result, ok}
use talkintent.Feishu.Frame.{Bytes}
use talkintent.Feishu.Codec.Varint.{
  Error, encode_loop, encode_varint, or_group, decode_loop, decode_varint,
}
use native.Mathlib.Nat.{div-add-mod}
use native.Mathlib.Numerals.{towards_suc}

mul_below : (w n p : ℕ) → w < n → w * p + p ≤ n * p
mul_below zero zero p h = absurd (omega arith)
mul_below zero (suc n) p h = omega arith
mul_below (suc w) zero p h = absurd (omega arith)
mul_below (suc w) (suc n) p h = omega (arith, mul_below w n p (omega arith))

or_group_lem :
    (val b s : ℕ)
    → b < 256
    → val < 2 ^ s
    → val + b % 128 * 2 ^ s < 2 ^ 64
    → or_group val b s ≡ val + b % 128 * 2 ^ s
or_group_lem val b s h k fits =
    rw (low_bits b h)
      (ap (bit_or val) (below (b % 128 * 2 ^ s) (omega arith)) ∙ bit_or-add val (b % 128) s k)
  where
    below : (n : ℕ) → n < 2 ^ 64 → n % 2 ^ 64 ≡ n
    below n l = omega arith

shift_seven : (s : ℕ) → 2 ^ (s + 7) ≡ 128 * 2 ^ s
shift_seven s = simp towards_suc (omega arith)

-- The lowest group of `v` and the rest, both shifted by `s`.
split_group : (v s : ℕ) → v * 2 ^ s ≡ v % 128 * 2 ^ s + v / 128 * 2 ^ (s + 7)
split_group v s = omega (
  arith,
  ap (λ (t : ℕ). t * 2 ^ s) (div-add-mod v 128),
  ap (λ (t : ℕ). v / 128 * t) (shift_seven s),
)

-- One round on a last byte, and on a byte with the top bit set.
last_byte :
    (b i val s : ℕ) (rest : Bytes)
    → b < 128
    → i < 10
    → val < 2 ^ s
    → val + b * 2 ^ s < 2 ^ 64
    → decode_loop (b ∷ rest) i val s ≡ ok (val + b * 2 ^ s, i + 1)
last_byte b i val s rest h j k fits = ground (arith, or_group_lem val b s, top_bit b)

inner_byte :
    (g i val s : ℕ) (rest : Bytes)
    → g < 128
    → i < 10
    → val < 2 ^ s
    → val + g * 2 ^ s < 2 ^ 64
    → decode_loop ((g + 128) ∷ rest) i val s ≡ decode_loop rest (i + 1) (val + g * 2 ^ s) (s + 7)
inner_byte g i val s rest h j k fits =
    ground (arith, or_group_lem val (g + 128) s, top_bit (g + 128))

pub encode_small : (k v : ℕ) → v < 128 → encode_loop k v ≡ v ∷ []
encode_small zero v h = ground arith
encode_small (suc k) v h = ground arith

encode_large :
    (k v : ℕ) → 128 ≤ v → encode_loop (suc k) v ≡ (v % 128 + 128) ∷ encode_loop k (v / 128)
encode_large k v h = ground (arith, set_top_bit (v % 256))

next_power : (k : ℕ) → 128 ^ suc (suc k) ≡ 128 * 128 ^ suc k
next_power k = omega arith

same_read : {a b c d : ℕ} → a ≡ b → c ≡ d → ◌≡◌ {A = Result Error (ℕ × ℕ)} (ok (a, c)) (ok (b, d))
same_read p q = λ i. ok (p i, q i)

-- What is read so far lies below the next shift.
grows : (val g s : ℕ) → val < 2 ^ s → g < 128 → val + g * 2 ^ s < 2 ^ (s + 7)
grows val g s h k = omega (arith, shift_seven s, mul_below g 128 (2 ^ s) k)

below_part : (val a b n : ℕ) → val + (a + b) < n → val + a < n
below_part val a b n h = omega arith

-- `v` is what is still to be read, in the bytes `xs`, and it counts from bit `s` on.
decode_loop-encode_loop :
    (k v i val s : ℕ) (xs rest : Bytes)
    → xs ≡ encode_loop k v
    → v < 128 ^ suc k
    → i + k < 10
    → val < 2 ^ s
    → val + v * 2 ^ s < 2 ^ 64
    → decode_loop (xs ++ rest) i val s ≡ ok (val + v * 2 ^ s, i + length xs)
decode_loop-encode_loop zero v i val s xs rest e h j below fits =
    rw (e ∙ encode_small zero v (omega arith))
      (last_byte v i val s rest (omega arith) (omega arith) below fits)
decode_loop-encode_loop (suc k) v i val s xs rest e h j below fits =
    elim (Bool-cases (leb 0x80 v)) [
      | inr small ↦
          rw (e ∙ encode_small (suc k) v (ground arith))
            (last_byte v i val s rest (ground arith) (omega arith) below fits)
      | inl large ↦ rw (e ∙ encode_large k v (ground arith)) (
          inner_byte (v % 128) i val s (encode_loop k (v / 128) ++ rest) (omega arith) (omega arith)
            below (omega (arith, split_group v s))
          ∙ decode_loop-encode_loop k (v / 128) (i + 1) (val + v % 128 * 2 ^ s) (s + 7)
              (encode_loop k (v / 128)) rest refl (omega (arith, next_power k)) (omega arith)
              (grows val (v % 128) s below (omega arith)) (omega (arith, split_group v s))
          ∙ same_read (omega (arith, split_group v s)) (omega arith))
    ]

-- `decodeVarint` gives back the uint64 that `encodeVarint` wrote, with the number of bytes.
pub decode_varint-encode_varint :
    (v : ℕ) (rest : Bytes)
    → v < 2 ^ 64
    → decode_varint (encode_varint v ++ rest) ≡ ok (v, length (encode_varint v))
unfolding decode_varint encode_varint
decode_varint-encode_varint v rest h =
    decode_loop-encode_loop 9 v 0 0 0 (encode_loop 9 v) rest refl (omega arith) (omega arith)
      (omega arith) (omega arith)
    ∙ same_read (omega arith) (omega arith)
