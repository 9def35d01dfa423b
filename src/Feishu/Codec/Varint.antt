-- ===== src/Feishu/Codec/Varint.antt =====
-- internal/feishu/codec.go: `encodeVarint` and `decodeVarint`. A byte is a number below 256 and a
-- uint64 one below 2^64.
use talkintent.Common.{
  ℕ, zero, suc, ◌+◌, ◌*◌, ◌/◌, ◌%◌, ◌^◌, [], ◌∷◌, bit_and, bit_or, leb, ◌==◌, if◌then◌else◌,
}
use talkintent.Common.Effect.{Result, ok, err}
use talkintent.Feishu.Frame.{Bytes}

-- What `Unmarshal` returns, and two things that are no Go error: a slice out of range panics, and
-- `stuck` says that the model's fuel ran out before the loop did.
pub data Error : Type 0 where
  truncated bad_wire overflow panic stuck : Error

-- `byte(v) | 0x80` and `v >>= 7` while `v >= 0x80`; nine rounds leave one bit of a uint64.
abbrev pub encode_loop : ℕ → ℕ → Bytes
encode_loop zero v = v % 256 ∷ []
encode_loop (suc rounds) v =
    let more = encode_loop rounds (v / 128) in
    if leb 0x80 v then bit_or (v % 256) 0x80 ∷ more else v % 256 ∷ []

unfoldable pub encode_varint : ℕ → Bytes
encode_varint v = encode_loop 9 v

-- `val |= uint64(b&0x7f) << shift`
abbrev pub or_group : ℕ → ℕ → ℕ → ℕ
or_group val b shift = bit_or val (bit_and b 0x7f * 2 ^ shift % 2 ^ 64)

-- The list is what `range data` has not reached; `i` counts what it has.
abbrev pub decode_loop : Bytes → ℕ → ℕ → ℕ → Result Error (ℕ × ℕ)
decode_loop [] i val shift = err truncated
decode_loop (b ∷ rest) i val shift =
    let more = decode_loop rest (i + 1) (or_group val b shift) (shift + 7) in
    if leb 10 i
    then err overflow
    else (if bit_and b 0x80 == 0 then ok (or_group val b shift, i + 1) else more)

-- The value and the number of bytes that it took.
unfoldable pub decode_varint : Bytes → Result Error (ℕ × ℕ)
decode_varint input = decode_loop input 0 0 0
