-- ===== src/Feishu/Codec/Hang.antt =====
-- internal/feishu/codec.go: `skipField` adds a length of 64 bits to an `int`. A length close to
-- 2^64 makes the sum negative, the test against the end of the data lets it pass, and the loop of
-- `Unmarshal` walks backwards.
use talkintent.Common.{ℕ, zero, suc, ◌≡◌, refl, ap, [], ◌∷◌, ◌++◌, ltb, length, true, arith}
use talkintent.Common.Effect.{ok, err, pure, ◌>>=◌}
use talkintent.Feishu.Frame.{Bytes, Frame, empty_frame}
use talkintent.Feishu.Codec.Varint.{stuck, decode_varint}
use talkintent.Feishu.Codec.Unmarshal.{
  loop, read_frame_field, read_case, read_varint, skip, skip_field, unmarshal_within,
}

-- The tag of field 15 with bytes, and the length 2^64 - 11 in ten bytes.
abbrev pub backwards : Bytes
backwards = 0x7a ∷ 0xf5 ∷ 0xff ∷ 0xff ∷ 0xff ∷ 0xff ∷ 0xff ∷ 0xff ∷ 0xff ∷ 0xff ∷ 0x01 ∷ []

stays : (rest : Bytes) (f : Frame) → read_frame_field (backwards ++ rest) f 0 ≡ (ok f, 0)
unfolding read_frame_field read_case read_varint skip skip_field decode_varint ◌>>=◌ pure
stays rest f = refl

has_more : (rest : Bytes) → ltb 0 (length (backwards ++ rest)) ≡ true
has_more rest = ground arith

loop_stuck :
    (rest : Bytes) (fuel : ℕ) (f : Frame)
    → loop (backwards ++ rest) (read_frame_field (backwards ++ rest)) fuel f 0 ≡ (err stuck, 0)
unfolding loop ◌>>=◌
loop_stuck rest zero f = rw (has_more rest) refl
loop_stuck rest (suc fuel) f = rw (has_more rest, stays rest f) (loop_stuck rest fuel f)

-- On a message that starts with these eleven bytes `Unmarshal` does not return: however many
-- rounds its loop is given, it is not at the end of them.
pub unmarshal_hangs :
    (rest : Bytes) (rounds : ℕ) → unmarshal_within rounds (backwards ++ rest) ≡ err stuck
unfolding unmarshal_within
unmarshal_hangs rest rounds = ap (λ p. p.0) (loop_stuck rest rounds empty_frame)
