-- ===== src/Feishu/Codec/Unmarshal.antt =====
-- internal/feishu/codec.go: `Header.unmarshal`, `Frame.Unmarshal` and `skipField`. The state of a
-- reader is `offset` into the data. What `skipField` adds to it is an `int`, which a length of
-- 2^63 or more makes negative; a negative offset makes the next slice expression panic.
use talkintent.Common.{
  ℕ, zero, suc, ◌+◌, ◌-◌, ◌/◌, ◌%◌, ◌^◌, some, [], ◌∷◌, ◌++◌, length, take, drop, ltb, ◌==◌,
  if◌then◌else◌,
}
use talkintent.Common.Int.{ℤ, pos, negsuc}
use talkintent.Common.Effect.{Exec, Result, ok, err, pure, raise, ◌>>=◌, ◌>>◌}
use talkintent.Feishu.Frame.{Bytes, Header, Frame, empty_header, empty_frame}
use talkintent.Feishu.Codec.Varint.{Error, truncated, bad_wire, panic, stuck, decode_varint}

abbrev pub Reader : Type 0 → Type 0
Reader A = Exec Error ℕ A

-- A number of 64 bits read as an `int`.
abbrev pub to_int64 : ℕ → ℤ
to_int64 v =
    if ltb (v % 2 ^ 64) (2 ^ 63) then pos (v % 2 ^ 64) else negsuc (2 ^ 64 - 1 - v % 2 ^ 64)

-- `int32(val)`
abbrev pub to_int32 : ℕ → ℤ
to_int32 v =
    if ltb (v % 2 ^ 32) (2 ^ 31) then pos (v % 2 ^ 32) else negsuc (2 ^ 32 - 1 - v % 2 ^ 32)

abbrev advance_varint : ℕ → Result Error (ℕ × ℕ) → Result Error ℕ × ℕ
advance_varint offset (ok (v, n)) = (ok v, offset + n)
advance_varint offset (err e) = (err e, offset)

-- `decodeVarint(data[offset:])` and `offset += n`
unfoldable pub read_varint : Bytes → Reader ℕ
read_varint input offset = advance_varint offset (decode_varint (drop offset input))

-- The bytes behind a length that is not longer than what is left.
unfoldable pub read_block : Bytes → ℕ → Reader Bytes
read_block input n offset =
    if ltb (length input - offset) n
    then (err truncated, offset)
    else (ok (take n (drop offset input)), offset + n)

unfoldable pub read_bytes : Bytes → Reader Bytes
read_bytes input = do n ← read_varint input; read_block input n

abbrev skip_block : Bytes → Result Error (ℕ × ℕ) → Result Error ℤ
skip_block rest (err e) = err e
skip_block rest (ok (l, n)) = elim (to_int64 (n + l)) [
  | negsuc k ↦ ok (negsuc k)
  | pos total ↦ if ltb (length rest) total then err truncated else ok (pos total)
]

abbrev skip_varint : Result Error (ℕ × ℕ) → Result Error ℤ
skip_varint (err e) = err e
skip_varint (ok (v, n)) = ok (pos n)

unfoldable pub skip_field : ℕ → Bytes → Result Error ℤ
skip_field wire_type rest =
    if wire_type == 0
    then skip_varint (decode_varint rest)
    else (if wire_type == 1
        then (if ltb (length rest) 8 then err truncated else ok (pos 8))
        else (if wire_type == 2
            then skip_block rest (decode_varint rest)
            else (if wire_type == 5
                then (if ltb (length rest) 4 then err truncated else ok (pos 4))
                else err bad_wire)))

-- `offset += skip`, and the slice `data[offset:]` that comes next. At a negative offset the loop
-- goes on, and the slice panics.
abbrev advance : ℕ → Result Error ℤ → Result Error (Unit {0}) × ℕ
advance offset (err e) = (err e, offset)
advance offset (ok (pos n)) = (ok tt, offset + n)
advance offset (ok (negsuc n)) =
    if ltb n offset then (ok tt, offset - suc n) else (err panic, offset)

unfoldable pub skip : Bytes → ℕ → Reader (Unit {0})
unfolding skip_field
skip input wire_type offset = advance offset (skip_field wire_type (drop offset input))

-- A field whose wire type must be `wanted`.
unfoldable pub expect : {A : Type 0} → ℕ → ℕ → Reader A → Reader A
expect wanted wire_type read = if wire_type == wanted then read else raise bad_wire

-- The body of the loop of `Header.unmarshal`.
unfoldable pub read_header_field : Bytes → Header → Reader Header
read_header_field input h = do
  tag ← read_varint input
  let wire_type = tag % 8
  if tag / 8 == 1
      then (do s ← expect 2 wire_type (read_bytes input); pure (record h { key = s }))
      else (if tag / 8 == 2
          then (do s ← expect 2 wire_type (read_bytes input); pure (record h { value = s }))
          else (do skip input wire_type; pure h))

-- `for offset < len(data)`, with the fuel for its rounds.
unfoldable pub loop : {A : Type 0} → Bytes → (A → Reader A) → ℕ → A → Reader A
loop input round zero a offset =
    if ltb offset (length input) then (err stuck, offset) else (ok a, offset)
loop input round (suc fuel) a offset =
    if ltb offset (length input)
    then (do b ← round a; loop input round fuel b) offset
    else (ok a, offset)

-- The header of a whole block, with a round for each byte.
unfoldable pub unmarshal_header : Bytes → Result Error Header
unmarshal_header input = (loop input (read_header_field input) (length input) empty_header 0).0

abbrev pub lift : {A : Type 0} → Result Error A → Reader A
lift r offset = (r, offset)

unfoldable pub read_header : Bytes → Reader Header
read_header input = do block ← read_bytes input; lift (unmarshal_header block)

-- A case of the switch of `Frame.Unmarshal`: a number or some bytes, stored in a field.
abbrev pub number_case : Bytes → ℕ → (ℕ → Frame) → Reader Frame
number_case input w store = do v ← expect 0 w (read_varint input); pure (store v)

abbrev pub bytes_case : Bytes → ℕ → (Bytes → Frame) → Reader Frame
bytes_case input w store = do s ← expect 2 w (read_bytes input); pure (store s)

abbrev pub header_case : Bytes → ℕ → Frame → Reader Frame
header_case input w f = do
  h ← expect 2 w (read_header input)
  pure (record f { headers = f.headers ++ h ∷ [] })

abbrev late_case : Bytes → ℕ → ℕ → Frame → Reader Frame
late_case input field w f =
    if field == 7
    then bytes_case input w (λ s. record f { payload_type = s })
    else (if field == 8
        then bytes_case input w (λ s. record f { payload = some s })
        else (if field == 9
            then bytes_case input w (λ s. record f { log_id_new = s })
            else (do skip input w; pure f)))

unfoldable pub read_case : Bytes → ℕ → ℕ → Frame → Reader Frame
read_case input field w f =
    if field == 1
    then number_case input w (λ v. record f { seq_id = v })
    else (if field == 2
        then number_case input w (λ v. record f { log_id = v })
        else (if field == 3
            then number_case input w (λ v. record f { service = to_int32 v })
            else (if field == 4
                then number_case input w (λ v. record f { method = to_int32 v })
                else (if field == 5
                    then header_case input w f
                    else (if field == 6
                        then bytes_case input w (λ s. record f { payload_encoding = s })
                        else late_case input field w f)))))

unfoldable pub read_frame_field : Bytes → Frame → Reader Frame
read_frame_field input f = do tag ← read_varint input; read_case input (tag / 8) (tag % 8) f

-- `Frame.Unmarshal` with fuel for its loop.
unfoldable pub unmarshal_within : ℕ → Bytes → Result Error Frame
unmarshal_within fuel input = (loop input (read_frame_field input) fuel empty_frame 0).0

unfoldable pub unmarshal : Bytes → Result Error Frame
unmarshal input = unmarshal_within (length input) input
