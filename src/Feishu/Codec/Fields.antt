-- ===== src/Feishu/Codec/Fields.antt =====
-- internal/feishu/codec.go: the fields of a header and of a frame, each written and read back.
use mathlib.Core.Path.{subst}
use talkintent.Common.{
  ℕ, ◌^◌, ◌≤◌, ◌<◌, ◌≡◌, refl, ap, [], ◌∷◌, ◌++◌, length, length-append, arith, some,
}
use talkintent.Common.Int.{ℤ, pos, negsuc}
use talkintent.Common.Effect.{ok}
use talkintent.Feishu.Frame.{Bytes, Header, Frame, empty_header}
use talkintent.Feishu.Codec.Varint.{encode_varint}
use talkintent.Feishu.Codec.Marshal.{to_u32, put_bytes, put_varint, marshal_header}
use talkintent.Feishu.Codec.Unmarshal.{
  to_int32, read_header_field, unmarshal_header, read_header, read_case, read_frame_field, expect,
}
use talkintent.Feishu.Codec.Reading.{
  Reads, Reads-bind, Reads-pure, Reads-lift, Reads-tag, Reads-bytes, Reads-number_case,
  Reads-bytes_case, Parses, Parses-step, Parses-end,
}

abbrev pub IsInt32 : ℤ → Type 0
IsInt32 (pos n) = n < 2 ^ 31
IsInt32 (negsuc n) = n < 2 ^ 31

pub to_int32-to_u32 : (x : ℤ) → IsInt32 x → (to_int32 (to_u32 x) ≡ x) × (to_u32 x < 2 ^ 64)
to_int32-to_u32 (pos n) h = (ground arith, omega arith)
to_int32-to_u32 (negsuc n) h = (ground arith, omega arith)

pub shorter_varint : (tag v : ℕ) (rest : Bytes) → length rest < length (put_varint tag v rest)
shorter_varint tag v rest = omega (arith, length-append (encode_varint v) rest)

pub shorter_bytes : (tag : ℕ) (s rest : Bytes) → length rest < length (put_bytes tag s rest)
shorter_bytes tag s rest =
    omega (arith, length-append (encode_varint (length s)) (s ++ rest), length-append s rest)

length-value : (tag : ℕ) (s rest : Bytes) → length s ≤ length (put_bytes tag s rest)
length-value tag s rest =
    omega (arith, length-append (encode_varint (length s)) (s ++ rest), length-append s rest)

module _ (h : Header) (input : Bytes) where
  key_field :
      (g : Header) (s rest : Bytes)
      → length s < 2 ^ 64
      → Reads input (read_header_field input g) (put_bytes 0x0a s rest) (record g { key = s }) rest
  unfolding read_header_field expect
  key_field g s rest l =
      Reads-bind input _ (Reads-tag input 0x0a _ (omega arith))
        (Reads-bind input _ (Reads-bytes input s rest l) (Reads-pure input _ rest))

  value_field :
      (g : Header) (s rest : Bytes)
      → length s < 2 ^ 64
      → Reads input
          (read_header_field input g)
          (put_bytes 0x12 s rest)
          (record g { value = s })
          rest
  unfolding read_header_field expect
  value_field g s rest l =
      Reads-bind input _ (Reads-tag input 0x12 _ (omega arith))
        (Reads-bind input _ (Reads-bytes input s rest l) (Reads-pure input _ rest))

  Parses-header :
      length h.key < 2 ^ 64
      → length h.value < 2 ^ 64
      → Parses input
          (read_header_field input)
          empty_header
          (put_bytes 0x0a h.key (put_bytes 0x12 h.value []))
          h
  Parses-header k v =
      Parses-step input _ (key_field empty_header h.key _ k) (shorter_bytes 0x0a h.key _) (
        Parses-step input _ (value_field _ h.value [] v) (shorter_bytes 0x12 h.value [])
          (Parses-end input _ h))

unmarshal-marshal_header :
    (h : Header) → length (marshal_header h) < 2 ^ 64 → unmarshal_header (marshal_header h) ≡ ok h
unfolding unmarshal_header marshal_header
unmarshal-marshal_header h l =
    let xs = put_bytes 0x0a h.key (put_bytes 0x12 h.value []) in
    let (p, run, left) =
      ((Parses-header h xs (omega (arith, length-value 0x0a h.key (put_bytes 0x12 h.value []))) (
            omega (
              arith,
              length-value 0x12 h.value [],
              shorter_bytes 0x0a h.key (put_bytes 0x12 h.value []),
            ))).within
          (length xs) (omega arith)).at
        0 refl in
    ap (λ r. r.0) run

module _ (input : Bytes) where
  pub seq_id_field :
      (f : Frame) (v : ℕ) (rest : Bytes)
      → v < 2 ^ 64
      → Reads input
          (read_frame_field input f)
          (put_varint 0x08 v rest)
          (record f { seq_id = v })
          rest
  unfolding read_frame_field read_case
  seq_id_field f v rest h =
      Reads-bind input _ (Reads-tag input 0x08 _ (omega arith)) (Reads-number_case input v rest _ h)

  pub log_id_field :
      (f : Frame) (v : ℕ) (rest : Bytes)
      → v < 2 ^ 64
      → Reads input
          (read_frame_field input f)
          (put_varint 0x10 v rest)
          (record f { log_id = v })
          rest
  unfolding read_frame_field read_case
  log_id_field f v rest h =
      Reads-bind input _ (Reads-tag input 0x10 _ (omega arith)) (Reads-number_case input v rest _ h)

  pub service_field :
      (f : Frame) (x : ℤ) (rest : Bytes)
      → IsInt32 x
      → Reads input
          (read_frame_field input f)
          (put_varint 0x18 (to_u32 x) rest)
          (record f { service = x })
          rest
  unfolding read_frame_field read_case
  service_field f x rest h =
      let (e, l) = to_int32-to_u32 x h in
      subst
        (λ y.
          Reads input (read_frame_field input f) (put_varint 0x18 (to_u32 x) rest)
            (record f { service = y }) rest)
        e
        (Reads-bind input _ (Reads-tag input 0x18 _ (omega arith))
          (Reads-number_case input (to_u32 x) rest (λ v. record f { service = to_int32 v }) l))

  pub method_field :
      (f : Frame) (x : ℤ) (rest : Bytes)
      → IsInt32 x
      → Reads input
          (read_frame_field input f)
          (put_varint 0x20 (to_u32 x) rest)
          (record f { method = x })
          rest
  unfolding read_frame_field read_case
  method_field f x rest h =
      let (e, l) = to_int32-to_u32 x h in
      subst
        (λ y.
          Reads input (read_frame_field input f) (put_varint 0x20 (to_u32 x) rest)
            (record f { method = y }) rest)
        e
        (Reads-bind input _ (Reads-tag input 0x20 _ (omega arith))
          (Reads-number_case input (to_u32 x) rest (λ v. record f { method = to_int32 v }) l))

  pub payload_encoding_field :
      (f : Frame) (s rest : Bytes)
      → length s < 2 ^ 64
      → Reads input
          (read_frame_field input f)
          (put_bytes 0x32 s rest)
          (record f { payload_encoding = s })
          rest
  unfolding read_frame_field read_case
  payload_encoding_field f s rest h =
      Reads-bind input _ (Reads-tag input 0x32 _ (omega arith)) (Reads-bytes_case input s rest _ h)

  pub payload_type_field :
      (f : Frame) (s rest : Bytes)
      → length s < 2 ^ 64
      → Reads input
          (read_frame_field input f)
          (put_bytes 0x3a s rest)
          (record f { payload_type = s })
          rest
  unfolding read_frame_field read_case
  payload_type_field f s rest h =
      Reads-bind input _ (Reads-tag input 0x3a _ (omega arith)) (Reads-bytes_case input s rest _ h)

  pub payload_field :
      (f : Frame) (s rest : Bytes)
      → length s < 2 ^ 64
      → Reads input
          (read_frame_field input f)
          (put_bytes 0x42 s rest)
          (record f { payload = some s })
          rest
  unfolding read_frame_field read_case
  payload_field f s rest h =
      Reads-bind input _ (Reads-tag input 0x42 _ (omega arith)) (Reads-bytes_case input s rest _ h)

  pub log_id_new_field :
      (f : Frame) (s rest : Bytes)
      → length s < 2 ^ 64
      → Reads input
          (read_frame_field input f)
          (put_bytes 0x4a s rest)
          (record f { log_id_new = s })
          rest
  unfolding read_frame_field read_case
  log_id_new_field f s rest h =
      Reads-bind input _ (Reads-tag input 0x4a _ (omega arith)) (Reads-bytes_case input s rest _ h)

  pub header_field :
      (f : Frame) (h : Header) (rest : Bytes)
      → length (marshal_header h) < 2 ^ 64
      → Reads input
          (read_frame_field input f)
          (put_bytes 0x2a (marshal_header h) rest)
          (record f { headers = f.headers ++ h ∷ [] })
          rest
  unfolding read_frame_field read_case read_header expect
  header_field f h rest l = Reads-bind input _ (Reads-tag input 0x2a _ (omega arith)) (
      Reads-bind input _
        (Reads-bind input _ (Reads-bytes input (marshal_header h) rest l)
          (Reads-lift input _ h rest (unmarshal-marshal_header h l)))
        (Reads-pure input _ rest))
