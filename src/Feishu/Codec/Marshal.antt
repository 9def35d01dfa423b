-- ===== src/Feishu/Codec/Marshal.antt =====
-- internal/feishu/codec.go: `Header.marshalAppend` and `Frame.Marshal`.
use talkintent.Common.{ℕ, ◌-◌, ◌%◌, ◌^◌, Option, none, some, List, [], ◌∷◌, ◌++◌, length}
use talkintent.Common.Int.{ℤ, pos, negsuc}
use talkintent.Feishu.Frame.{Bytes, Header, Frame}
use talkintent.Feishu.Codec.Varint.{encode_varint}

-- `uint64(uint32(x))` for an int32
abbrev pub to_u32 : ℤ → ℕ
to_u32 (pos n) = n % 2 ^ 32
to_u32 (negsuc n) = 2 ^ 32 - 1 - n % 2 ^ 32

-- A tag, a length and the bytes, in front of what follows.
abbrev pub put_bytes : ℕ → Bytes → Bytes → Bytes
put_bytes tag s rest = tag ∷ encode_varint (length s) ++ (s ++ rest)

abbrev pub put_varint : ℕ → ℕ → Bytes → Bytes
put_varint tag v rest = tag ∷ encode_varint v ++ rest

unfoldable pub marshal_header : Header → Bytes
marshal_header h = put_bytes 0x0a h.key (put_bytes 0x12 h.value [])

unfoldable pub put_headers : List Header → Bytes → Bytes
put_headers [] rest = rest
put_headers (h ∷ hs) rest = put_bytes 0x2a (marshal_header h) (put_headers hs rest)

abbrev pub put_payload : Option Bytes → Bytes → Bytes
put_payload none rest = rest
put_payload (some p) rest = put_bytes 0x42 p rest

-- The fields in order; an absent payload is not written.
unfoldable pub marshal : Frame → Bytes
marshal f = put_varint 0x08 f.seq_id (
    put_varint 0x10 f.log_id (
      put_varint 0x18 (to_u32 f.service) (
        put_varint 0x20 (to_u32 f.method) (
          put_headers f.headers (
            put_bytes 0x32 f.payload_encoding (
              put_bytes 0x3a f.payload_type
                (put_payload f.payload (put_bytes 0x4a f.log_id_new []))))))))
