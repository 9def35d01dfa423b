-- ===== src/Feishu/Codec/RoundTrip.antt =====
-- internal/feishu/codec.go: `Unmarshal` on what `Marshal` wrote.
use mathlib.Core.List.{append-nil, append_assoc}
use mathlib.Core.Path.{subst}
use talkintent.Common.{
  ◌^◌, ◌<◌, ◌≡◌, refl, ap, sym, List, [], ◌∷◌, ◌++◌, length, All, arith, Option, none, some,
}
use talkintent.Common.Effect.{ok}
use talkintent.Feishu.Frame.{Bytes, Header, Frame, empty_frame}
use talkintent.Feishu.Codec.Marshal.{to_u32, marshal_header, put_headers, put_payload, marshal}
use talkintent.Feishu.Codec.Unmarshal.{read_frame_field, unmarshal_within, unmarshal}
use talkintent.Feishu.Codec.Reading.{Parses, Parses-step, Parses-end}
use talkintent.Feishu.Codec.Fields.{
  IsInt32, seq_id_field, log_id_field, service_field, method_field, header_field,
  payload_encoding_field, payload_type_field, payload_field, log_id_new_field, shorter_varint,
  shorter_bytes,
}

-- What Go's types say of a frame: numbers of their width, and lengths that a uint64 holds.
pub record IsFrame (f : Frame) : Type 0 where
  pub seq_id : f.seq_id < 2 ^ 64
  pub log_id : f.log_id < 2 ^ 64
  pub service : IsInt32 f.service
  pub method : IsInt32 f.method
  pub headers : All (λ h. length (marshal_header h) < 2 ^ 64) f.headers
  pub payload_encoding : length f.payload_encoding < 2 ^ 64
  pub payload_type : length f.payload_type < 2 ^ 64
  pub payload : (p : Bytes) → f.payload ≡ some p → length p < 2 ^ 64
  pub log_id_new : length f.log_id_new < 2 ^ 64

module _ (input : Bytes) where
  Parses-headers :
      (hs : List Header) (f g : Frame) (rest : Bytes)
      → All (λ h. length (marshal_header h) < 2 ^ 64) hs
      → Parses input (read_frame_field input) (record f { headers = f.headers ++ hs }) rest g
      → Parses input (read_frame_field input) f (put_headers hs rest) g
  unfolding put_headers
  Parses-headers [] f g rest l p =
      subst (λ hs. Parses input (read_frame_field input) (record f { headers = hs }) rest g)
        (append-nil f.headers) p
  Parses-headers (h ∷ hs) f g rest (l, ls) p =
      Parses-step input _ (header_field input f h _ l) (shorter_bytes 0x2a (marshal_header h) _) (
        Parses-headers hs (record f { headers = f.headers ++ h ∷ [] }) g rest ls
          (subst (λ all. Parses input (read_frame_field input) (record f { headers = all }) rest g)
            (sym (append_assoc f.headers (h ∷ []) hs)) p))

  Parses-payload :
      (o : Option Bytes) (f g : Frame) (rest : Bytes)
      → f.payload ≡ none
      → ((p : Bytes) → o ≡ some p → length p < 2 ^ 64)
      → Parses input (read_frame_field input) (record f { payload = o }) rest g
      → Parses input (read_frame_field input) f (put_payload o rest) g
  Parses-payload none f g rest e l p =
      subst (λ o. Parses input (read_frame_field input) (record f { payload = o }) rest g) (sym e) p
  Parses-payload (some s) f g rest e l p =
      Parses-step input _ (payload_field input f s rest (l s refl)) (shorter_bytes 0x42 s rest) p

  Parses-frame :
      (f : Frame) → IsFrame f → Parses input (read_frame_field input) empty_frame (marshal f) f
  unfolding marshal
  Parses-frame f w =
      Parses-step input _ (seq_id_field input _ f.seq_id _ w.seq_id)
        (shorter_varint 0x08 f.seq_id _)
        (Parses-step input _ (log_id_field input _ f.log_id _ w.log_id)
          (shorter_varint 0x10 f.log_id _)
          (Parses-step input _ (service_field input _ f.service _ w.service)
            (shorter_varint 0x18 (to_u32 f.service) _)
            (Parses-step input _ (method_field input _ f.method _ w.method)
              (shorter_varint 0x20 (to_u32 f.method) _)
              (Parses-headers f.headers _ f _ w.headers (
                Parses-step input _
                  (payload_encoding_field input _ f.payload_encoding _ w.payload_encoding)
                  (shorter_bytes 0x32 f.payload_encoding _)
                  (Parses-step input _ (payload_type_field input _ f.payload_type _ w.payload_type)
                    (shorter_bytes 0x3a f.payload_type _)
                    (Parses-payload f.payload _ f _ refl w.payload (
                      Parses-step input _ (log_id_new_field input _ f.log_id_new [] w.log_id_new)
                        (shorter_bytes 0x4a f.log_id_new []) (Parses-end input _ f)))))))))

-- `Unmarshal` gives back the frame that `Marshal` wrote, with its headers in their order and a
-- payload that is nil told from an empty one, and it is done within a round for each byte.
-- The numbers of the frame fit their Go types, and so do the lengths of its texts.
pub unmarshal-marshal : (f : Frame) → IsFrame f → unmarshal (marshal f) ≡ ok f
unfolding unmarshal unmarshal_within
unmarshal-marshal f w =
    let xs = marshal f in
    let (p, run, left) = ((Parses-frame xs f w).within (length xs) (omega arith)).at 0 refl in
    ap (λ r. r.0) run
