-- ===== src/Feishu/Frame.antt =====
-- internal/feishu/codec.go: `Header` and `Frame` with the access to the headers. A Go string is a
-- list of bytes here, and so is a byte slice; a payload that is nil is `none`.
use talkintent.Common.{
  ℕ, Bool, true, false, ◌&&◌, Option, none, some, List, [], ◌∷◌, ◌==◌, if◌then◌else◌,
}
use talkintent.Common.Int.{ℤ, pos}

abbrev pub Bytes : Type 0
Bytes = List ℕ

abbrev pub bytes_eq : Bytes → Bytes → Bool
bytes_eq [] [] = true
bytes_eq [] (y ∷ ys) = false
bytes_eq (x ∷ xs) [] = false
bytes_eq (x ∷ xs) (y ∷ ys) = x == y && bytes_eq xs ys

pub record Header : Type 0 where
  pub key : Bytes
  pub value : Bytes

pub record Frame : Type 0 where
  pub seq_id : ℕ
  pub log_id : ℕ
  pub service : ℤ
  pub method : ℤ
  pub headers : List Header
  pub payload_encoding : Bytes
  pub payload_type : Bytes
  pub payload : Option Bytes
  pub log_id_new : Bytes

-- `Header{}` and `Frame{}`
abbrev pub empty_header : Header
empty_header = record { key = []; value = [] }

abbrev pub empty_frame : Frame
empty_frame = record {
  seq_id = 0;
  log_id = 0;
  service = pos 0;
  method = pos 0;
  headers = [];
  payload_encoding = [];
  payload_type = [];
  payload = none;
  log_id_new = [];
}

-- `GetHeader`, on the headers of the frame; `none` is its `false`.
abbrev pub header_of : Bytes → List Header → Option Bytes
header_of key [] = none
header_of key (h ∷ hs) = if bytes_eq h.key key then some h.value else header_of key hs

abbrev pub get_header : Bytes → Frame → Option Bytes
get_header key f = header_of key f.headers

abbrev pub header_value : Bytes → Frame → Bytes
header_value key f = elim (get_header key f) [ none ↦ [] | some v ↦ v ]

abbrev pub put_header : Bytes → Bytes → List Header → List Header
put_header key value [] = record { key = key; value = value } ∷ []
put_header key value (h ∷ hs) =
    if bytes_eq h.key key then record h { value = value } ∷ hs else h ∷ put_header key value hs

abbrev pub set_header : Bytes → Bytes → Frame → Frame
set_header key value f = record f { headers = put_header key value f.headers }
