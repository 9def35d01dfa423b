-- ===== src/Tests/Feishu.antt =====
-- Messages and ids of events.
use talkintent.Common.{
  String, true, false, ◌≡◌, ◌≢◌, ◌<◌, ◌^◌, ◌⊎◌, refl, length, none, some, List, [], ◌∷◌, ◌++◌, ap,
  sym, str_eq, arith,
}
use talkintent.Common.Int.{pos, negsuc}
use talkintent.Tests.Fixtures.{absurd_bool}
use talkintent.Common.Effect.{ok, err}
use talkintent.Feishu.Frame.{Bytes, Header, Frame, empty_frame}
use talkintent.Feishu.Codec.Varint.{stuck, encode_varint}
use talkintent.Feishu.Codec.Marshal.{marshal, marshal_header}
use talkintent.Feishu.Codec.RoundTrip.{IsFrame, unmarshal-marshal}
use talkintent.Feishu.Fragment.{FragmentEntry, Reassembler, add_fragment}
use talkintent.Feishu.Fragment.Message.{concat, IsPartOf}
use talkintent.Feishu.Fragment.Reassembly.{IsFor}
use talkintent.Feishu.Fragment.Delivery.{add_fragment-message}
use talkintent.Feishu.Codec.Unmarshal.{unmarshal_within, unmarshal}
use talkintent.Feishu.Codec.Hang.{backwards, unmarshal_hangs}
use talkintent.Feishu.Dedupe.{Deduplicator, new_deduplicator, check_and_record}
use talkintent.Feishu.Dedupe.Retention.{check_and_record_again}

unmarshal_hangs_example : unmarshal_within 1000 (backwards ++ 1 ∷ []) ≡ err stuck
unmarshal_hangs_example = unmarshal_hangs (1 ∷ []) 1000

abbrev before : Deduplicator
before = new_deduplicator (pos 0) (pos 2)

abbrev after : Deduplicator
after = (check_and_record "ev_1" 5 before).1

not_empty : ◌≢◌ {A = String} "ev_1" ""
not_empty e = absurd_bool (ap (λ t. str_eq t "ev_1") (sym e))

recorded : check_and_record "ev_1" 5 before ≡ (false, after)
unfolding check_and_record
recorded = refl

check_and_record_again_example : check_and_record "ev_1" 1000 after ≡ (true, after)
check_and_record_again_example =
    check_and_record_again "ev_1" 5 1000 before after not_empty recorded (omega arith)

abbrev kind : Header
kind = record { key = 116 ∷ []; value = 112 ∷ 105 ∷ [] }

abbrev frame : Frame
frame = record empty_frame {
  seq_id = 300;
  service = negsuc 4;
  method = pos 1;
  headers = kind ∷ [];
  payload = some [];
}

kind_fits : length (marshal_header kind) < 2 ^ 64
unfolding marshal_header encode_varint
kind_fits = omega arith

frame-IsFrame : IsFrame frame
frame-IsFrame = record {
  seq_id = omega arith;
  log_id = omega arith;
  service = omega arith;
  method = omega arith;
  headers = (kind_fits, tt);
  payload_encoding = omega arith;
  payload_type = omega arith;
  payload = λ p e. ground (arith, e);
  log_id_new = omega arith;
}

unmarshal-marshal_example : unmarshal (marshal frame) ≡ ok frame
unmarshal-marshal_example = unmarshal-marshal frame frame-IsFrame

abbrev parts : List Bytes
parts = (1 ∷ 2 ∷ []) ∷ [] ∷ (3 ∷ []) ∷ []

-- The second and the third part have come.
abbrev waiting : FragmentEntry
waiting = record {
  parts = none ∷ some [] ∷ some (3 ∷ []) ∷ [];
  received = 2;
  sum = 3;
  expires_at = 50;
}

abbrev reassembler : Reassembler
reassembler = record { entries = ("om_1", waiting) ∷ []; ttl = 10 }

waiting-IsPartOf : IsPartOf parts waiting
waiting-IsPartOf = record { agrees = (refl, (refl, tt)); received = refl; sum = refl }

add_fragment-message_example :
    let (o, t) = add_fragment "om_1" (pos 3) (pos 1) [] 40 reassembler in
    ((o ≡ none) ⊎ (o ≡ some (concat parts))) × IsFor parts "om_1" t.entries
add_fragment-message_example =
    add_fragment-message parts "om_1" 1 [] 40 reassembler (λ _. waiting-IsPartOf, tt) (omega arith)
      (omega arith) refl
