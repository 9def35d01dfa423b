-- ===== src/Tests/Fixtures.antt =====
-- A library, a store and its entries to run the methods of internal/store/store.go on. The digests
-- put a letter in front of the text, and one binding can be sealed.
use Prim.Native.String.{◌++◌ as text_append, len as text_length}
use talkintent.Common.{
  ℕ, String, true, false, ◌&&◌, ◌≡◌, ap, sym, ◌∙◌, Option, none, some, [], ◌∷◌, str_eq, arith,
  eq_iff, if◌then◌else◌,
}
use talkintent.Common.Int.{pos}
use talkintent.Store.Records.{
  QueryDetail, FeishuBinding, StoredInvite, no_usage, status_queued, status_dispatched,
}
use talkintent.Store.Library.{Library, SealsBack}
use talkintent.Store.State.{empty_index}
use talkintent.Store.Journal.{Store}
use talkintent.Store.Event.{QueryUpdate}

abbrev pub binding : FeishuBinding
binding = record { app_id = "cli_1"; app_secret = "secret"; base_url = "" }

abbrev seal_one : String → FeishuBinding → Option String
seal_one nonce b =
    if str_eq b.app_id "cli_1" && str_eq b.app_secret "secret" && str_eq b.base_url ""
    then some "sealed"
    else none

abbrev pub lib : Library
lib = record {
  trim_space = λ t. t;
  to_lower = λ t. t;
  to_upper = λ t. t;
  equal_fold = str_eq;
  contains = str_eq;
  join = text_append;
  front_eight = λ t. t;
  after_eight = λ t. "";
  byte_length = text_length;
  sha256_hex = text_append "h";
  hmac_sha256_hex = λ k t. text_append k (text_append ":" t);
  seal = seal_one;
  unseal = λ c. if str_eq c "sealed" then some binding else none;
}

same_binding :
    (b : FeishuBinding)
    → "cli_1" ≡ b.app_id
    → "secret" ≡ b.app_secret
    → "" ≡ b.base_url
    → binding ≡ b
same_binding b p q r = λ i. record { app_id = p i; app_secret = q i; base_url = r i }

sealed_lem :
    (b : FeishuBinding) (c : String) → seal_one "" b ≡ some c → (c ≡ "sealed") × (binding ≡ b)
sealed_lem b c h = (
  ground arith,
  same_binding b (ground (arith, eq_iff b.app_id "cli_1"))
      (ground (arith, eq_iff b.app_secret "secret")) (ground (arith, eq_iff b.base_url "")),
)

pub absurd_bool : ¬ (false ≡ true)
absurd_bool e = cc e

pub lib-SealsBack : SealsBack lib
lib-SealsBack = record {
  unseal-seal = λ nonce b c h. let (e, f) = sealed_lem b c h in rw e (ap some f);
  seal_nonempty = λ nonce b c h e.
      let (f, g) = sealed_lem b c h in absurd_bool (ap (λ t. str_eq t "sealed") (sym e ∙ f));
}

abbrev pub query : String → String → ℕ → QueryDetail
query id status ttl = record {
  query_id = id;
  status = status;
  asker_id = "mem_ann";
  asker_name = "Ann";
  target_member_id = "mem_bob";
  target_member_name = "Bob";
  target_workspace = "";
  query = "where is the parser?";
  answer = "";
  tools_used = none;
  duration_ms = pos 0;
  token_usage = no_usage;
  queue_position = 0;
  ttl_expires_at = ttl;
  created_at = 1;
  completed_at = 0;
  error_message = "";
  feishu_context = none;
  origin = "";
}

abbrev pub invite : StoredInvite
invite = record {
  code_hash = "salt:INV-1";
  target_name = "Bob";
  aliases = [];
  expires_at = 1000;
  consumed = false;
}

-- One query waits, one is out, and the time of one is over at 100.
abbrev pub store : Store
store = record {
  index = record empty_index {
    invites = ("salt:INV-1", invite) ∷ [];
    queries =
        ("q1", query "q1" status_queued 500)
        ∷ ("q2", query "q2" status_dispatched 50)
        ∷ ("q3", query "q3" status_queued 0)
        ∷ [];
    inbound = ("mem_bob", "q1" ∷ "q2" ∷ "q3" ∷ []) ∷ [];
  };
  salt = "salt";
  is_open = true;
  log = [];
  writes = [];
}

abbrev pub update : String → QueryUpdate
update status = record {
  id = "q1";
  status = status;
  answer = "";
  tools_used = none;
  duration_ms = pos 0;
  token_usage = no_usage;
  completed_at = 0;
  error_msg = "";
}
