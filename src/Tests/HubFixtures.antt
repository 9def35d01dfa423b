-- ===== src/Tests/HubFixtures.antt =====
-- A hub with one session, of the machine `pc` of mem_bob, and a member mem_ann who may ask.
use talkintent.Common.{
  ◌+◌, ◌*◌, ◌/◌, String, true, false, refl, none, some, [], ◌∷◌, str_eq, arith, eq_iff,
  if◌then◌else◌,
}
use talkintent.Common.Int.{pos}
use talkintent.Store.Records.{MemberInfo, no_usage}
use talkintent.Store.Journal.{Store}
use talkintent.Store.Durable.Commit.{IsHealthy}
use talkintent.Hub.Records.{QueryResponse}
use talkintent.Hub.State.{Session, Hub}
use talkintent.Hub.Limiter.{Floats, new_rate_limiter}
use talkintent.Hub.Sessions.Registered.{IsRegistered}
use talkintent.Hub.Access.{Web}
use talkintent.Hub.Submit.{QuerySubmitRequest}
use talkintent.Tests.Fixtures.{lib, store, binding}

abbrev pub web : Web
web = record {
  library = lib;
  cut_prefix = λ p t. if str_eq t "Bearer ann" then some "ann" else none;
}

abbrev pub person : String → String → MemberInfo
person id name = record {
  id = id;
  name = name;
  aliases = [];
  online = true;
  last_seen_at = 1;
  machine_name = "pc";
  workspaces = none;
  has_feishu_bot = false;
}

abbrev pub session : Session
session = record {
  session_id = "s1";
  member_id = "mem_bob";
  machine_name = "pc";
  workspaces = [];
  max_concurrency = 1;
  closed = false;
  last_seen = 5;
}

abbrev pub hub_store : Store
hub_store = record store {
  index = record store.index {
    members = ("mem_ann", person "mem_ann" "Ann") ∷ ("mem_bob", person "mem_bob" "Bob") ∷ [];
    tokens = ("hann", "mem_ann") ∷ [];
  };
}

-- Sums that are rounded up by one part in 2 ^ 50.
abbrev pub floats : Floats
floats = record { scale = 2; fill = λ t e q. t + e * q * 2 + (t + e * q * 2) / 1125899906842624 }

abbrev pub hub : Hub
hub = record {
  cfg = record {
    admin_token = "admin";
    heartbeat_interval_sec = pos 20;
    default_query_ttl_sec = pos 600;
    max_query_ttl_sec = pos 604800;
    max_probe_timeout_sec = pos 120;
  };
  store = hub_store;
  heap = ("s1", session) ∷ [];
  member_sessions = ("mem_bob", "s1" ∷ []) ∷ [];
  sessions_by_id = "s1" ∷ [];
  daemon_conns = ("mem_bob", "s1") ∷ [];
  waiters = ("q1", 7 ∷ []) ∷ [];
  timeouts = ("q1", 30) ∷ [];
  idempotency = ("key", record { query_id = "q1"; expires_at = 1000 }) ∷ [];
  limiter = new_rate_limiter floats (pos 0) (pos 0);
  sent = [];
  delivered = [];
  feishu_handler = false;
  replies = [];
  clients = record {
    registered = ("mem_ann", 1) ∷ [];
    running = (1, binding) ∷ [];
    next = 2;
    evicted = [];
  };
}

pub hub-IsHealthy : IsHealthy hub.store
hub-IsHealthy = record { opened = refl; no_faults = refl }

pub hub-IsRegistered : IsRegistered hub
hub-IsRegistered = record {
  sessions = λ member id e. (
    ground (arith, e, eq_iff "mem_bob" member, eq_iff "s1" id),
    ground (arith, e, eq_iff "mem_bob" member, eq_iff "s1" id),
  );
  primary = λ member id e. ground (arith, e, eq_iff "mem_bob" member, eq_iff "s1" id);
  known = λ id e. ground (arith, e, eq_iff "s1" id);
}

abbrev pub response : QueryResponse
response = record {
  query_id = "q1";
  status = "success";
  answer = "in Parser.go";
  tools_used = none;
  duration_ms = pos 3;
  token_usage = no_usage;
  error_message = "";
}

abbrev pub question : String → QuerySubmitRequest
question key = record {
  target = "mem_bob";
  query = "where is the lexer?";
  target_workspace = "";
  timeout_seconds = pos 0;
  ttl_seconds = pos 0;
  idempotency_key = key;
  wait = true;
}
