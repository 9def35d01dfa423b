-- ===== src/Tests/Config.antt =====
-- A configuration of the hub without an error.
use talkintent.Common.{◌≡◌, refl, none, [], not, str_eq}
use talkintent.Common.Int.{pos}
use talkintent.Hub.Submit.{ttl_of}
use talkintent.Config.Validation.{Environment, HubSettings, validate_hub}
use talkintent.Config.Validation.Accepted.{validate-ttl_of}
use talkintent.Tests.HubFixtures.{hub}

abbrev environment : Environment
environment = record { parse_url = λ _. none; exists = λ p. not (str_eq p "") }

abbrev settings : HubSettings
settings = record {
  hub = hub.cfg;
  addr = ":8080";
  data_dir = "/data";
  public_url = "";
  rate_limits = record { queries_per_minute = pos 60; burst = pos 10 };
}

settings_accepted : validate_hub environment settings ≡ []
unfolding validate_hub
settings_accepted = refl

validate-ttl_of_example : ttl_of hub.cfg (pos 0) ≡ 600
validate-ttl_of_example = validate-ttl_of environment settings (pos 0) settings_accepted refl refl
