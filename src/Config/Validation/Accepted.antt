-- ===== src/Config/Validation/Accepted.antt =====
-- internal/config/validate.go and internal/hub/hub.go: what a hub may rely on under a configuration
-- without an error.
use talkintent.Common.{Bool, true, false, ◌&&◌, ◌≡◌, refl, List, [], ◌∷◌, ◌++◌, ltb, arith}
use talkintent.Common.Int.{ℤ, is_positive, clamp_zero}
use talkintent.Hub.Records.{HubConfig, or_default, cap_at}
use talkintent.Hub.Submit.{ttl_of}
use talkintent.Config.Validation.{
  Environment, HubSettings, Issue, issue, default_over_max, validate_times, validate_hub,
}

front_empty : (a b : List Issue) → a ++ b ≡ [] → a ≡ []
front_empty [] b e = refl
front_empty (i ∷ a) b e = ground (arith, e)

back_empty : (a b : List Issue) → a ++ b ≡ [] → b ≡ []
back_empty [] b e = e
back_empty (i ∷ a) b e = ground (arith, e)

issue-none : (b : Bool) (i : Issue) → issue b i ≡ [] → b ≡ false
issue-none false i e = refl
issue-none true i e = ground (arith, e)

accepted_times :
    (env : Environment) (c : HubSettings) → validate_hub env c ≡ [] → validate_times c.hub ≡ []
unfolding validate_hub
accepted_times env c e = back_empty _ _ (front_empty _ _ (front_empty _ _ e))

accepted_default : (c : HubConfig) → validate_times c ≡ [] → default_over_max c ≡ false
accepted_default c e = issue-none _ _ (back_empty _ _ (front_empty _ _ e))

capped_default :
    (d m : ℤ) (given : ℤ)
    → is_positive d ≡ true
    → is_positive given ≡ false
    → is_positive d && (is_positive m && ltb (clamp_zero m) (clamp_zero d)) ≡ false
    → cap_at m (or_default (or_default 86400 d) given) ≡ clamp_zero d
capped_default d m given h g e = ground (arith, h, g, e)

-- Under a configuration without an error that sets a positive default, a query whose request names
-- no positive time to live has that default, whatever the limit is.
pub validate-ttl_of :
    (env : Environment) (c : HubSettings) (given : ℤ)
    → validate_hub env c ≡ []
    → is_positive c.hub.default_query_ttl_sec ≡ true
    → is_positive given ≡ false
    → ttl_of c.hub given ≡ clamp_zero c.hub.default_query_ttl_sec
validate-ttl_of env c given e h g =
    capped_default c.hub.default_query_ttl_sec c.hub.max_query_ttl_sec given h g
      (accepted_default c.hub (accepted_times env c e))
