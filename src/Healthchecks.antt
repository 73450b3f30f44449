-- ===== src/Healthchecks.antt =====
-- internal/healthchecks/healthchecks.go: the Healthchecks settings of one backup, resolved from
-- the operator's and its own.
pub mod Variables
use borgbase_operator.Base.{
  Text, codes, is_empty, Bool, not, ◌&&◌, Option, none, some, is_some, get_or_default, List, [],
  ◌∷◌, ◌++◌, if◌then◌else◌,
}
use borgbase_operator.Errors.{plain, Result, ok, err}
use borgbase_operator.Api.Meta.{SecretKeySelector}
use borgbase_operator.Kube.Pod.{EnvVar, secret_key_ref}

abbrev pub env_api_url : Text
env_api_url = codes "HC_API_URL"

abbrev pub env_slug : Text
env_slug = codes "CHECK_SLUG"

abbrev pub env_ping_key : Text
env_ping_key = codes "PING_KEY"

abbrev pub env_uuid : Text
env_uuid = codes "CHECK_UUID"

-- `Config`
pub record HealthchecksConfig : Type 0 where
  pub enabled : Bool
  pub api_url : Text
  pub auto_create : Bool

pub record Overrides : Type 0 where
  pub enabled : Option Bool
  pub create : Option Bool
  pub api_url : Text
  pub slug : Text
  pub ping_key_ref : Option SecretKeySelector
  pub uuid_ref : Option SecretKeySelector

pub record Reporter : Type 0 where
  pub enabled : Bool
  pub create : Bool
  pub api_url : Text
  pub slug : Text
  pub ping_key_ref : Option SecretKeySelector
  pub uuid_ref : Option SecretKeySelector

-- `func Resolve`
unfoldable pub resolve : HealthchecksConfig → Overrides → Text → Reporter
resolve cfg o default_slug = record {
  enabled = get_or_default o.enabled cfg.enabled;
  create = get_or_default o.create cfg.auto_create;
  api_url = if is_empty o.api_url then cfg.api_url else o.api_url;
  slug = if is_empty o.slug then default_slug else o.slug;
  ping_key_ref = o.ping_key_ref;
  uuid_ref = o.uuid_ref;
}

-- `func (r Reporter) PingsByUUID`
abbrev pub pings_by_uuid : Reporter → Bool
pings_by_uuid r = is_some r.uuid_ref

-- `func (r Reporter) Wrap`
unfoldable pub wrap_command : Reporter → List Text → List Text
wrap_command r cmd =
    let create : List Text =
      if r.create && not (pings_by_uuid r) then codes "-create" ∷ [] else [] in
    if r.enabled then codes "runitor" ∷ (create ++ (codes "--" ∷ cmd)) else cmd

-- The variables of a check that is pinged by its slug.
unfoldable slug_env : Reporter → EnvVar → Option SecretKeySelector → Result (List EnvVar)
slug_env r url none =
    err (
      plain (codes "healthchecks is enabled but neither pingKeySecretRef nor uuidSecretRef is set"))
slug_env r url (some key) =
    if is_empty r.slug
    then err (plain (codes "healthchecks is enabled but no slug could be determined"))
    else ok (
        url
        ∷ (record { name = env_slug; value = r.slug; value_from = none }
            ∷ (record { name = env_ping_key; value = []; value_from = some (secret_key_ref key) }
                ∷ [])))

unfoldable checked_env : Reporter → EnvVar → Option SecretKeySelector → Result (List EnvVar)
unfolding slug_env
checked_env r url none = slug_env r url r.ping_key_ref
checked_env r url (some ref) =
    ok (url ∷ (record { name = env_uuid; value = []; value_from = some (secret_key_ref ref) } ∷ []))

-- `func (r Reporter) Env`
unfoldable pub reporter_env : Reporter → Result (List EnvVar)
unfolding checked_env slug_env
reporter_env r =
    if not r.enabled
    then ok []
    else if is_empty r.api_url
    then err (plain (codes "healthchecks is enabled but no API URL is configured"))
    else checked_env r (record { name = env_api_url; value = r.api_url; value_from = none })
        r.uuid_ref
