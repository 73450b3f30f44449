-- ===== src/Healthchecks/Variables.antt =====
-- healthchecks.go: the variables and the command of a check.
use borgbase_operator.Base.{
  Text, codes, is_empty, none, some, true, false, List, [], ◌∷◌, ◌++◌, ◌≡◌, ◌⊎◌, arith,
  if◌then◌else◌,
}
use borgbase_operator.Errors.{ok}
use borgbase_operator.Api.Meta.{SecretKeySelector}
use borgbase_operator.Kube.Pod.{EnvVar, secret_key_ref}
use borgbase_operator.Healthchecks.{Reporter, wrap_command, slug_env, checked_env, reporter_env}

abbrev plain_variable : Text → Text → EnvVar
plain_variable name value = record { name = name; value = value; value_from = none }

abbrev secret_variable : Text → SecretKeySelector → EnvVar
secret_variable name ref = record {
  name = name;
  value = [];
  value_from = some (secret_key_ref ref);
}

-- What runitor finds in its environment: the API, and the UUID that a Secret holds, or the slug and
-- the ping key that a Secret holds. Neither the API nor the slug is empty.
abbrev pub ByUuid : Reporter → List EnvVar → Type 0
ByUuid r vars =
    (ref : SecretKeySelector) × ((r.uuid_ref ≡ some ref)
      × ((is_empty r.api_url ≡ false)
          × (vars
              ≡ plain_variable (codes "HC_API_URL") r.api_url
                ∷ (secret_variable (codes "CHECK_UUID") ref ∷ []))))

abbrev pub BySlug : Reporter → List EnvVar → Type 0
BySlug r vars =
    (key : SecretKeySelector) × ((r.ping_key_ref ≡ some key)
      × (((is_empty r.api_url ≡ false) × (is_empty r.slug ≡ false))
          × (vars
              ≡ plain_variable (codes "HC_API_URL") r.api_url
                ∷ (plain_variable (codes "CHECK_SLUG") r.slug
                    ∷ (secret_variable (codes "PING_KEY") key ∷ [])))))

-- What is set and what is run, for a disabled reporter, a UUID and a slug.
abbrev pub Fits : Reporter → List Text → List EnvVar → Type 0
Fits r cmd vars =
    ((r.enabled ≡ false) × ((vars ≡ []) × (wrap_command r cmd ≡ cmd)))
    ⊎ (((r.enabled ≡ true)
          × (ByUuid r vars × (wrap_command r cmd ≡ codes "runitor" ∷ (codes "--" ∷ cmd))))
        ⊎ (((r.enabled ≡ true) × (r.uuid_ref ≡ none))
            × (BySlug r vars
                × (wrap_command r cmd
                    ≡ codes "runitor"
                      ∷ ((if r.create then codes "-create" ∷ [] else []) ++ (codes "--" ∷ cmd))))))

-- If a reporter has variables, then either it is disabled, sets none and runs the command as it
-- is, or it names its check by the UUID that its Secret holds and never creates it, or without a
-- UUID by its slug, which is not empty, with the ping key that its Secret holds, and creates it if
-- it is told to. In the last two cases it also sets the API URL, which is not empty.
pub reporter_env-Fits :
    (r : Reporter) (cmd : List Text) (vars : List EnvVar)
    → reporter_env r ≡ ok vars
    → Fits r cmd vars
unfolding reporter_env checked_env slug_env wrap_command
reporter_env-Fits r cmd vars h = ground arith
