-- ===== src/Controller/Repository/Settings/Convergence.antt =====
-- repository_controller.go, reconcileSettings: the edit, and the settings after it.
use borgbase_operator.Base.{
  true, false, Option, none, some, ℤ, pos, negsuc, int_eq, ◌≡◌, ◌↔◌, arith, get_or_default,
}
use borgbase_operator.Api.Repository.{RepositorySpec}
use borgbase_operator.Borgbase.Types.{Repo, EditOptions}

-- What BorgBase makes of an edit: the settings that it names are changed.
abbrev pub applied : EditOptions → Repo → Repo
applied opts remote = record remote {
  quota = get_or_default opts.quota remote.quota;
  quota_enabled = get_or_default opts.quota_enabled remote.quota_enabled;
  alert_days = get_or_default opts.alert_days remote.alert_days;
  append_only = get_or_default opts.append_only remote.append_only;
}

abbrev pub QuotaMatches : Option ℤ → Repo → Type 0
QuotaMatches (some q) remote = (remote.quota_enabled ≡ true) × (remote.quota ≡ q)
QuotaMatches none remote = remote.quota_enabled ≡ false

abbrev pub AlertMatches : Option ℤ → Repo → Type 0
AlertMatches (some days) remote = remote.alert_days ≡ days
AlertMatches none remote = Unit

-- The settings of the BorgBase repository are those of the spec.
pub record Matches (spec : RepositorySpec) (remote : Repo) : Type 0 where
  pub quota_matches : QuotaMatches spec.quota_gib remote
  pub alert_matches : AlertMatches spec.alert_days remote
  pub append_only_matches : remote.append_only ≡ spec.append_only

int_eq_iff : (a b : ℤ) → (int_eq a b ≡ true) ↔ (a ≡ b)
int_eq_iff (pos a) (pos b) = ground arith
int_eq_iff (pos a) (negsuc b) = ground arith
int_eq_iff (negsuc a) (pos b) = ground arith
int_eq_iff (negsuc a) (negsuc b) = ground arith
