-- ===== src/Borgbase/Types.antt =====
-- internal/borgbase/types.go
use borgbase_operator.Base.{
  ℕ, ltb, Text, codes, text_eq, is_empty, Bool, not, ◌&&◌, Option, ℤ, ◌++◌, if◌then◌else◌, is_some,
}
use borgbase_operator.Errors.{not_restic, no_credentials, Result, ok, err}

-- A finite `float64`: its sign, and its magnitude as a number over 2 ^ scale.
pub record Float64 : Type 0 where
  pub negative : Bool
  pub magnitude : ℕ
  pub scale : ℕ

-- `f > 0`
abbrev pub float_positive : Float64 → Bool
float_positive f = not f.negative && ltb 0 f.magnitude

pub record Server : Type 0 where
  pub hostname : Text
  pub region : Text

pub record Repo : Type 0 where
  pub id : Text
  pub name : Text
  pub region : Text
  pub format : Text
  pub repo_path : Text
  pub quota : ℤ
  pub quota_enabled : Bool
  pub alert_days : ℤ
  pub append_only : Bool
  pub current_usage : Float64
  pub htpasswd : Text
  pub server : Server

abbrev pub format_restic : Text
format_restic = codes "restic"

-- `func (r *Repo) IsRestic`
unfoldable pub is_restic : Repo → Bool
is_restic r = text_eq r.format format_restic

-- `func (r *Repo) Password`
abbrev pub password : Repo → Text
password r = r.htpasswd

-- `func (r *Repo) Host`
unfoldable pub host : Repo → Text
host r = r.id ++ codes ".repo.borgbase.com"

-- `func (r *Repo) ResticURL`
unfoldable pub restic_url : Repo → Result Text
unfolding is_restic host
restic_url r =
    if not (is_restic r)
    then err not_restic
    else if is_empty (password r)
    then err no_credentials
    else ok
        (codes "rest:https://" ++ (r.id ++ (codes ":" ++ (password r ++ (codes "@" ++ host r)))))

pub record AddOptions : Type 0 where
  pub name : Text
  pub region : Text
  pub quota : Option ℤ
  pub alert_days : Option ℤ
  pub append_only : Bool

-- The settings to change; those that are `none` are left alone.
pub record EditOptions : Type 0 where
  pub quota : Option ℤ
  pub quota_enabled : Option Bool
  pub alert_days : Option ℤ
  pub append_only : Option Bool

-- `func (o EditOptions) IsZero`
unfoldable pub edit_is_zero : EditOptions → Bool
edit_is_zero o =
    not (is_some o.quota)
    && (not (is_some o.quota_enabled)
        && (not (is_some o.alert_days) && not (is_some o.append_only)))
