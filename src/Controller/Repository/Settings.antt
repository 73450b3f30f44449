-- ===== src/Controller/Repository/Settings.antt =====
-- The settings of the BorgBase repository: `reconcileSettings`.
pub mod Convergence
use borgbase_operator.Base.{
  Text, codes, Bool, true, false, not, ◌&&◌, ◌||◌, Option, none, some, ℤ, int_eq, ◌++◌,
  if◌then◌else◌,
}
use borgbase_operator.Api.Repository.{Repository, RepositorySpec}
use borgbase_operator.Borgbase.Types.{Repo, EditOptions, edit_is_zero}
use borgbase_operator.Controller.Env.{Env, borg_edit, event_normal}
use borgbase_operator.Controller.Exec.{Exec, pure, ask, emit, ◌>>=◌, ◌>>◌}
use borgbase_operator.Controller.Repository.Base.{rewrap}

abbrev pub bool_eq : Bool → Bool → Bool
bool_eq true b = b
bool_eq false b = not b

abbrev pub no_edit : EditOptions
no_edit = record { quota = none; quota_enabled = none; alert_days = none; append_only = none }

-- The `switch` on the quota.
abbrev pub quota_edit : Option ℤ → Repo → EditOptions → EditOptions
quota_edit (some q) remote opts =
    if not remote.quota_enabled || not (int_eq q remote.quota)
    then record opts { quota_enabled = some true; quota = some q }
    else opts
quota_edit none remote opts =
    if remote.quota_enabled
    then record opts { quota_enabled = some false; quota = some remote.quota }
    else opts

abbrev pub alert_edit : Option ℤ → Repo → EditOptions → EditOptions
alert_edit none remote opts = opts
alert_edit (some days) remote opts =
    if not (int_eq days remote.alert_days) then record opts { alert_days = some days } else opts

abbrev pub append_only_edit : Bool → Repo → EditOptions → EditOptions
append_only_edit wanted remote opts =
    if not (bool_eq wanted remote.append_only)
    then record opts { append_only = some wanted }
    else opts

-- The options that `reconcileSettings` builds.
unfoldable pub settings_edit : RepositorySpec → Repo → EditOptions
settings_edit spec remote =
    append_only_edit spec.append_only remote
      (alert_edit spec.alert_days remote (quota_edit spec.quota_gib remote no_edit))

-- `func (r *RepositoryReconciler) reconcileSettings`
unfoldable pub reconcile_settings : Env → Text → Repository → Repo → Exec Repository Repo
unfolding settings_edit edit_is_zero
reconcile_settings env token repo remote =
    let opts = settings_edit repo.spec remote in
    if edit_is_zero opts then pure remote else do
      reply ← ask (borg_edit token remote.id opts) (λ h. env.borg_edited h token remote.id opts)
      updated ← rewrap (codes "updating settings on repository " ++ (remote.id ++ codes ": ")) reply
      emit event_normal (codes "SettingsUpdated") (codes "Edit")
          (codes "Updated settings on BorgBase repository " ++ remote.id)
      pure updated
