-- ===== src/Controller/Repository/Credentials.antt =====
-- The Secret with the restic URL and password: `reconcileSecret`.
pub mod Safety
pub mod Ownership
use borgbase_operator.Base.{
  Text, Dict, codes, is_empty, text_eq, get_text, copy, Bool, true, false, not, ◌&&◌, ◌||◌, Option,
  none, some, List, [], ◌∷◌, ◌++◌, keep, if◌then◌else◌, get_or_default, is_some,
}
use borgbase_operator.Errors.{Err, plain, is_not_found, Result, ok, err}
use borgbase_operator.Api.Meta.{ObjectMeta, OwnerReference}
use borgbase_operator.Api.Repository.{Repository, DeletionPolicy, policy_delete, secret_name_of}
use borgbase_operator.Borgbase.Types.{Repo, restic_url, float_positive}
use borgbase_operator.Kube.Objects.{Secret}
use borgbase_operator.Controller.Env.{
  Env, get_secret, create_secret, update_secret, generate_password, event_normal,
}
use borgbase_operator.Controller.Exec.{
  Exec, pure, raise, lift, ask, call, attempt, modify, emit, ◌>>=◌, ◌>>◌, on_result,
}
use borgbase_operator.Controller.Helpers.{label_managed_by, managed_by_value}
use borgbase_operator.Controller.Repository.Base.{
  key_restic_repository, key_restic_password, rewrap, read_secret_key,
}

abbrev pub empty_meta : ObjectMeta
empty_meta = record {
  name = [];
  namespace = [];
  uid = [];
  labels = [];
  annotations = [];
  generation = 0;
  creation_timestamp = 0;
  deletion_timestamp = none;
  finalizers = [];
  owner_references = [];
}

-- `corev1.Secret{}`
abbrev pub empty_secret : Secret
empty_secret = record { meta = empty_meta; type = []; entries = [] }

abbrev is_controller : OwnerReference → Bool
is_controller o = get_or_default o.controller false

abbrev same_owner : OwnerReference → OwnerReference → Bool
same_owner have want = text_eq have.uid want.uid && text_eq have.name want.name

abbrev without_controllers : ObjectMeta → List OwnerReference
without_controllers obj = keep (λ o. not (is_controller o)) obj.owner_references

-- The `switch` of `syncControllerRef` on the wanted and the present controller.
abbrev synced_refs :
    Option OwnerReference → Option OwnerReference → ObjectMeta → List OwnerReference
synced_refs none none obj = obj.owner_references
synced_refs none (some have) obj = without_controllers obj
synced_refs (some want) none obj = without_controllers obj ++ (want ∷ [])
synced_refs (some want) (some have) obj =
    if same_owner have want then obj.owner_references else without_controllers obj ++ (want ∷ [])

-- `func syncControllerRef`
unfoldable pub sync_controller_ref : Env → ObjectMeta → ObjectMeta → ObjectMeta
sync_controller_ref env obj desired = record obj {
  owner_references = synced_refs (env.get_controller_of desired) (env.get_controller_of obj) obj;
}

-- The Secret as `createOrPatch` would have it.
unfoldable pub updated_secret : Env → Secret → Secret → Secret
unfolding sync_controller_ref
updated_secret env desired existing = record existing {
  meta =
      sync_controller_ref env
        (record existing.meta { labels = copy existing.meta.labels desired.meta.labels })
        desired.meta;
  entries = copy existing.entries desired.entries;
}

create_new : Env → Secret → Exec Repository Text
create_new env desired = do
  reply ← ask (create_secret desired) (λ h. env.created_secret h desired)
  rewrap (codes "creating secret " ++ (desired.meta.name ++ codes ": ")) reply
  pure (codes "created")

-- `func (r *RepositoryReconciler) createOrPatch`; `name` is empty if no Secret was found.
unfoldable pub create_or_patch : Env → Secret → Secret → Exec Repository Text
unfolding updated_secret create_new
create_or_patch env desired existing =
    if is_empty existing.meta.name
    then create_new env desired
    else if not (text_eq (get_text existing.meta.labels label_managed_by) managed_by_value)
    then raise (
        plain (
          codes "secret "
          ++ (existing.meta.namespace
              ++ (codes "/"
                  ++ (existing.meta.name
                      ++ codes
                          " already exists and is not managed by this operator; set spec.secretName to a name the operator owns")))))
    else let updated = updated_secret env desired existing in
      if env.same_secret existing updated then pure [] else do
        reply ← ask (update_secret updated) (λ h. env.updated_secret h updated)
        rewrap (codes "updating secret " ++ (desired.meta.name ++ codes ": ")) reply
        pure (codes "updated")

-- The Secret that is there, or an empty one.
abbrev pub existing_secret : Result Secret → Exec Repository Secret
existing_secret r = on_result r pure (λ e. if is_not_found e then pure empty_secret else raise e)

-- The password of `spec.passwordSecretRef`, if the Secret has none.
unfoldable pub referenced_password : Env → Repository → Text → Exec Repository Text
referenced_password env repo password =
    if not (is_empty password && is_some repo.spec.password_secret_ref) then pure password else do
      reply ← attempt (read_secret_key env repo.meta.namespace repo.spec.password_secret_ref)
      rewrap (codes "reading passwordSecretRef: ") reply

-- The password to write, and whether it is a new one.
unfoldable pub choose_password :
    Env → Repository → Repo → Bool → Bool → Text → Exec Repository (Text × Bool)
choose_password env repo remote adopted known password =
    if not (is_empty password)
    then pure (password, false)
    else if adopted || (known || float_positive remote.current_usage)
    then raise (
        plain (
          codes "repository "
          ++ (remote.id
              ++ (codes
                    " has already been provisioned but no password is available; restore Secret "
                  ++ (secret_name_of repo
                      ++ codes " or set spec.passwordSecretRef to the existing RESTIC_PASSWORD")))))
    else do fresh ← call generate_password env.password_generated; pure (fresh, true)

-- The Secret that `reconcileSecret` asks for.
unfoldable pub desired_secret : Repository → Text → Text → Secret
desired_secret repo url password = record {
  meta = record empty_meta {
    name = secret_name_of repo;
    namespace = repo.meta.namespace;
    labels = (label_managed_by, managed_by_value) ∷ [];
  };
  type = codes "Opaque";
  entries = (key_restic_repository, url) ∷ ((key_restic_password, password) ∷ []);
}

-- The Repository owns its Secret only under the policy Delete.
unfoldable pub with_owner : Env → Repository → Secret → Result Secret
with_owner env repo desired = elim repo.spec.deletion_policy [
  | policy_delete ↦ elim (env.set_controller_reference repo.meta desired.meta) [
    | ok meta ↦ ok (record desired { meta = meta })
    | err e ↦ err e
  ]
  | _ ↦ ok desired
]

abbrev announce_password : Bool → Text → Exec Repository (Unit {0})
announce_password generated name =
    if generated
    then emit event_normal (codes "PasswordGenerated") (codes "Generate") (
        codes "Generated a new restic password in Secret "
        ++ (name ++ codes "; back it up, it cannot be recovered"))
    else pure tt

-- The part of `reconcileSecret` after the password is chosen.
unfoldable pub write_secret :
    Env → Repository → Text → Secret → Text × Bool → Exec Repository (Unit {0})
unfolding create_or_patch desired_secret with_owner
write_secret env repo url existing (password, generated) = do
  desired ← lift (with_owner env repo (desired_secret repo url password))
  create_or_patch env desired existing
  announce_password generated (secret_name_of repo)
  modify λ o. record o { status = record o.status { secret_name = secret_name_of repo } }

-- `func (r *RepositoryReconciler) reconcileSecret`; `repo` is the object with `status.adopted`
-- as `resolveRepo` left it.
unfoldable pub reconcile_secret : Env → Repository → Repo → Bool → Exec Repository (Unit {0})
unfolding referenced_password choose_password write_secret
reconcile_secret env repo remote known = do
  url ← lift (restic_url remote)
  reply ←
      ask (get_secret repo.meta.namespace (secret_name_of repo))
        (λ h. env.got_secret h repo.meta.namespace (secret_name_of repo))
  existing ← existing_secret reply
  password ← referenced_password env repo (get_text existing.entries key_restic_password)
  chosen ← choose_password env repo remote repo.status.adopted known password
  write_secret env repo url existing chosen
