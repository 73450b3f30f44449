-- ===== src/Controller/Repository/Credentials/Safety.antt =====
-- repository_controller.go, reconcileSecret: which passwords it writes, and when it generates one.
use borgbase_operator.Base.{
  Text, Dict, get_text, Option, none, some, Bool, true, [], ◌∷◌, ◌≡◌, ◌||◌,
}
use borgbase_operator.Api.Meta.{SecretKeySelector}
use borgbase_operator.Api.Repository.{Repository}
use borgbase_operator.Borgbase.Types.{Repo, float_positive}
use borgbase_operator.Kube.Objects.{Secret}
use borgbase_operator.Controller.Env.{Env, Call, create_secret, update_secret, generate_password}
use borgbase_operator.Controller.Exec.Only.{Only, only_rules}
use borgbase_operator.Controller.Repository.Base.{
  key_restic_repository, key_restic_password, read_secret_key,
}
use borgbase_operator.Controller.Repository.Credentials.{
  create_or_patch, referenced_password, choose_password, write_secret, reconcile_secret,
}

-- A request that is no generation of a password.
abbrev pub NoGeneration : Call → Type 0
NoGeneration generate_password = ⊥
NoGeneration _ = Unit

module _ (env : Env) where
  read_secret_key-NoGeneration :
      (ns : Text) (ref : Option SecretKeySelector) → Only NoGeneration (read_secret_key env ns ref)
  unfolding read_secret_key
  read_secret_key-NoGeneration ns none = search only_rules
  read_secret_key-NoGeneration ns (some ref) = search only_rules

  create_or_patch-NoGeneration :
      (desired existing : Secret) → Only NoGeneration (create_or_patch env desired existing)
  unfolding create_or_patch
  create_or_patch-NoGeneration desired existing = search only_rules depth 12

-- A request that, if it writes the Secret, writes the password `p`, and generates none.
abbrev pub Carries : Text → Call → Type 0
Carries p (create_secret s) = get_text s.entries key_restic_password ≡ p
Carries p (update_secret s) = get_text s.entries key_restic_password ≡ p
Carries p generate_password = ⊥
Carries p _ = Unit

-- The entries that `reconcileSecret` asks for.
abbrev credentials : Text → Text → Dict Text
credentials url p = (key_restic_repository, url) ∷ ((key_restic_password, p) ∷ [])

module _ (env : Env) (repo : Repository) where
  referenced_password-NoGeneration :
      (password : Text) → Only NoGeneration (referenced_password env repo password)
  unfolding referenced_password
  referenced_password-NoGeneration password =
      search (only_rules, read_secret_key-NoGeneration) depth 10

  -- Evidence of an earlier pass stops the generation.
  choose_password-NoGeneration :
      (remote : Repo) (adopted known : Bool) (password : Text)
      → (adopted || (known || float_positive remote.current_usage)) ≡ true
      → Only NoGeneration (choose_password env repo remote adopted known password)
  unfolding choose_password
  choose_password-NoGeneration remote adopted known password h = rw h (search only_rules)

  write_secret-NoGeneration :
      (url : Text) (existing : Secret) (chosen : Text × Bool)
      → Only NoGeneration (write_secret env repo url existing chosen)
  unfolding write_secret
  write_secret-NoGeneration url existing (password, generated) =
      search (only_rules, create_or_patch-NoGeneration env) depth 10

  pub reconcile_secret-NoGeneration :
      (remote : Repo) (known : Bool)
      → (repo.status.adopted || (known || float_positive remote.current_usage)) ≡ true
      → Only NoGeneration (reconcile_secret env repo remote known)
  unfolding reconcile_secret
  reconcile_secret-NoGeneration remote known h =
      search
        (
          only_rules,
          referenced_password-NoGeneration,
          write_secret-NoGeneration,
          λ (t : Text). choose_password-NoGeneration remote repo.status.adopted known t h,
        )
        depth 20
