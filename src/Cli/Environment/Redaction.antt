-- ===== src/Cli/Environment/Redaction.antt =====
-- env.go: what the output of `env` tells of a password.
use borgbase_operator.Base.{Text, cut, get_text, false, some, ◌≡◌, if◌then◌else◌}
use borgbase_operator.Errors.{Err, is_not_found, Result, ok, err}
use borgbase_operator.Kube.Objects.{Secret}
use borgbase_operator.Api.Repository.{Repository}
use borgbase_operator.Controller.Env.{Env, History}
use borgbase_operator.Controller.Exec.{pure, raise, ◌>>=◌, on_result}
use borgbase_operator.Controller.Repository.Base.{key_restic_repository}
use borgbase_operator.Cli.Console.{Console, Cmd}
use borgbase_operator.Cli.Repair.{credentials}
use borgbase_operator.Cli.Environment.{UrlLibrary, print_credentials}

module _ (lib : UrlLibrary) where
  -- Two texts are one URL but for the password of its user.
  pub record SameButPassword (raw raw' : Text) : Type 0 where
    pub scheme : Text
    pub rest : Text
    pub rest' : Text
    pub username : Text
    pub password : Text
    pub password' : Text
    pub others : Text
    pub parts : cut b':' raw ≡ some (scheme, rest)
    pub parts' : cut b':' raw' ≡ some (scheme, rest')
    pub parsed :
        lib.parse rest
        ≡ some (record {
          user = some (record { username = username; password = some password });
          others = others;
        })
    pub parsed' :
        lib.parse rest'
        ≡ some (record {
          user = some (record { username = username; password = some password' });
          others = others;
        })

  -- Two answers for a Secret that differ in passwords only.
  pub data Alike : Result Secret → Result Secret → Type 0 where
    alike_secrets :
        {a b : Secret}
        → SameButPassword
            (get_text a.entries key_restic_repository)
            (get_text b.entries key_restic_repository)
        → Alike (ok a) (ok b)
    alike_errors : {e : Err} → Alike (err e) (err e)

  -- What the API answers for Secrets.
  abbrev pub Answers : Type 0
  Answers = History → Text → Text → Result Secret

  abbrev pub answering : Env → Answers → Env
  answering env secrets = record env { got_secret = secrets }

  module _ (env : Env) where
    reveal : Answers → Repository → Cmd (Unit {0})
    reveal secrets repo = credentials (answering env secrets) repo >>= λ secret.
        print_credentials lib env false secret

    -- What follows the answer for the Secret.
    abbrev answered : (Err → Err) → Result Secret → Cmd (Unit {0})
    answered lost r =
        on_result r pure (λ e. if is_not_found e then raise (lost e) else raise e) >>= λ secret.
        print_credentials lib env false secret
