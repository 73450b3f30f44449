-- ===== src/Cli/Environment.antt =====
-- internal/cli/env.go: the command `env`, which prints the restic credentials of a repository.
pub mod Redaction
use borgbase_operator.Base.{
  ℕ, zero, suc, ◌-◌, Text, codes, text_eq, has_prefix, length, cut, get_text, Bool, not, Option,
  none, some, [], ◌∷◌, ◌++◌, if◌then◌else◌,
}
use borgbase_operator.Kube.Objects.{Secret}
use borgbase_operator.Backup.Script.{shell_quote}
use borgbase_operator.Controller.Env.{Env}
use borgbase_operator.Controller.Exec.{◌>>=◌, ◌>>◌, on_option}
use borgbase_operator.Controller.Repository.Base.{key_restic_repository, key_restic_password}
use borgbase_operator.Cli.Console.{
  Cmd, new_printer, new_error_printer, printer_err, say, say_and_check,
}
use borgbase_operator.Cli.Resolve.{resolve, repository_of}
use borgbase_operator.Cli.Repair.{credentials}

-- net/url: a URL is its user and whatever else it holds.
pub record UserInfo : Type 0 where
  pub username : Text
  pub password : Option Text

pub record Url : Type 0 where
  pub user : Option UserInfo
  pub others : Text

pub record UrlLibrary : Type 0 where
  -- `url.Parse`, if it has no error, `(*URL).String`, and `url.QueryEscape`
  pub parse : Text → Option Url
  pub to_text : Url → Text
  pub query_escape : Text → Text

abbrev pub redacted : Text
redacted = codes "***"

-- strings.ReplaceAll of a text that is not empty, after `skip` bytes of a match.
unfoldable pub replace_from : Text → Text → ℕ → Text → Text
replace_from old new skip [] = []
replace_from old new (suc skip) (c ∷ s) = replace_from old new skip s
replace_from old new zero (c ∷ s) =
    let matched = replace_from old new (length old - 1) s in
    let unmatched = replace_from old new 0 s in
    if has_prefix (c ∷ s) old then new ++ matched else c ∷ unmatched

module _ (lib : UrlLibrary) where
  -- The URL with another password.
  unfoldable pub with_redacted : Text → UserInfo → Text → Text
  unfolding replace_from
  with_redacted scheme user others =
      scheme
      ++ (codes ":"
          ++ replace_from (lib.query_escape redacted) redacted 0 (
              lib.to_text (record {
                user = some (record user { password = some redacted });
                others = others;
              })))

  -- `func RedactResticURL`
  unfoldable pub redact_restic_url : Text → Text
  unfolding with_redacted
  redact_restic_url raw =
      on_option (cut b':' raw)
        (λ parts.
          if not (text_eq parts.0 (codes "rest"))
          then redacted
          else on_option (lib.parse parts.1)
              (λ u.
                on_option u.user
                  (λ user. on_option user.password (λ _. with_redacted parts.0 user u.others) raw)
                  redacted)
              redacted)
        redacted

  module _ (env : Env) where
    unfoldable pub print_exports : Text → Text → Cmd (Unit {0})
    print_exports url password = do
      new_printer
      say env (
          codes "export "
          ++ (key_restic_repository ++ (codes "=" ++ (shell_quote url ++ codes "\n"))))
      say env (
          codes "export "
          ++ (key_restic_password ++ (codes "=" ++ (shell_quote password ++ codes "\n"))))
      printer_err

    unfoldable pub print_redacted : Text → Cmd (Unit {0})
    unfolding print_exports
    print_redacted url = do
      new_error_printer
      say_and_check env (codes "# password redacted; pass --show-password to reveal it\n")
      print_exports url redacted

    unfoldable pub print_credentials : Bool → Secret → Cmd (Unit {0})
    unfolding redact_restic_url print_redacted print_exports
    print_credentials show_password secret =
        let url = get_text secret.entries key_restic_repository in
        let password = get_text secret.entries key_restic_password in
        if not show_password
        then print_redacted (redact_restic_url url)
        else print_exports url password

    -- `func runEnv`
    unfoldable pub run_env : Text → Text → Bool → Cmd (Unit {0})
    unfolding print_credentials
    run_env ns arg show_password = do
      target ← resolve env ns arg
      repo ← repository_of env target
      secret ← credentials env repo
      print_credentials show_password secret
