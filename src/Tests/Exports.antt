-- ===== src/Tests/Exports.antt =====
-- The theorem on the command `env`.
use borgbase_operator.Base.{Text, codes, some, [], ◌∷◌}
use borgbase_operator.Errors.{Result, ok}
use borgbase_operator.Kube.Objects.{Secret}
use borgbase_operator.Controller.Env.{History}
use borgbase_operator.Cli.Environment.{UrlLibrary}
use borgbase_operator.Tests.Data.{sample_secret}

-- A library for URLs of one user, whose password is the whole text.
abbrev one_user : UrlLibrary
one_user = record {
  parse = λ t. some (record {
    user = some (record { username = codes "u"; password = some t });
    others = codes "host";
  });
  to_text = λ u. u.others;
  query_escape = λ t. t;
}

abbrev secret_with : Text → Secret
secret_with url = record sample_secret { entries = (codes "RESTIC_REPOSITORY", url) ∷ [] }

abbrev first_answer : History → Text → Text → Result Secret
first_answer h ns name = ok (secret_with (codes "rest:one"))

abbrev second_answer : History → Text → Text → Result Secret
second_answer h ns name = ok (secret_with (codes "rest:two"))
