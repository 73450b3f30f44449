-- ===== src/Tests/Borgbase.antt =====
-- The client's theorems on a server with one repository.
use borgbase_operator.Base.{codes, [], ◌∷◌, ◌≡◌, ◌⊎◌, none, refl}
use borgbase_operator.Errors.{wrap, repo_not_found, ok}
use borgbase_operator.Borgbase.Client.{
  query_repo, text_value, read_response, read_envelope, execute, get, find_by_name,
}
use borgbase_operator.Borgbase.Client.Laws.{
  named, pick, IsForeign, find_by_name-named, Refused, get-not_found,
}
use borgbase_operator.Tests.Data.{sample_remote, sample_http, sample_client}

sample_http-IsForeign : IsForeign sample_http
sample_http-IsForeign = record {
  built = λ r e. cc;
  sent = λ r e. cc;
  enveloped = λ t e. cc;
  decoded = λ t e. cc;
}

find_by_name-named_example :
    find_by_name sample_http sample_client (codes "prod")
    ≡ pick (codes "prod") (named (codes "prod") (sample_remote ∷ []))
unfolding execute read_response read_envelope
find_by_name-named_example =
    find_by_name-named sample_http sample_client (codes "prod") (sample_remote ∷ []) refl

get-not_found_example :
    Refused sample_http sample_client query_repo ((codes "id", text_value (codes "abc")) ∷ [])
    ⊎ (execute sample_http sample_client query_repo
          ((codes "id", text_value (codes "abc")) ∷ [])
          sample_http.decode_repo
        ≡ ok none)
unfolding get execute read_response read_envelope
get-not_found_example =
    get-not_found sample_http sample_client sample_http-IsForeign (codes "abc")
      (wrap [] repo_not_found (codes ": abc")) refl refl
