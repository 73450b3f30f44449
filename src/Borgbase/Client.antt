-- ===== src/Borgbase/Client.antt =====
-- internal/borgbase/client.go. The HTTP transport and the JSON decoder are the argument `Http`;
-- a query is named by its constant text in the source.
pub mod Laws
use borgbase_operator.Base.{
  ℕ, Text, codes, is_empty, text_eq, insert, Dict, join, trim_space, take, Bool, true, false, not,
  Option, none, some, ℤ, is_some, List, [], ◌∷◌, ◌++◌, ◌==◌, if◌then◌else◌,
}
use borgbase_operator.Errors.{Err, plain, wrap, repo_not_found, Result, ok, err, ◌>>=◌}
use borgbase_operator.Borgbase.Types.{Repo, AddOptions, EditOptions, format_restic}

pub data Query : Type 0 where
  query_repo query_repo_list mutation_add mutation_edit mutation_delete : Query

pub data Value : Type 0 where
  text_value : Text → Value
  int_value : ℤ → Value
  bool_value : Bool → Value

-- A POST with the JSON headers and `Authorization: Bearer <token>`.
pub record Request : Type 0 where
  pub endpoint : Text
  pub bearer : Text
  pub query : Query
  pub variables : Dict Value

pub record Response : Type 0 where
  pub status_code : ℕ
  pub status_text : Text
  pub body : Text

-- `graphQLResponse`: the raw data, and the messages of the errors.
pub record Envelope : Type 0 where
  pub raw_data : Text
  pub errors : List Text

-- What the standard library and the server do.
pub record Http : Type 0 where
  -- http.NewRequestWithContext: an error for an endpoint that is no URL
  pub build_request : Request → Result Request
  pub send : Request → Result Response
  pub decode_envelope : Text → Result Envelope
  -- json.Unmarshal of the data into each query's struct
  pub decode_repo : Text → Result (Option Repo)
  pub decode_repo_list : Text → Result (List Repo)
  pub decode_repo_added : Text → Result (Option Repo)
  pub decode_repo_edited : Text → Result (Option Repo)
  pub decode_ok : Text → Result (Option Bool)
  -- whether the expression `repoNotFound` matches
  pub matches_not_found : Text → Bool

pub record Client : Type 0 where
  pub endpoint : Text
  pub token : Text

abbrev pub default_endpoint : Text
default_endpoint = codes "https://api.borgbase.com/graphql"

-- `func NewClient`
unfoldable pub new_client : Text → Client
new_client t = record { endpoint = default_endpoint; token = t }

-- `func (c *Client) endpoint`
unfoldable pub endpoint_of : Client → Text
endpoint_of c = if is_empty c.endpoint then default_endpoint else c.endpoint

-- `fmt.Errorf("<before>%w", err)` around a failed step.
abbrev pub wrapping {ℓ} : {A : Type ℓ} → Text → Result A → Result A
wrapping before (ok a) = ok a
wrapping before (err e) = err (wrap before e [])

-- The error of a response whose status is not 200.
abbrev bad_status : Response → Err
bad_status r =
    if is_empty r.body
    then plain (codes "borgbase: unexpected status " ++ r.status_text)
    else plain (
        codes "borgbase: unexpected status "
        ++ (r.status_text ++ (codes ": " ++ trim_space (take 200 r.body))))

module _ (http : Http) (c : Client) where
  -- The error of a GraphQL response that lists errors.
  abbrev graphql_error : List Text → Err
  graphql_error errors =
      let joined = join errors (codes "; ") in
      if http.matches_not_found joined
      then wrap [] repo_not_found (codes ": " ++ joined)
      else plain (codes "borgbase: " ++ joined)

  -- The end of `execute`, where the envelope is decoded.
  unfoldable pub read_envelope {ℓ} : {A : Type ℓ} → (Text → Result A) → Envelope → Result A
  read_envelope decode envelope = elim envelope.errors [
    | [] ↦ wrapping (codes "borgbase: decoding data: ") (decode envelope.raw_data)
    | (e ∷ es) ↦ err (graphql_error (e ∷ es))
  ]

  unfoldable pub read_response {ℓ} : {A : Type ℓ} → (Text → Result A) → Response → Result A
  read_response decode r =
      if not (r.status_code == 200)
      then err (bad_status r)
      else wrapping (codes "borgbase: decoding response: ") (http.decode_envelope r.body)
        >>= read_envelope decode

  -- `func (c *Client) execute`; every caller passes an `out`.
  unfoldable pub execute {ℓ} : {A : Type ℓ} → Query → Dict Value → (Text → Result A) → Result A
  execute query variables decode =
      wrapping (codes "borgbase: building request: ") (
        http.build_request (record {
          endpoint = endpoint_of c;
          bearer = c.token;
          query = query;
          variables = variables;
        }))
      >>= λ request.
          wrapping (codes "borgbase: request failed: ") (http.send request) >>= read_response decode

  -- `func (c *Client) Get`
  unfoldable pub get : Text → Result Repo
  get id = execute query_repo ((codes "id", text_value id) ∷ []) http.decode_repo >>= λ found.
      elim found [ none ↦ err (wrap [] repo_not_found (codes ": " ++ id)) | some r ↦ ok r ]

  -- The loop of `FindByName`.
  unfoldable pub find_loop : Text → List Repo → Option Repo → Result Repo
  find_loop name [] none = err (wrap [] repo_not_found (codes ": name " ++ name))
  find_loop name [] (some r) = ok r
  find_loop name (r ∷ rs) found =
      let next : Result Repo = elim found [
        | some _ ↦ err (
            plain (
              codes "borgbase: multiple repositories named \""
              ++ (name ++ codes "\"; adopt one explicitly by ID")))
        | none ↦ find_loop name rs (some r)
      ] in
      let skip = find_loop name rs found in if not (text_eq r.name name) then skip else next

  -- `func (c *Client) FindByName`
  unfoldable pub find_by_name : Text → Result Repo
  find_by_name name =
      execute query_repo_list ((codes "name", text_value name) ∷ []) http.decode_repo_list
      >>= λ list. find_loop name list none

  abbrev with_int : Text → Option ℤ → Dict Value → Dict Value
  with_int k none vars = vars
  with_int k (some v) vars = insert k (int_value v) vars

  abbrev with_bool : Text → Option Bool → Dict Value → Dict Value
  with_bool k none vars = vars
  with_bool k (some v) vars = insert k (bool_value v) vars

  unfoldable pub add_variables : AddOptions → Dict Value
  add_variables opts = with_int (codes "alertDays") opts.alert_days (
      with_int (codes "quota") opts.quota (
        (codes "name", text_value opts.name)
        ∷ ((codes "region", text_value opts.region)
            ∷ ((codes "format", text_value format_restic)
                ∷ ((codes "quotaEnabled", bool_value (is_some opts.quota))
                    ∷ ((codes "appendOnly", bool_value opts.append_only) ∷ []))))))

  -- `func (c *Client) Add`
  unfoldable pub add : AddOptions → Result Repo
  add opts = execute mutation_add (add_variables opts) http.decode_repo_added >>= λ added.
      elim added [
        | none ↦ err (plain (codes "borgbase: repoAdd returned no repository"))
        | some r ↦ ok r
      ]

  unfoldable pub edit_variables : Text → EditOptions → Dict Value
  edit_variables id opts = with_bool (codes "appendOnly") opts.append_only (
      with_int (codes "alertDays") opts.alert_days (
        with_bool (codes "quotaEnabled") opts.quota_enabled
          (with_int (codes "quota") opts.quota ((codes "id", text_value id) ∷ []))))

  -- `func (c *Client) Edit`
  unfoldable pub edit : Text → EditOptions → Result Repo
  edit id opts =
      execute mutation_edit (edit_variables id opts) http.decode_repo_edited >>= λ edited.
      elim edited [
        | none ↦ err (plain (codes "borgbase: repoEdit returned no repository"))
        | some r ↦ ok r
      ]

  -- `func (c *Client) Delete`
  unfoldable pub delete : Text → Result (Unit {0})
  delete id =
      execute mutation_delete ((codes "id", text_value id) ∷ []) http.decode_ok >>= λ deleted.
      elim deleted [
        | some false ↦
            err (plain (codes "borgbase: repoDelete reported ok=false for repository " ++ id))
        | _ ↦ ok tt
      ]
