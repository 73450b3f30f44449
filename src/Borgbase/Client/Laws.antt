-- ===== src/Borgbase/Client/Laws.antt =====
-- client.go: what the searches answer, and where "not found" comes from.
use borgbase_operator.Base.{
  Text, codes, text_eq, Dict, join, keep, true, false, Option, none, some, List, [], ◌∷◌, ◌++◌, ◌≡◌,
  ◌≢◌, ◌⊎◌, inl, inr, refl, arith, ◌==◌, ==_iff, Bool-cases,
}
use borgbase_operator.Errors.{Err, plain, wrap, repo_not_found, is_repo_not_found, Result, ok, err}
use borgbase_operator.Borgbase.Types.{Repo}
use borgbase_operator.Borgbase.Client.{
  Query, query_repo, query_repo_list, Value, text_value, Request, Response, Envelope, Http, Client,
  endpoint_of, read_envelope, read_response, execute, get, find_loop, find_by_name,
}

-- The repositories of a list that bear the name.
abbrev pub named : Text → List Repo → List Repo
named name = keep (λ r. text_eq r.name name)

-- What a search for a name answers, from the repositories that bear it.
abbrev pub pick : Text → List Repo → Result Repo
pick name [] = err (wrap [] repo_not_found (codes ": name " ++ name))
pick name (r ∷ []) = ok r
pick name (_ ∷ (_ ∷ _)) = err (
    plain (
      codes "borgbase: multiple repositories named \""
      ++ (name ++ codes "\"; adopt one explicitly by ID")))

-- Errors of the transport and of the decoder are never the program's `ErrNotFound`.
pub record IsForeign (http : Http) : Type 0 where
  pub built : (r : Request) {e : Err} → http.build_request r ≡ err e → is_repo_not_found e ≡ false
  pub sent : (r : Request) {e : Err} → http.send r ≡ err e → is_repo_not_found e ≡ false
  pub enveloped :
      (t : Text) {e : Err} → http.decode_envelope t ≡ err e → is_repo_not_found e ≡ false
  pub decoded : (t : Text) {e : Err} → http.decode_repo t ≡ err e → is_repo_not_found e ≡ false

module _ (http : Http) (c : Client) where
  find_loop-named_found :
      (name : Text) (list : List Repo) (r : Repo)
      → find_loop http c name list (some r) ≡ pick name (r ∷ named name list)
  unfolding find_loop
  find_loop-named_found name [] r = refl
  find_loop-named_found name (s ∷ list) r = ground (arith, find_loop-named_found name list r)

  find_loop-named :
      (name : Text) (list : List Repo)
      → find_loop http c name list none ≡ pick name (named name list)
  unfolding find_loop
  find_loop-named name [] = refl
  find_loop-named name (s ∷ list) =
      ground (arith, find_loop-named name list, find_loop-named_found name list s)

  -- If the list of repositories is read, `FindByName` returns the repository with the name if
  -- there is exactly one, says "not found" if there is none, and fails if there are several.
  pub find_by_name-named :
      (name : Text) (list : List Repo)
      → execute http c query_repo_list ((codes "name", text_value name) ∷ []) http.decode_repo_list
        ≡ ok list
      → find_by_name http c name ≡ pick name (named name list)
  unfolding find_by_name
  find_by_name-named name list h = rw h (find_loop-named name list)

  -- The reply to a query, once decoded, that makes the client say "not found".
  pub record Refused (q : Query) (vars : Dict Value) : Type 0 where
    pub request : Request
    pub built :
        http.build_request
          (record { endpoint = endpoint_of c; bearer = c.token; query = q; variables = vars })
        ≡ ok request
    pub response : Response
    pub envelope : Envelope
    pub answered : http.send request ≡ ok response
    pub status_ok : response.status_code ≡ 200
    pub enveloped : http.decode_envelope response.body ≡ ok envelope
    pub messages : envelope.errors ≢ []
    pub matched : http.matches_not_found (join envelope.errors (codes "; ")) ≡ true

  module _ (L : IsForeign http) where
    read_envelope-Refused :
        (e : Envelope) (x : Err)
        → read_envelope http c http.decode_repo e ≡ err x
        → is_repo_not_found x ≡ true
        → (e.errors ≢ []) × (http.matches_not_found (join e.errors (codes "; ")) ≡ true)
    unfolding read_envelope
    read_envelope-Refused e x h k = grind (arith, L.decoded e.raw_data)

    -- A response that makes the client say "not found".
    read_response-messages :
        (r : Response) (x : Err)
        → read_response http c http.decode_repo r ≡ err x
        → is_repo_not_found x ≡ true
        → (e : Envelope) × (r.status_code ≡ 200)
          × (http.decode_envelope r.body ≡ ok e)
          × (e.errors ≢ [])
          × (http.matches_not_found (join e.errors (codes "; ")) ≡ true)
    unfolding read_response
    read_response-messages r x h k = elim (Bool-cases (r.status_code == 200)) [
      | inl good ↦ decoded good (http.decode_envelope r.body) refl
      | inr bad ↦ ground arith
    ]
      where
        decoded :
            (r.status_code == 200) ≡ true
            → (d : Result Envelope) → http.decode_envelope r.body ≡ d
            → (e : Envelope) × (r.status_code ≡ 200)
              × (http.decode_envelope r.body ≡ ok e)
              × (e.errors ≢ [])
              × (http.matches_not_found (join e.errors (codes "; ")) ≡ true)
        decoded good (err x') p = ground (arith, L.enveloped r.body p)
        decoded good (ok e) p =
            let both = read_envelope-Refused e x (ground arith) k in
            (e, (==_iff _ _).0 good, p, both.0, both.1)

    execute-Refused :
        (q : Query) (vars : Dict Value) (x : Err)
        → execute http c q vars http.decode_repo ≡ err x
        → is_repo_not_found x ≡ true
        → Refused q vars
    unfolding execute
    execute-Refused q vars x h k = with_request _ refl
      where
        target : Request
        target = record { endpoint = endpoint_of c; bearer = c.token; query = q; variables = vars }

        with_response :
            (request : Request)
            → http.build_request target ≡ ok request
            → (d : Result Response) → http.send request ≡ d
            → Refused q vars
        with_response request b (err x') p = ground (arith, L.sent request p)
        with_response request b (ok r) p =
            let (e, good, d, some_errors, matched) = read_response-messages r x (ground arith) k in
            record {
              request = request;
              built = b;
              response = r;
              envelope = e;
              answered = p;
              status_ok = good;
              enveloped = d;
              messages = some_errors;
              matched = matched;
            }

        with_request : (d : Result Request) → http.build_request target ≡ d → Refused q vars
        with_request (err x') p = ground (arith, L.built target p)
        with_request (ok request) p = with_response request p _ refl

    -- If errors of the transport and the decoders are foreign, `Get` says "not found" only if the server answered with status 200, and either listed
    -- errors whose text says so or returned no repository.
    pub get-not_found :
        (id : Text) (x : Err)
        → get http c id ≡ err x
        → is_repo_not_found x ≡ true
        → Refused query_repo ((codes "id", text_value id) ∷ [])
          ⊎ (execute http c query_repo ((codes "id", text_value id) ∷ []) http.decode_repo
              ≡ ok none)
    unfolding get
    get-not_found id x h k = with_answer _ refl
      where
        vars : Dict Value
        vars = (codes "id", text_value id) ∷ []

        with_answer :
            (d : Result (Option Repo))
            → execute http c query_repo vars http.decode_repo ≡ d
            → Refused query_repo vars ⊎ (execute http c query_repo vars http.decode_repo ≡ ok none)
        with_answer (err x') p = inl (execute-Refused query_repo vars x (ground arith) k)
        with_answer (ok none) p = inr p
        with_answer (ok (some r)) p = ground arith
