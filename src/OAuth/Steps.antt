-- ===== src/OAuth/Steps.antt =====
-- The routes of the flow as steps of one process. A route that awaits is two steps: between them other
-- requests run, and what it has read is held in `waiting`.
use agience_origin.Base.{
  ℕ, Bool, Option, none, some, List, [], ◌∷◌, ◌++◌, Text, text_eq, if◌then◌else◌, get, get_elem?,
  is_some,
}
use agience_origin.Person.Store.{Person, Db}
use agience_origin.OAuth.Exchange.{code_stamp, grant_authorization_code, prune_auth_cache}
use agience_origin.OAuth.Redirect.{Url}
use agience_origin.OAuth.Clients.{OAuthClient}
use agience_origin.OAuth.Metadata.{Metadata}
use agience_origin.OAuth.Register.{register_client}
use agience_origin.OAuth.Flow.{
  AuthRequest, request_stamp, Flow, AuthConfig, AuthorizeQuery, authorize,
}
use agience_origin.OAuth.SignIn.{
  pop_local_auth_request, authorize_federate, complete_local_signin, Callback, callback_error,
  asking, callback_begin, UserInfo, callback_finish,
}

-- Requests that a route has read and will use after an await.
pub record Node : Type 0 where
  pub clients : List OAuthClient
  pub flow : Flow
  pub db : Db
  pub waiting : List AuthRequest

pub data Step : Type 0 where
  authorizing : AuthorizeQuery → ℕ → Text → Step
  federating : Text → Text → Step
  returning : Option Text → Option Text → Step
  answered : ℕ → Text → Option UserInfo → ℕ → Text → Step
  local_start : Text → Step
  local_end : ℕ → Text → Person → ℕ → Text → Step
  exchanging : Text → Text → Text → Option Text → ℕ → ℕ → Step
  registering : Bool → Text → Text → Option Metadata → Text → ℕ → Step

-- The process has just started.
abbrev pub started : List OAuthClient → Db → Node
started clients db = record {
  clients = clients;
  flow = record { pkce_challenges = []; authorization_codes = [] };
  db = db;
  waiting = [];
}

abbrev pub waits : Node → Option AuthRequest → Node
waits s none = s
waits s (some r) = record s { waiting = s.waiting ++ r ∷ [] }

abbrev pub request_of : Callback → Option AuthRequest
request_of (callback_error status) = none
request_of (asking r provider) = some r

module _ (urlparse : Text → Option Url) (cfg : AuthConfig) (has_client : Text → Bool)
    (is_person_allowed : Option Text → Text → Bool) (s256 : Text → Text) where
  abbrev pub finished : Node → Text → Option UserInfo → ℕ → Text → Option AuthRequest → Node
  finished s provider info now code none = s
  finished s provider info now code (some r) = record s {
    flow = (callback_finish is_person_allowed s.flow r provider info now code).0;
  }

  abbrev pub signed : Node → Text → Person → ℕ → Text → Option AuthRequest → Node
  signed s oauth_state p now code none = s
  signed s oauth_state p now code (some r) =
      let out = complete_local_signin s.db s.flow oauth_state r p now code in
      record s { db = out.0; flow = out.1 }

  unfoldable pub step : Node → Step → Node
  step s (authorizing q now oauth_state) = record s {
    flow = (authorize urlparse has_client cfg s.clients s.flow q now oauth_state).0;
  }
  step s (federating oauth_state provider) = record s {
    flow = (authorize_federate has_client cfg s.flow oauth_state provider).0;
  }
  step s (returning state iss) = waits s (request_of (callback_begin has_client s.flow state iss))
  step s (answered i provider info now code) =
      finished s provider info now code (get_elem? s.waiting i)
  step s (local_start oauth_state) = waits s (pop_local_auth_request s.flow oauth_state)
  step s (local_end i oauth_state p now code) =
      signed s oauth_state p now code (get_elem? s.waiting i)
  step s (exchanging code redirect_uri client_id verifier now later) =
      let out =
        grant_authorization_code s256 s.flow.authorization_codes code redirect_uri client_id
          verifier now later in
      record s {
        flow = record {
          pkce_challenges =
              if is_some (get code s.flow.authorization_codes)
              then prune_auth_cache now s.flow.pkce_challenges
              else s.flow.pkce_challenges;
          authorization_codes = out.0;
        };
      }
  step s (registering enabled gate_token presented body token now) = record s {
    clients =
        (register_client urlparse cfg.redirects s.clients enabled gate_token presented body token
          now).0;
  }

  unfoldable pub run : Node → List Step → Node
  run s [] = s
  run s (e ∷ es) = run (step s e) es
