-- ===== src/OAuth/SignIn.antt =====
-- routers/auth_router.py: the ends of a sign-in, local or at a provider, that mint a code. A pending
-- request is read before an await and used after it; what another request changes on it meanwhile,
-- its provider, is not read again.
use agience_origin.Base.{
  ℕ, Bool, not, ◌&&◌, ◌||◌, Option, none, some, Text, codes, ◌==◌, text_eq, if◌then◌else◌, get, put,
  pop, lower,
}
use agience_origin.Person.Store.{Person, Db, Result, ok, raise, get_by_identity, add}
use agience_origin.Person.Service.{verified_identity, oidc}
use agience_origin.OAuth.Exchange.{AuthData, code_stamp, is_set, text_of}
use agience_origin.OAuth.Flow.{
  AuthRequest, request_stamp, Flow, prune_flow, AuthConfig, local_provider, FlowReply, http_error,
  to_provider, with_code, with_error, or_text, issuer_of, is_known_provider,
}

-- A local sign-in's pending request.
unfoldable pub pop_local_auth_request : Flow → Text → Option AuthRequest
pop_local_auth_request flow oauth_state = elim (get oauth_state flow.pkce_challenges) [
  | none ↦ none
  | some r ↦ if r.provider == local_provider then some r else none
]

-- What a code stands for, whoever signed in.
abbrev pub code_for : AuthRequest → Text → Text → Text → Text → Option Text → Bool → ℕ → AuthData
code_for r provider sub email name picture email_verified now = record {
  provider = provider;
  sub = sub;
  email = email;
  name = name;
  picture = picture;
  email_verified = email_verified;
  client_id = r.client_id;
  redirect_uri = r.redirect_uri;
  scope = r.scope;
  code_challenge = r.code_challenge;
  code_challenge_method = r.code_challenge_method;
  timestamp = now;
  setup_operator_token = if is_set r.setup_operator_token then r.setup_operator_token else none;
}

abbrev pub store_code : Flow → Text → AuthData → Flow
store_code flow code d = record flow { authorization_codes = put code d flow.authorization_codes }

-- The identity that names a person by its own id.
abbrev pub with_local_identity : Db → Person → ℕ → Result Db
with_local_identity db p now = elim (get_by_identity db oidc local_provider p.id) [
  | some row ↦ ok db
  | none ↦ add db (verified_identity p.id oidc local_provider p.id now none)
]

abbrev pub local_code : AuthRequest → Person → ℕ → AuthData
local_code r p now =
    code_for r local_provider p.id (lower (text_of p.email)) p.name (some (text_of p.picture))
      p.email_verified now

abbrev pub local_flow : Flow → Text → AuthRequest → Person → ℕ → Text → Flow
local_flow flow oauth_state r p now code =
    store_code
      (prune_flow now (record flow { pkce_challenges = pop oauth_state flow.pkce_challenges })) code
      (local_code r p now)

abbrev pub signed_in :
    Db → Flow → Text → AuthRequest → Person → ℕ → Text → Result Db → Db × Flow × FlowReply
signed_in db flow oauth_state r p now code (raise e) = (db, flow, http_error 500)
signed_in db flow oauth_state r p now code (ok db') =
    (db', local_flow flow oauth_state r p now code, with_code r.redirect_uri code)

unfoldable pub complete_local_signin :
    Db → Flow → Text → AuthRequest → Person → ℕ → Text → Db × Flow × FlowReply
complete_local_signin db flow oauth_state r p now code =
    signed_in db flow oauth_state r p now code (with_local_identity db p now)

-- /callback up to its first await.
abbrev pub is_other_issuer : Option Text → Option Text → Bool
is_other_issuer expected given =
    is_set expected && (is_set given && not (text_of given == text_of expected))

pub data Callback : Type 0 where
  callback_error : ℕ → Callback
  asking : AuthRequest → Text → Callback

module _ (has_client : Text → Bool) where
  abbrev pub sent_to_provider :
      AuthConfig → Flow → Text → Text → Option AuthRequest → Flow × FlowReply
  sent_to_provider cfg flow oauth_state provider none = (flow, http_error 400)
  sent_to_provider cfg flow oauth_state provider (some r) =
      if provider == local_provider || not (is_known_provider cfg provider)
      then (flow, http_error 400)
      else if not (has_client provider)
      then (flow, http_error 500)
      else (
        record flow {
          pkce_challenges =
              put oauth_state
                (record r { provider = provider; expected_iss = issuer_of cfg provider })
                flow.pkce_challenges;
        },
        to_provider oauth_state,
      )

  unfoldable pub authorize_federate : AuthConfig → Flow → Text → Text → Flow × FlowReply
  authorize_federate cfg flow oauth_state provider =
      sent_to_provider cfg flow oauth_state provider (pop_local_auth_request flow oauth_state)

  abbrev pub asked : AuthRequest → Option Text → Callback
  asked r iss =
      let provider = or_text (some r.provider) (codes "google") in
      if is_other_issuer r.expected_iss iss
      then callback_error 400
      else if not (has_client provider)
      then callback_error 500
      else asking r provider

  unfoldable pub callback_begin : Flow → Option Text → Option Text → Callback
  callback_begin flow none iss = callback_error 400
  callback_begin flow (some state) iss = elim (get state flow.pkce_challenges) [
    | none ↦ callback_error 400
    | some r ↦ if is_set (some state) then asked r iss else callback_error 400
  ]

-- What the provider says of the person, as the code extracts it.
pub record UserInfo : Type 0 where
  pub sub : Text
  pub email : Option Text
  pub name : Text
  pub picture : Option Text
  pub email_verified : Bool

abbrev pub google_id : Text → UserInfo → Option Text
google_id provider info = if provider == codes "google" then some info.sub else none

module _ (is_person_allowed : Option Text → Text → Bool) where
  abbrev pub provider_code : AuthRequest → Text → UserInfo → ℕ → AuthData
  provider_code r provider info now =
      code_for r provider info.sub (lower (text_of info.email)) info.name info.picture
        info.email_verified now

  -- What comes after the provider's answer.
  unfoldable pub callback_finish :
      Flow → AuthRequest → Text → Option UserInfo → ℕ → Text → Flow × FlowReply
  callback_finish flow r provider none now code = (flow, http_error 400)
  callback_finish flow r provider (some info) now code =
      if not (is_set info.email)
      then (flow, http_error 400)
      else if not (is_person_allowed (google_id provider info) (text_of info.email))
      then (flow, with_error r.redirect_uri (codes "access_denied"))
      else (
        prune_flow now (store_code (prune_flow now flow) code (provider_code r provider info now)),
        with_code r.redirect_uri code,
      )
