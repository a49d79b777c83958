-- ===== src/OAuth/Flow.antt =====
-- routers/auth_router.py: the routes between a client's request and its code. /authorize, the
-- provider buttons, /callback, and the end of the local sign-ins. What the provider answers, whether
-- an authlib client exists, the allow-list and fresh tokens are arguments. A route that awaits is cut
-- there. The registration is looked up, and the allow-list of addresses asked, by the two modules
-- before this one.
use agience_origin.Base.{
  ℕ, Bool, true, false, not, ◌&&◌, ◌||◌, Option, none, some, List, [], ◌∷◌, Text, codes, ◌==◌,
  text_eq, ltb, if◌then◌else◌, length, get, put,
}
use agience_origin.OAuth.Exchange.{AuthData, code_stamp, Stamped, prune_auth_cache, is_set, text_of}
use agience_origin.OAuth.Redirect.{
  Url, RedirectConfig, is_member, is_client_redirect_allowed, redirect_uri_matches_registered,
}
use agience_origin.OAuth.Clients.{OAuthClient, get_by_client_id}

-- What stands in pkce_challenges.
pub record AuthRequest : Type 0 where
  pub client_id : Text
  pub redirect_uri : Text
  pub provider : Text
  pub scope : Text
  pub state : Option Text
  pub code_challenge : Option Text
  pub code_challenge_method : Option Text
  pub expected_iss : Option Text
  pub timestamp : ℕ
  pub setup_operator_token : Option Text

instance abbrev pub request_stamp : Stamped AuthRequest
request_stamp = record { stamp = λ r. r.timestamp }

pub record Flow : Type 0 where
  pub pkce_challenges : List (Text × AuthRequest)
  pub authorization_codes : List (Text × AuthData)

abbrev pub prune_flow : ℕ → Flow → Flow
prune_flow now flow = record {
  pkce_challenges = prune_auth_cache now flow.pkce_challenges;
  authorization_codes = prune_auth_cache now flow.authorization_codes;
}

pub record AuthConfig : Type 0 where
  pub redirects : RedirectConfig
  pub platform_client_id : Text
  pub platform_client_ids : List Text
  -- the providers with their issuers
  pub registered_providers : List (Text × Option Text)
  pub password_ok : Bool
  pub otp_ok : Bool

abbrev pub local_provider : Text
local_provider = codes "local"

unfoldable pub is_first_party_client : AuthConfig → Text → Bool
is_first_party_client cfg client_id =
    cfg.platform_client_id == client_id || is_member cfg.platform_client_ids client_id

-- The query of a GET /authorize.
pub record AuthorizeQuery : Type 0 where
  pub response_type : Text
  pub client_id : Text
  pub redirect_uri : Text
  pub provider : Option Text
  pub scope : Option Text
  pub state : Option Text
  pub code_challenge : Option Text
  pub code_challenge_method : Option Text
  pub setup_operator_token : Option Text

pub data FlowReply : Type 0 where
  http_error : ℕ → FlowReply
  sign_in_page : Text → FlowReply
  to_provider : Text → FlowReply
  -- back to the client's address with a code, or with an error
  with_code : Text → Text → FlowReply
  with_error : Text → Text → FlowReply

abbrev pub or_text : Option Text → Text → Text
or_text (some (c ∷ s)) other = c ∷ s
or_text _ other = other

-- "local" is no provider's name.
abbrev pub is_local_choice : Option Text → Bool
is_local_choice none = true
is_local_choice (some p) = p == local_provider

abbrev pub provider_name : Option Text → Text
provider_name none = local_provider
provider_name (some p) = p

abbrev pub issuer_of : AuthConfig → Text → Option Text
issuer_of cfg provider = elim (get provider cfg.registered_providers) [ none ↦ none | some i ↦ i ]

abbrev pub is_known_provider : AuthConfig → Text → Bool
is_known_provider cfg provider = elim (get provider cfg.registered_providers) [
  | none ↦ false
  | some i ↦ true
]

abbrev pub has_providers : AuthConfig → Bool
has_providers cfg = elim cfg.registered_providers [ [] ↦ false | p ∷ ps ↦ true ]

-- A challenge that is sent names its method and has between 43 and 128 characters.
abbrev pub is_method : Option Text → Bool
is_method none = false
is_method (some m) = m == codes "S256" || m == codes "plain"

unfoldable pub is_good_challenge : Option Text → Option Text → Bool
is_good_challenge challenge method =
    if is_set challenge
    then is_method method
      && (not (ltb (length (text_of challenge)) 43) && not (ltb 128 (length (text_of challenge))))
    else true

abbrev pub new_request : AuthConfig → AuthorizeQuery → ℕ → AuthRequest
new_request cfg q now = record {
  client_id = q.client_id;
  redirect_uri = q.redirect_uri;
  provider = provider_name q.provider;
  scope = or_text q.scope (codes "read");
  state = q.state;
  code_challenge = q.code_challenge;
  code_challenge_method = q.code_challenge_method;
  expected_iss =
      if is_local_choice q.provider then none else issuer_of cfg (provider_name q.provider);
  timestamp = now;
  setup_operator_token = if is_set q.setup_operator_token then q.setup_operator_token else none;
}

module _ (urlparse : Text → Option Url) (has_client : Text → Bool) where
  -- Who the client is: configured, registered at the address it asks for, or refused with a status.
  abbrev pub is_bound : AuthorizeQuery → Option OAuthClient → Bool
  is_bound q none = false
  is_bound q (some c) = redirect_uri_matches_registered urlparse q.redirect_uri c.redirect_uris

  abbrev pub is_unknown : AuthConfig → AuthorizeQuery → Option OAuthClient → Bool
  is_unknown cfg q none = not (is_first_party_client cfg q.client_id)
  is_unknown cfg q (some c) = false

  -- The request is kept before authlib is asked for the provider's client.
  abbrev pub start : AuthConfig → Flow → AuthorizeQuery → ℕ → Text → Flow × FlowReply
  start cfg flow q now oauth_state =
      let pruned = prune_flow now flow in
      (
        record pruned {
          pkce_challenges = put oauth_state (new_request cfg q now) pruned.pkce_challenges;
        },
        (if is_local_choice q.provider
            then sign_in_page oauth_state
            else if has_client (provider_name q.provider)
            then to_provider oauth_state
            else http_error 500),
      )

  unfoldable pub authorize :
      AuthConfig → List OAuthClient → Flow → AuthorizeQuery → ℕ → Text → Flow × FlowReply
  authorize cfg clients flow q now oauth_state =
      let registration = get_by_client_id clients q.client_id in
      if not (q.response_type == codes "code")
      then (flow, http_error 400)
      else if is_unknown cfg q registration
      then (flow, http_error 400)
      else if not (is_client_redirect_allowed urlparse cfg.redirects q.redirect_uri)
      then (flow, http_error 403)
      else if not (is_first_party_client cfg q.client_id) && not (is_bound q registration)
      then (flow, http_error 400)
      else if not (is_good_challenge q.code_challenge q.code_challenge_method)
      then (flow, http_error 400)
      else if not (is_local_choice q.provider)
          && not (is_known_provider cfg (provider_name q.provider))
      then (flow, http_error 400)
      else if is_local_choice q.provider
          && not (cfg.password_ok || (cfg.otp_ok || has_providers cfg))
      then (flow, http_error 400)
      else start cfg flow q now oauth_state
