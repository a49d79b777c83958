-- ===== src/OAuth/FlowExamples.antt =====
-- The theorems on the flow at concrete data. A parser that knows two addresses of one client.
use agience_origin.Base.{
  ◌≡◌, refl, ◌↔◌, Bool, true, false, Option, none, some, List, [], ◌∷◌, Text, codes, ◌==◌, text_eq,
  text_beq, if◌then◌else◌, get, put, pop, lower, lstrip, rstrip, strip, space,
}
use agience_origin.Person.Store.{Person, Db, get_by_identity, add}
use agience_origin.OAuth.Exchange.{
  AuthData, code_stamp, granted, fresh, trim, grant_authorization_code,
}
use agience_origin.OAuth.Granted.{Rightful}
use agience_origin.OAuth.Redirect.{
  Url, RedirectConfig, is_client_redirect_allowed, redirect_uri_matches_registered,
}
use agience_origin.OAuth.Matching.{Names, redirect_uri_matches_registered_iff}
use agience_origin.OAuth.Clients.{OAuthClient, get_by_client_id, create_client}
use agience_origin.OAuth.Metadata.{
  Metadata, absent, texts, after_check, validated_entries, validated_string_list,
  validated_client_name, validated,
}
use agience_origin.OAuth.Register.{register_client, registered}
use agience_origin.OAuth.Registered.{Honoured, register_client-Honoured}
use agience_origin.OAuth.Flow.{
  AuthConfig, AuthorizeQuery, authorize, is_first_party_client, is_good_challenge,
}
use agience_origin.OAuth.SignIn.{pop_local_auth_request, complete_local_signin}
use agience_origin.OAuth.Admitted.{IsAdmitted}
use agience_origin.OAuth.Steps.{
  Node, Step, started, registering, authorizing, local_start, local_end, step, run,
}
use agience_origin.OAuth.Delivery.{run-delivers}

abbrev first_port : Text
first_port = codes "http://127.0.0.1:4000/cb"

abbrev other_port : Text
other_port = codes "http://127.0.0.1:4001/cb"

abbrev loopback_url : Text → Url
loopback_url netloc = record {
  scheme = codes "http";
  netloc = netloc;
  hostname = some (codes "127.0.0.1");
  path = codes "/cb";
  query = [];
  fragment = [];
  username = none;
}

abbrev known_urls : Text → Option Url
known_urls uri =
    if uri == first_port
    then some (loopback_url (codes "127.0.0.1:4000"))
    else if uri == other_port
    then some (loopback_url (codes "127.0.0.1:4001"))
    else none

redirect_uri_matches_registered_iff_example :
    (redirect_uri_matches_registered known_urls other_port (first_port ∷ []) ≡ true)
    ↔ Names known_urls other_port (first_port ∷ [])
unfolding text_beq
redirect_uri_matches_registered_iff_example =
    redirect_uri_matches_registered_iff known_urls other_port
      (loopback_url (codes "127.0.0.1:4001")) (first_port ∷ []) refl

abbrev redirects : RedirectConfig
redirects = record {
  facet_uri = codes "https://facet.example";
  origin_uri = codes "https://origin.example";
  facet_uris = [];
}

abbrev body : Metadata
body = record {
  redirect_uris = texts (some first_port ∷ []);
  grant_types = absent;
  response_types = absent;
  token_endpoint_auth_method = absent;
  client_name = absent;
}

abbrev tool : OAuthClient
tool = record {
  client_id = codes "dcr_t";
  client_name = none;
  redirect_uris = first_port ∷ [];
  grant_types = codes "authorization_code" ∷ [];
  response_types = codes "code" ∷ [];
  token_endpoint_auth_method = codes "none";
  client_id_issued_at = 5;
}

tool_registered :
    (register_client known_urls redirects [] true
      (codes "gate")
      (codes "gate")
      (some body)
      (codes "t")
      5).1
    ≡ registered tool
unfolding register_client validated after_check validated_entries validated_string_list
    validated_client_name is_client_redirect_allowed create_client text_beq space lstrip rstrip
    strip
tool_registered = refl

register_client-Honoured_example :
    Honoured known_urls redirects
      (codes "gate")
      (codes "gate")
      true
      (register_client known_urls redirects [] true
        (codes "gate")
        (codes "gate")
        (some body)
        (codes "t")
        5).0
      tool
register_client-Honoured_example =
    register_client-Honoured known_urls redirects [] true (codes "gate") (codes "gate") (some body)
      (codes "t") 5 tool tool_registered

abbrev config : AuthConfig
config = record {
  redirects = redirects;
  platform_client_id = codes "platform";
  platform_client_ids = [];
  registered_providers = [];
  password_ok = true;
  otp_ok = false;
}

abbrev query : AuthorizeQuery
query = record {
  response_type = codes "code";
  client_id = codes "dcr_t";
  redirect_uri = other_port;
  provider = none;
  scope = none;
  state = none;
  code_challenge = none;
  code_challenge_method = some (codes "S256");
  setup_operator_token = none;
}

abbrev ann : Person
ann = record {
  id = codes "p1";
  email = some (codes "ann@example.com");
  username = none;
  name = codes "Ann";
  picture = none;
  password_hash = some (codes "hash");
  email_verified = true;
  preferences = [];
  deactivated_at = none;
  deactivated_reason = none;
}

abbrev people : Db
people = record { persons = ann ∷ []; identities = [] }

-- A tool registers, starts a sign-in from another port, and Ann finishes it with her password.
abbrev steps : List Step
steps =
    registering true [] [] (some body) (codes "t") 5
    ∷ authorizing query 10 (codes "st")
    ∷ local_start (codes "st")
    ∷ local_end 0 (codes "st") ann 20 (codes "cd")
    ∷ []

abbrev nobody_allowed : Option Text → Text → Bool
nobody_allowed gid email = false

abbrev no_client : Text → Bool
no_client provider = false

abbrev same_text : Text → Text
same_text s = s

abbrev node : Node
node = run known_urls config no_client nobody_allowed same_text (started [] people) steps

abbrev minted : AuthData
minted = record {
  provider = codes "local";
  sub = codes "p1";
  email = codes "ann@example.com";
  name = codes "Ann";
  picture = some [];
  email_verified = true;
  client_id = codes "dcr_t";
  redirect_uri = other_port;
  scope = codes "read";
  code_challenge = none;
  code_challenge_method = some (codes "S256");
  timestamp = 20;
  setup_operator_token = none;
}

tool_granted :
    (grant_authorization_code same_text node.flow.authorization_codes
      (codes "cd")
      other_port
      (codes "dcr_t")
      none
      30
      31).1
    ≡ granted minted
unfolding run step register_client validated after_check validated_entries validated_string_list
    validated_client_name is_client_redirect_allowed create_client text_beq space lstrip rstrip
    strip authorize get_by_client_id is_first_party_client is_good_challenge
    redirect_uri_matches_registered pop_local_auth_request complete_local_signin get_by_identity add
    get put pop fresh trim lower grant_authorization_code
tool_granted = refl

run-delivers_example :
    IsAdmitted known_urls config node.clients (codes "dcr_t") other_port none (some (codes "S256"))
    × Rightful same_text minted other_port (codes "dcr_t") none 31
run-delivers_example =
    run-delivers known_urls config no_client nobody_allowed same_text [] people steps (codes "cd")
      other_port (codes "dcr_t") none 30 31 minted tool_granted
