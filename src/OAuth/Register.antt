-- ===== src/OAuth/Register.antt =====
-- routers/auth_router.py: the registration of a client, with a fresh client id as an argument.
use agience_origin.Base.{
  ℕ, Bool, not, ◌&&◌, Option, none, some, List, Text, ◌==◌, text_eq, nat_eq, if◌then◌else◌,
}
use agience_origin.OAuth.Redirect.{Url, RedirectConfig}
use agience_origin.OAuth.Clients.{OAuthClient, create_client}
use agience_origin.OAuth.Metadata.{
  Checked, accepted, refused, uncaught, is_nothing, Metadata, validated,
}

pub data RegisterReply : Type 0 where
  registration_error : ℕ → RegisterReply
  registered : OAuthClient → RegisterReply

module _ (urlparse : Text → Option Url) (cfg : RedirectConfig) where
  abbrev pub inserted :
      List OAuthClient → OAuthClient → Option (List OAuthClient) → List OAuthClient × RegisterReply
  inserted clients c none = (clients, registration_error 500)
  inserted clients c (some clients') = (clients', registered c)

  abbrev pub store_client :
      List OAuthClient → Checked OAuthClient → List OAuthClient × RegisterReply
  store_client clients (refused uncaught) = (clients, registration_error 500)
  store_client clients (refused r) = (clients, registration_error 400)
  store_client clients (accepted c) = inserted clients c (create_client clients c)

  abbrev pub register_body :
      List OAuthClient → Option Metadata → Text → ℕ → List OAuthClient × RegisterReply
  register_body clients none token now = (clients, registration_error 400)
  register_body clients (some body) token now =
      store_client clients (validated urlparse cfg body token now)

  -- The gate's token is blank where registration is open to everybody.
  unfoldable pub register_client :
      List OAuthClient
      → Bool
      → Text
      → Text
      → Option Metadata
      → Text
      → ℕ
      → List OAuthClient × RegisterReply
  register_client clients enabled gate_token presented body token now =
      if not enabled
      then (clients, registration_error 403)
      else if not (is_nothing gate_token) && not (presented == gate_token)
      then (clients, registration_error 401)
      else register_body clients body token now
