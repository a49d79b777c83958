-- ===== src/OAuth/Clients.antt =====
-- db/oauth_clients.py and models/oauth_client.py: the table of registered clients.
use agience_origin.Base.{
  ℕ, Bool, Option, none, some, List, [], ◌∷◌, ◌++◌, Text, ◌==◌, text_eq, nat_eq, if◌then◌else◌, any,
  first,
}

pub record OAuthClient : Type 0 where
  pub client_id : Text
  pub client_name : Option Text
  pub redirect_uris : List Text
  pub grant_types : List Text
  pub response_types : List Text
  pub token_endpoint_auth_method : Text
  pub client_id_issued_at : ℕ

abbrev pub is_client : Text → OAuthClient → Bool
is_client client_id c = c.client_id == client_id

unfoldable pub get_by_client_id : List OAuthClient → Text → Option OAuthClient
get_by_client_id clients client_id = first (is_client client_id) clients

-- Nothing where the primary key is taken.
unfoldable pub create_client : List OAuthClient → OAuthClient → Option (List OAuthClient)
create_client clients c =
    if any (is_client c.client_id) clients then none else some (clients ++ c ∷ [])
