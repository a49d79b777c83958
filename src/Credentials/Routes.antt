-- ===== src/Credentials/Routes.antt =====
-- routers/server_credentials_router.py: the guard of the operator and the routes that write. A secret
-- and its bcrypt hash are drawn outside and handed in.
use agience_origin.Base.{
  ℕ, Bool, false, not, ◌&&◌, ◌||◌, Option, none, some, List, Text, codes, ◌==◌, text_eq,
  if◌then◌else◌, is_some, update_where,
}
use agience_origin.KeyCustody.Router.{AuthContext}
use agience_origin.OAuth.Exchange.{text_of}
use agience_origin.Settings.Cache.{SettingsCache, get_setting, is_truthy}
use agience_origin.Settings.Admin.{is_absent, same_id}
use agience_origin.Credentials.Table.{
  ServerCredential, Fields, ServerCredentialUpdate, has_id, get_by_client_id,
  create_server_credential, set_fields, rotate_secret, delete_credential,
}

pub data CredentialReply : Type 0 where
  http_error : ℕ → CredentialReply
  created : Text → CredentialReply
  updated : ServerCredential → CredentialReply
  deleted : CredentialReply
  rotated : Text → CredentialReply

unfoldable pub require_operator : SettingsCache → AuthContext → Bool
require_operator cache auth =
    if not (auth.principal_type == codes "user")
      || (not (is_absent auth.actor) || not (is_truthy auth.user_id))
    then false
    else let operator_id = get_setting cache (codes "platform.operator_id") none in
      is_truthy operator_id && same_id auth.user_id operator_id

pub record ServerCredentialCreate : Type 0 where
  pub client_id : Text
  pub name : Text
  pub server_id : Text
  pub host_id : Text
  pub scopes : List Text
  pub resource_filters : List (Text × Text)

abbrev pub fields_of : ServerCredentialCreate → Text → Text → Text → Fields
fields_of p secret_hash authority user_id = record {
  client_id = p.client_id;
  name = p.name;
  secret_hash = secret_hash;
  authority = authority;
  host_id = p.host_id;
  server_id = p.server_id;
  user_id = user_id;
  scopes = p.scopes;
  resource_filters = p.resource_filters;
}

abbrev pub created_or_500 :
    List ServerCredential
    → Text
    → Option (List ServerCredential)
    → List ServerCredential × CredentialReply
created_or_500 creds raw none = (creds, http_error 500)
created_or_500 creds raw (some creds') = (creds', created raw)

abbrev pub updated_row :
    List ServerCredential → Option ServerCredential → List ServerCredential × CredentialReply
updated_row creds none = (creds, http_error 500)
updated_row creds (some c) = (update_where (has_id c.id) (λ _. c) creds, updated c)

abbrev pub updated_found :
    List ServerCredential
    → ServerCredentialUpdate
    → ℕ
    → Option ServerCredential
    → List ServerCredential × CredentialReply
updated_found creds u now none = (creds, http_error 404)
updated_found creds u now (some c) = updated_row creds (set_fields c u now)

abbrev pub deleted_found :
    List ServerCredential → Option ServerCredential → List ServerCredential × CredentialReply
deleted_found creds none = (creds, http_error 404)
deleted_found creds (some c) = (delete_credential creds c.id, deleted)

abbrev pub rotated_found :
    List ServerCredential
    → Text
    → Text
    → ℕ
    → Option ServerCredential
    → List ServerCredential × CredentialReply
rotated_found creds raw secret_hash now none = (creds, http_error 404)
rotated_found creds raw secret_hash now (some c) =
    (rotate_secret creds c.id secret_hash now, rotated raw)

module _ (to_uuid : Text → Option Text) (authority : Text) (cache : SettingsCache)
    (auth : AuthContext) where
  unfoldable pub register_server_credential :
      List ServerCredential
      → ServerCredentialCreate
      → Text
      → Text
      → Text
      → ℕ
      → List ServerCredential × CredentialReply
  register_server_credential creds p id raw secret_hash now =
      if not (require_operator cache auth)
      then (creds, http_error 403)
      else if is_some (get_by_client_id creds p.client_id)
      then (creds, http_error 409)
      else created_or_500 creds raw (
          create_server_credential to_uuid creds
            (fields_of p secret_hash authority (text_of auth.user_id)) id now)

module _ (cache : SettingsCache) (auth : AuthContext) where
  unfoldable pub update_server_credential :
      List ServerCredential
      → Text
      → ServerCredentialUpdate
      → ℕ
      → List ServerCredential × CredentialReply
  update_server_credential creds client_id u now =
      if not (require_operator cache auth)
      then (creds, http_error 403)
      else updated_found creds u now (get_by_client_id creds client_id)

  unfoldable pub delete_server_credential :
      List ServerCredential → Text → List ServerCredential × CredentialReply
  delete_server_credential creds client_id =
      if not (require_operator cache auth)
      then (creds, http_error 403)
      else deleted_found creds (get_by_client_id creds client_id)

  unfoldable pub rotate_server_credential :
      List ServerCredential → Text → Text → Text → ℕ → List ServerCredential × CredentialReply
  rotate_server_credential creds client_id raw secret_hash now =
      if not (require_operator cache auth)
      then (creds, http_error 403)
      else rotated_found creds raw secret_hash now (get_by_client_id creds client_id)
