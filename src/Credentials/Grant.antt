-- ===== src/Credentials/Grant.antt =====
-- routers/auth_router.py: _grant_client_credentials, cut where bcrypt's check is awaited, and the steps of
-- the routes over one table. The row is read again after the check, since the session was rolled back.
use agience_origin.Base.{
  ℕ, Bool, Option, none, some, List, [], ◌∷◌, ◌++◌, Text, codes, if◌then◌else◌,
}
use agience_origin.KeyCustody.Router.{AuthContext}
use agience_origin.Settings.Cache.{SettingsCache}
use agience_origin.Credentials.Table.{
  ServerCredential, ServerCredentialUpdate, get_by_client_id, get_by_id, update_last_used,
}
use agience_origin.Credentials.Routes.{
  ServerCredentialCreate, register_server_credential, update_server_credential,
  delete_server_credential, rotate_server_credential,
}

-- What is read before the check.
pub record HeldCredential : Type 0 where
  pub id : Text
  pub secret_hash : Text

pub record ServerClaims : Type 0 where
  pub sub : Text
  pub authority : Text
  pub host_id : Text
  pub server_id : Text
  pub client_id : Text
  pub scopes : List Text
  pub resource_filters : List (Text × Text)

pub data GrantReply : Type 0 where
  invalid_client : GrantReply
  row_gone : GrantReply
  token : ServerClaims → GrantReply

abbrev pub held_row : Option ServerCredential → Option HeldCredential
held_row none = none
held_row (some c) =
    if c.is_active then some (record { id = c.id; secret_hash = c.secret_hash }) else none

unfoldable pub grant_begin : List ServerCredential → Text → Option HeldCredential
grant_begin creds client_id = held_row (get_by_client_id creds client_id)

abbrev pub server_claims : ServerCredential → ServerClaims
server_claims c = record {
  sub = codes "server/" ++ c.client_id;
  authority = c.authority;
  host_id = c.host_id;
  server_id = c.server_id;
  client_id = c.client_id;
  scopes = c.scopes;
  resource_filters = c.resource_filters;
}

abbrev pub grant_row :
    List ServerCredential → ℕ → Option ServerCredential → List ServerCredential × GrantReply
grant_row creds now none = (creds, row_gone)
grant_row creds now (some c) = (update_last_used creds c.id now, token (server_claims c))

module _ (checkpw : Text → Text → Bool) where
  unfoldable pub grant_finish :
      List ServerCredential → Option HeldCredential → Text → ℕ → List ServerCredential × GrantReply
  grant_finish creds none client_secret now = (creds, invalid_client)
  grant_finish creds (some held) client_secret now =
      if checkpw client_secret held.secret_hash
      then grant_row creds now (get_by_id creds held.id)
      else (creds, invalid_client)

-- One call, with whatever it was handed.
pub data Step : Type 0 where
  registering : SettingsCache → AuthContext → ServerCredentialCreate → Text → Text → Text → ℕ → Step
  updating : SettingsCache → AuthContext → Text → ServerCredentialUpdate → ℕ → Step
  deleting : SettingsCache → AuthContext → Text → Step
  rotating : SettingsCache → AuthContext → Text → Text → Text → ℕ → Step
  granting : Option HeldCredential → Text → ℕ → Step

module _ (to_uuid : Text → Option Text) (authority : Text) (checkpw : Text → Text → Bool) where
  unfoldable pub step : List ServerCredential → Step → List ServerCredential
  step creds (registering cache auth p id raw secret_hash now) =
      (register_server_credential to_uuid authority cache auth creds p id raw secret_hash now).0
  step creds (updating cache auth client_id u now) =
      (update_server_credential cache auth creds client_id u now).0
  step creds (deleting cache auth client_id) =
      (delete_server_credential cache auth creds client_id).0
  step creds (rotating cache auth client_id raw secret_hash now) =
      (rotate_server_credential cache auth creds client_id raw secret_hash now).0
  step creds (granting held client_secret now) =
      (grant_finish checkpw creds held client_secret now).0

  unfoldable pub run : List ServerCredential → List Step → List ServerCredential
  run creds [] = creds
  run creds (s ∷ steps) = run (step creds s) steps
