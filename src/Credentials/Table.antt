-- ===== src/Credentials/Table.antt =====
-- db/server_credentials.py and models/server_credential.py. The reading of a UUID is a parameter. A
-- null that is written over the scopes or the filters, which are JSON, reads as none of them.
use agience_origin.Base.{
  ℕ, Bool, true, ◌||◌, Option, none, some, List, [], ◌∷◌, ◌++◌, Text, ◌==◌, text_eq, if◌then◌else◌,
  any, first, update_where, delete_where,
}

pub record ServerCredential : Type 0 where
  pub id : Text
  pub client_id : Text
  pub name : Text
  pub secret_hash : Text
  pub authority : Text
  pub host_id : Text
  pub server_id : Text
  pub user_id : Text
  pub scopes : List Text
  pub resource_filters : List (Text × Text)
  pub is_active : Bool
  pub last_used_at : Option ℕ
  pub last_rotated_at : Option ℕ
  pub created_time : ℕ
  pub modified_time : ℕ

abbrev pub has_client_id : Text → ServerCredential → Bool
has_client_id client_id c = c.client_id == client_id

abbrev pub has_id : Text → ServerCredential → Bool
has_id id c = c.id == id

unfoldable pub get_by_client_id : List ServerCredential → Text → Option ServerCredential
get_by_client_id creds client_id = first (has_client_id client_id) creds

unfoldable pub get_by_id : List ServerCredential → Text → Option ServerCredential
get_by_id creds id = first (has_id id) creds

-- What a row is made of.
pub record Fields : Type 0 where
  pub client_id : Text
  pub name : Text
  pub secret_hash : Text
  pub authority : Text
  pub host_id : Text
  pub server_id : Text
  pub user_id : Text
  pub scopes : List Text
  pub resource_filters : List (Text × Text)

abbrev pub new_server_credential : Fields → Text → Text → Text → Text → ℕ → ServerCredential
new_server_credential f id host server user now = record {
  id = id;
  client_id = f.client_id;
  name = f.name;
  secret_hash = f.secret_hash;
  authority = f.authority;
  host_id = host;
  server_id = server;
  user_id = user;
  scopes = f.scopes;
  resource_filters = f.resource_filters;
  is_active = true;
  last_used_at = none;
  last_rotated_at = none;
  created_time = now;
  modified_time = now;
}

-- The flush of a new row. Nothing where it raises: a key is taken.
abbrev pub flushed : List ServerCredential → ServerCredential → Option (List ServerCredential)
flushed creds c =
    if any (λ (q : ServerCredential). q.id == c.id || q.client_id == c.client_id) creds
    then none
    else some (creds ++ c ∷ [])

-- The three ids as UUIDs, or the error.
abbrev pub with_ids :
    List ServerCredential
    → Fields
    → Text
    → ℕ
    → Option Text
    → Option Text
    → Option Text
    → Option (List ServerCredential)
with_ids creds f id now (some host) (some server) (some user) =
    flushed creds (new_server_credential f id host server user now)
with_ids creds f id now _ _ _ = none

unfoldable pub create_server_credential :
    (Text → Option Text)
    → List ServerCredential
    → Fields
    → Text
    → ℕ
    → Option (List ServerCredential)
create_server_credential to_uuid creds f id now =
    with_ids creds f id now (to_uuid f.host_id) (to_uuid f.server_id) (to_uuid f.user_id)

-- The fields that are set. A null name or flag is refused by its column.
pub record ServerCredentialUpdate : Type 0 where
  pub name : Option (Option Text)
  pub scopes : Option (List Text)
  pub resource_filters : Option (List (Text × Text))
  pub is_active : Option (Option Bool)

abbrev pub set_or {ℓ} : {A : Type ℓ} → A → Option A → A
set_or old none = old
set_or old (some new) = new

abbrev pub unless_null {ℓ} : {A : Type ℓ} → A → Option (Option A) → Option A
unless_null old none = some old
unless_null old (some new) = new

abbrev pub with_fields :
    ServerCredential
    → ServerCredentialUpdate
    → ℕ
    → Option Text
    → Option Bool
    → Option ServerCredential
with_fields c u now (some name) (some active) = some (record c {
  name = name;
  scopes = set_or c.scopes u.scopes;
  resource_filters = set_or c.resource_filters u.resource_filters;
  is_active = active;
  modified_time = now;
})
with_fields c u now _ _ = none

-- The row with the fields set, or the error of the flush.
unfoldable pub set_fields : ServerCredential → ServerCredentialUpdate → ℕ → Option ServerCredential
set_fields c u now =
    with_fields c u now (unless_null c.name u.name) (unless_null c.is_active u.is_active)

unfoldable pub update_last_used : List ServerCredential → Text → ℕ → List ServerCredential
update_last_used creds id now =
    update_where (has_id id) (λ c. record c { last_used_at = some now; modified_time = now }) creds

abbrev pub rotated_row : Text → ℕ → ServerCredential → ServerCredential
rotated_row new_secret_hash now c = record c {
  secret_hash = new_secret_hash;
  last_rotated_at = some now;
  modified_time = now;
}

unfoldable pub rotate_secret : List ServerCredential → Text → Text → ℕ → List ServerCredential
rotate_secret creds id new_secret_hash now =
    update_where (has_id id) (rotated_row new_secret_hash now) creds

unfoldable pub delete_credential : List ServerCredential → Text → List ServerCredential
delete_credential creds id = delete_where (has_id id) creds
