-- ===== src/Credentials/Refused.antt =====
-- A secret that no row under a client id takes, over the routes and the grant.
use agience_origin.Base.{
  ℕ, ◌≡◌, refl, ap, ◌∙◌, subst, inl, inr, Bool, true, false, not, ◌||◌, Option, none, some, List,
  [], ◌∷◌, ◌++◌, Text, ◌==◌, text_eq, if-branches, is_some, any, first, In, In-append, In-delete,
  In-update, first-In, update_where,
}
use agience_origin.OAuth.Exchange.{text_of}
use agience_origin.KeyCustody.Router.{AuthContext}
use agience_origin.Settings.Cache.{SettingsCache}
use agience_origin.Credentials.Table.{
  ServerCredential, Fields, ServerCredentialUpdate, has_id, has_client_id, get_by_client_id,
  get_by_id, new_server_credential, with_ids, create_server_credential, set_fields, with_fields,
  unless_null, update_last_used, rotate_secret, rotated_row, delete_credential,
}
use agience_origin.Credentials.Routes.{
  ServerCredentialCreate, CredentialReply, created_or_500, updated_row, updated_found,
  deleted_found, rotated_found, fields_of, require_operator, register_server_credential,
  update_server_credential, delete_server_credential, rotate_server_credential,
}
use agience_origin.Credentials.Grant.{
  HeldCredential, GrantReply, Step, registering, updating, deleting, rotating, granting, grant_row,
  grant_finish, step, run,
}

module _ (checkpw : Text → Text → Bool) (client_id secret : Text) where
  -- No row under the client id takes the secret.
  abbrev pub Refused : List ServerCredential → Type 0
  Refused creds =
      (c : ServerCredential)
      → In c creds
      → c.client_id ≡ client_id
      → checkpw secret c.secret_hash ≡ false

  -- The step stores no hash that takes the secret.
  abbrev pub IsOther : Step → Type 0
  IsOther (registering cache auth p id raw secret_hash now) = checkpw secret secret_hash ≡ false
  IsOther (updating cache auth c u now) = Unit {0}
  IsOther (deleting cache auth c) = Unit {0}
  IsOther (rotating cache auth c raw secret_hash now) = checkpw secret secret_hash ≡ false
  IsOther (granting held s now) = Unit {0}

  abbrev pub AreOther : List Step → Type 0
  AreOther [] = Unit {0}
  AreOther (s ∷ steps) = IsOther s × AreOther steps

  -- A row is written over by one with the same client id and a hash that does not take the secret.
  update-Refused :
      (hit : ServerCredential → Bool) (f : ServerCredential → ServerCredential)
      (creds : List ServerCredential)
      → ((q : ServerCredential)
          → In q creds
          → hit q ≡ true
          → (f q).client_id ≡ client_id
          → checkpw secret (f q).secret_hash ≡ false)
      → Refused creds
      → Refused (update_where hit f creds)
  update-Refused hit f creds h r c m e = elim (In-update hit f c creds m) [
    | inl (q, k, found, same) ↦
        subst (λ x. checkpw secret x.secret_hash ≡ false) same
          (h q k found (ap (λ (x : ServerCredential). x.client_id) same ∙ e))
    | inr (k, missed) ↦ r c k e
  ]

  append-Refused :
      (creds : List ServerCredential) (n : ServerCredential)
      → checkpw secret n.secret_hash ≡ false
      → Refused creds
      → Refused (creds ++ n ∷ [])
  append-Refused creds n h r c m e = elim (In-append c creds (n ∷ []) m) [
    | inl k ↦ r c k e
    | inr (inl same) ↦ subst (λ x. checkpw secret x.secret_hash ≡ false) same h
    | inr (inr k) ↦ absurd k
  ]

  with_ids-Refused :
      (creds : List ServerCredential) (f : Fields) (id raw : Text) (now : ℕ)
      (host server user : Option Text)
      → checkpw secret f.secret_hash ≡ false
      → Refused creds
      → Refused (created_or_500 creds raw (with_ids creds f id now host server user)).0
  with_ids-Refused creds f id raw now none server user h r = r
  with_ids-Refused creds f id raw now (some host) none user h r = r
  with_ids-Refused creds f id raw now (some host) (some server) none h r = r
  with_ids-Refused creds f id raw now (some host) (some server) (some user) h r =
      let n = new_server_credential f id host server user now in
      if-branches (λ (o : Option (List ServerCredential)). Refused (created_or_500 creds raw o).0)
        (any (λ (q : ServerCredential). q.id == n.id || q.client_id == n.client_id) creds) (λ _. r)
        (λ _. append-Refused creds n h r)

  with_fields-Refused :
      (creds : List ServerCredential) (c : ServerCredential) (u : ServerCredentialUpdate) (now : ℕ)
      (name : Option Text) (active : Option Bool)
      → In c creds
      → Refused creds
      → Refused (updated_row creds (with_fields c u now name active)).0
  with_fields-Refused creds c u now none active m r = r
  with_fields-Refused creds c u now (some name) none m r = r
  with_fields-Refused creds c u now (some name) (some active) m r =
      update-Refused (has_id c.id) _ creds (λ q k hit e. r c m e) r

  -- The routes, whoever calls them.
  register-Refused :
      (to_uuid : Text → Option Text) (authority : Text) (cache : SettingsCache) (auth : AuthContext)
      (creds : List ServerCredential) (p : ServerCredentialCreate) (id raw secret_hash : Text)
      (now : ℕ)
      → checkpw secret secret_hash ≡ false
      → Refused creds
      → Refused
          (register_server_credential to_uuid authority cache auth creds p id raw secret_hash now).0
  unfolding register_server_credential create_server_credential
  register-Refused to_uuid authority cache auth creds p id raw secret_hash now h r =
      let P = λ (out : List ServerCredential × CredentialReply). Refused out.0 in
      if-branches P (not (require_operator cache auth)) (λ _. r)
        (λ _.
          if-branches P (is_some (get_by_client_id creds p.client_id)) (λ _. r)
            (λ _.
              with_ids-Refused creds (fields_of p secret_hash authority (text_of auth.user_id)) id
                raw now (to_uuid p.host_id) (to_uuid p.server_id) (to_uuid (text_of auth.user_id)) h
                r))

  update_found-Refused :
      (creds : List ServerCredential) (u : ServerCredentialUpdate) (now : ℕ) (wanted : Text)
      → Refused creds
      → Refused (updated_found creds u now (get_by_client_id creds wanted)).0
  unfolding get_by_client_id set_fields
  update_found-Refused creds u now wanted r = go (first (has_client_id wanted) creds) refl
    where
      go :
          (o : Option ServerCredential)
          → first (has_client_id wanted) creds ≡ o
          → Refused (updated_found creds u now o).0
      go none e = r
      go (some c) e =
          with_fields-Refused creds c u now (unless_null c.name u.name)
            (unless_null c.is_active u.is_active) (first-In (has_client_id wanted) c creds e).0 r

  rotate_found-Refused :
      (creds : List ServerCredential) (raw secret_hash : Text) (now : ℕ)
      (o : Option ServerCredential)
      → checkpw secret secret_hash ≡ false
      → Refused creds
      → Refused (rotated_found creds raw secret_hash now o).0
  unfolding rotate_secret
  rotate_found-Refused creds raw secret_hash now none h r = r
  rotate_found-Refused creds raw secret_hash now (some c) h r =
      update-Refused (has_id c.id) (rotated_row secret_hash now) creds (λ q k f e. h) r

  delete_found-Refused :
      (creds : List ServerCredential) (o : Option ServerCredential)
      → Refused creds
      → Refused (deleted_found creds o).0
  unfolding delete_credential
  delete_found-Refused creds none r = r
  delete_found-Refused creds (some c) r = λ d m e. r d (In-delete (has_id c.id) d creds m).0 e

  used-Refused :
      (creds : List ServerCredential) (id : Text) (now : ℕ)
      → Refused creds
      → Refused (update_last_used creds id now)
  unfolding update_last_used
  used-Refused creds id now r =
      update-Refused (has_id id) (λ c. record c { last_used_at = some now; modified_time = now })
        creds (λ q k f e. r q k e) r

  row-Refused :
      (creds : List ServerCredential) (now : ℕ) (o : Option ServerCredential)
      → Refused creds
      → Refused (grant_row creds now o).0
  row-Refused creds now none r = r
  row-Refused creds now (some c) r = used-Refused creds c.id now r

  grant-Refused :
      (creds : List ServerCredential) (held : Option HeldCredential) (s : Text) (now : ℕ)
      → Refused creds
      → Refused (grant_finish checkpw creds held s now).0
  unfolding grant_finish
  grant-Refused creds none s now r = r
  grant-Refused creds (some held) s now r =
      let P = λ (out : List ServerCredential × GrantReply). Refused out.0 in
      if-branches P (checkpw s held.secret_hash)
        (λ _. row-Refused creds now (get_by_id creds held.id) r) (λ _. r)

  step-Refused :
      (to_uuid : Text → Option Text) (authority : Text) (creds : List ServerCredential) (s : Step)
      → IsOther s
      → Refused creds
      → Refused (step to_uuid authority checkpw creds s)
  unfolding step update_server_credential delete_server_credential rotate_server_credential
  step-Refused to_uuid authority creds (registering cache auth p id raw secret_hash now) h r =
      register-Refused to_uuid authority cache auth creds p id raw secret_hash now h r
  step-Refused to_uuid authority creds (updating cache auth wanted u now) h r =
      if-branches (λ (out : List ServerCredential × CredentialReply). Refused out.0)
        (not (require_operator cache auth)) (λ _. r)
        (λ _. update_found-Refused creds u now wanted r)
  step-Refused to_uuid authority creds (deleting cache auth wanted) h r =
      if-branches (λ (out : List ServerCredential × CredentialReply). Refused out.0)
        (not (require_operator cache auth)) (λ _. r)
        (λ _. delete_found-Refused creds (get_by_client_id creds wanted) r)
  step-Refused to_uuid authority creds (rotating cache auth wanted raw secret_hash now) h r =
      if-branches (λ (out : List ServerCredential × CredentialReply). Refused out.0)
        (not (require_operator cache auth)) (λ _. r)
        (λ _. rotate_found-Refused creds raw secret_hash now (get_by_client_id creds wanted) h r)
  step-Refused to_uuid authority creds (granting held s now) h r = grant-Refused creds held s now r

  pub run-Refused :
      (to_uuid : Text → Option Text) (authority : Text) (steps : List Step)
      (creds : List ServerCredential)
      → AreOther steps
      → Refused creds
      → Refused (run to_uuid authority checkpw creds steps)
  unfolding run
  run-Refused to_uuid authority [] creds h r = r
  run-Refused to_uuid authority (s ∷ steps) creds h r =
      run-Refused to_uuid authority steps _ h.1 (step-Refused to_uuid authority creds s h.0 r)
