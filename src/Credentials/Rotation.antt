-- ===== src/Credentials/Rotation.antt =====
-- What becomes of a secret that was rotated away.
use agience_origin.Base.{
  ℕ, ◌≡◌, refl, sym, ◌∙◌, subst, inl, inr, Bool, false, not, Option, none, some, List, Text, eq_iff,
  text_eq, if-branches, first, In, In-update, first-In,
}
use agience_origin.KeyCustody.Router.{AuthContext}
use agience_origin.Settings.Cache.{SettingsCache}
use agience_origin.Credentials.Table.{
  ServerCredential, has_id, has_client_id, get_by_client_id, rotate_secret, rotated_row,
}
use agience_origin.Credentials.Routes.{
  CredentialReply, rotated, rotated_found, require_operator, rotate_server_credential,
}
use agience_origin.Credentials.Refused.{Refused, AreOther, run-Refused}
use agience_origin.Credentials.Grant.{
  HeldCredential, held_row, invalid_client, Step, grant_begin, grant_finish, run,
}

-- The keys of the table: one row under a client id.
abbrev pub IsKeyed : List ServerCredential → Type 0
IsKeyed creds =
    (c d : ServerCredential) → In c creds → In d creds → c.client_id ≡ d.client_id → c.id ≡ d.id

module _ (checkpw : Text → Text → Bool) (client_id secret : Text) where
  -- A grant that begins then is refused, whatever the table is when it ends.
  found-Refused :
      (creds : List ServerCredential) (now : ℕ) (held : Option HeldCredential)
      → held ≡ grant_begin creds client_id
      → Refused checkpw client_id secret creds
      → (later : List ServerCredential)
      → grant_finish checkpw later held secret now ≡ (later, invalid_client)
  unfolding grant_begin grant_finish get_by_client_id
  found-Refused creds now held e r later = rw e (go (first (has_client_id client_id) creds) refl)
    where
      go :
          (o : Option ServerCredential)
          → first (has_client_id client_id) creds ≡ o
          → grant_finish checkpw later (held_row o) secret now ≡ (later, invalid_client)
      go none h = refl
      go (some c) h =
          let (m, same) = first-In (has_client_id client_id) c creds h in
          let wrong = r c m ((eq_iff c.client_id client_id).0 same) in
          if-branches
            (λ (o : Option HeldCredential).
              grant_finish checkpw later o secret now ≡ (later, invalid_client))
            c.is_active (λ _. rw wrong refl) (λ _. refl)

  -- A rotation that goes through leaves no row under the client id that takes the old secret.
  rotate-Refused :
      (cache : SettingsCache) (auth : AuthContext) (creds : List ServerCredential)
      (raw secret_hash shown : Text) (now : ℕ)
      → IsKeyed creds
      → checkpw secret secret_hash ≡ false
      → (rotate_server_credential cache auth creds client_id raw secret_hash now).1 ≡ rotated shown
      → Refused checkpw client_id secret
          (rotate_server_credential cache auth creds client_id raw secret_hash now).0
  unfolding rotate_server_credential get_by_client_id rotate_secret
  rotate-Refused cache auth creds raw secret_hash shown now keyed h =
      let P = λ (out : List ServerCredential × CredentialReply).
        out.1 ≡ rotated shown → Refused checkpw client_id secret out.0 in
      if-branches P (not (require_operator cache auth)) (λ _ e. absurd (cc))
        (λ _. go (first (has_client_id client_id) creds) refl)
    where
      go :
          (o : Option ServerCredential)
          → first (has_client_id client_id) creds ≡ o
          → (rotated_found creds raw secret_hash now o).1 ≡ rotated shown
          → Refused checkpw client_id secret (rotated_found creds raw secret_hash now o).0
      go none e a = absurd (cc)
      go (some c) e a = λ d m same.
          elim (In-update (has_id c.id) (rotated_row secret_hash now) d creds m) [
            | inl (q, k, hit, is) ↦ subst (λ x. checkpw secret x.secret_hash ≡ false) is h
            | inr (k, missed) ↦
                let (kc, found) = first-In (has_client_id client_id) c creds e in
                let one : d.id ≡ c.id =
                  keyed d c k kc (same ∙ sym ((eq_iff c.client_id client_id).0 found)) in
                let hit = (eq_iff d.id c.id).1 one in absurd (cc)
          ]

  -- After a rotation of a credential that went through, the old secret is refused for good:
  -- whatever routes and grants follow, whoever calls them, those that began earlier included, a
  -- grant for the client id that begins then with the old secret is answered invalid_client and
  -- changes nothing, whatever the table is when it ends. The new hash does not take the old
  -- secret, no hash that is stored later does, and a client id has one row.
  pub rotated_secret-refused :
      (to_uuid : Text → Option Text) (authority : Text) (cache : SettingsCache) (auth : AuthContext)
      (creds : List ServerCredential) (raw secret_hash shown : Text) (now : ℕ) (steps : List Step)
      (later : List ServerCredential) (finish : ℕ)
      → IsKeyed creds
      → checkpw secret secret_hash ≡ false
      → (rotate_server_credential cache auth creds client_id raw secret_hash now).1 ≡ rotated shown
      → AreOther checkpw client_id secret steps
      → let creds' =
          run to_uuid authority checkpw
            (rotate_server_credential cache auth creds client_id raw secret_hash now).0
            steps in
        grant_finish checkpw later (grant_begin creds' client_id) secret finish
        ≡ (later, invalid_client)
  rotated_secret-refused to_uuid authority cache auth creds raw secret_hash shown now steps later
        finish keyed h e o =
      found-Refused _ finish _ refl
        (run-Refused checkpw client_id secret to_uuid authority steps _ o
          (rotate-Refused cache auth creds raw secret_hash shown now keyed h e))
        later
