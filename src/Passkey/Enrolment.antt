-- ===== src/Passkey/Enrolment.antt =====
-- What a registration that succeeds rests on, and what it leaves behind.
use agience_origin.Base.{
  ℕ, ◌≡◌, refl, subst, true, false, Option, none, some, List, [], ◌∷◌, ◌++◌, Text, codes, text_eq,
  eq_iff, eq_refl, arith, if-branches, any, first, first-In, first-append_none, update_where,
}
use agience_origin.Passkey.Challenges.{
  PasskeyChallenge, is_challenge, is_live, mark_consumed, consume,
}
use agience_origin.Passkey.Login.{PasskeyCredential, Passkeys, is_of, get_by_id_and_person}
use agience_origin.Passkey.Register.{
  Attested, Registration, registered, has_id, create_credential, is_bound_elsewhere, new_credential,
  enrolled, enrol, register_claimed, verify_registration,
}

module _ {Credential : Type 0} (attest : Credential → Text → Option Attested) where
  -- What a registration rests on, and what it leaves behind.
  pub record Enrolled (challenges : List PasskeyChallenge) (user_id : Text)
      (credential : Credential) (challenge id : Text) (now : ℕ) (rows' : List PasskeyCredential)
      : Type 0 where
    pub live : any (is_live challenge (codes "register") now) challenges ≡ true
    pub attested : Attested
    pub accepted : attest credential challenge ≡ some attested
    pub names_it : attested.credential_id ≡ id
    pub found : get_by_id_and_person rows' id user_id ≡ some (new_credential user_id attested)

  abbrev Kept :
      List PasskeyChallenge → Text → Credential → Text → ℕ → Passkeys × Registration → Type 0
  Kept challenges user_id credential challenge now out =
      (id : Text)
      → out.1 ≡ registered id
      → Enrolled challenges user_id credential challenge id now out.0.credentials

  miss_other :
      (rows : List PasskeyCredential) (id user_id : Text)
      → any (has_id id) rows ≡ false
      → any (is_of id user_id) rows ≡ false
  miss_other [] id user_id h = refl
  miss_other (c ∷ rows) id user_id h = ground (arith, miss_other rows id user_id)

  enrolled-Kept :
      (challenges : List PasskeyChallenge) (s : Passkeys) (user_id : Text) (credential : Credential)
      (challenge : Text) (now : ℕ) (a : Attested)
      → any (is_live challenge (codes "register") now) challenges ≡ true
      → attest credential challenge ≡ some a
      → Kept challenges user_id credential challenge now (enrol s user_id (some a))
  unfolding create_credential get_by_id_and_person
  enrolled-Kept challenges s user_id credential challenge now a live accepted =
      if-branches
        (λ o. Kept challenges user_id credential challenge now (enrolled s a.credential_id o))
        (any (has_id a.credential_id) s.credentials) (λ _ id h. absurd (cc))
        (λ free id h.
          let same : a.credential_id ≡ id = cc in
          record {
            live = live;
            attested = a;
            accepted = accepted;
            names_it = same;
            found =
                subst
                  (λ x.
                    first (is_of x user_id) (s.credentials ++ new_credential user_id a ∷ [])
                    ≡ some (new_credential user_id a))
                  same
                  (first-append_none (is_of a.credential_id user_id) (new_credential user_id a)
                    s.credentials (miss_other s.credentials a.credential_id user_id free)
                    (ground (arith, eq_refl a.credential_id, eq_refl user_id)));
          })

  claimed-Kept :
      (challenges : List PasskeyChallenge) (s : Passkeys) (user_id : Text) (credential : Credential)
      (challenge : Text) (now : ℕ) (row : PasskeyChallenge)
      → any (is_live challenge (codes "register") now) challenges ≡ true
      → row.challenge ≡ challenge
      → Kept challenges user_id credential challenge now
          (register_claimed Credential attest s user_id credential (some row))
  claimed-Kept challenges s user_id credential challenge now row live same =
      if-branches (Kept challenges user_id credential challenge now)
        (is_bound_elsewhere row.person_id user_id) (λ _ id h. absurd (cc))
        (λ _. go (attest credential row.challenge) refl)
    where
      go :
          (o : Option Attested)
          → attest credential row.challenge ≡ o
          → Kept challenges user_id credential challenge now (enrol s user_id o)
      go none e id h = absurd (cc)
      go (some a) e id h =
          enrolled-Kept challenges s user_id credential challenge now a live
            (subst (λ x. attest credential x ≡ some a) same e) id h

  -- A registration that succeeds rests on a challenge that was issued for registration, unused
  -- and not expired, and on an attestation that was accepted for it; and the login's lookup then
  -- finds under the id that is returned the credential of the caller with the attested key and
  -- count.
  pub verify_registration-Enrolled :
      (s : Passkeys) (user_id : Text) (credential : Credential) (challenge : Text) (now : ℕ)
      (id : Text)
      → (verify_registration Credential attest s user_id credential challenge now).1 ≡ registered id
      → Enrolled s.challenges user_id credential challenge id now
          (verify_registration Credential attest s user_id credential challenge now).0.credentials
  unfolding verify_registration consume
  verify_registration-Enrolled s user_id credential challenge now id =
      let rows =
        update_where (is_live challenge (codes "register") now) mark_consumed s.challenges in
      if-branches
        (λ (out : List PasskeyChallenge × Option PasskeyChallenge).
          (register_claimed Credential attest (record s { challenges = out.0 }) user_id credential
              out.1).1
            ≡ registered id
          → Enrolled s.challenges user_id credential challenge id now
              (register_claimed Credential attest (record s { challenges = out.0 }) user_id
                credential out.1).0.credentials)
        (any (is_live challenge (codes "register") now) s.challenges)
        (λ live. go rows live (first (is_challenge challenge) rows) refl) (λ _ h. absurd (cc))
    where
      go :
          (rows : List PasskeyChallenge)
          → any (is_live challenge (codes "register") now) s.challenges ≡ true
          → (o : Option PasskeyChallenge) → first (is_challenge challenge) rows ≡ o
          → (register_claimed Credential attest
              (record s { challenges = rows })
              user_id
              credential
              o).1
            ≡ registered id
          → Enrolled s.challenges user_id credential challenge id now
              (register_claimed Credential attest
                (record s { challenges = rows })
                user_id
                credential
                o).0.credentials
      go rows live none e h = absurd (cc)
      go rows live (some row) e h =
          claimed-Kept s.challenges (record s { challenges = rows }) user_id credential challenge
            now row live
            ((eq_iff row.challenge challenge).0 (first-In (is_challenge challenge) row rows e).1) id
            h
