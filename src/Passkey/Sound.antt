-- ===== src/Passkey/Sound.antt =====
-- What a login that ends with a person rests on.
use agience_origin.Base.{
  ℕ, ◌<◌, ◌≡◌, refl, sym, ap, ◌∙◌, subst, inl, inr, true, false, Option, none, some, List, Text,
  codes, text_eq, nat_eq, eq_iff, arith, if-branches, any, any-exists, first, first-In, In,
  In-update, update_where,
}
use agience_origin.Passkey.Challenges.{
  PasskeyChallenge, is_challenge, is_live, mark_consumed, consume,
}
use agience_origin.Passkey.Login.{
  PasskeyCredential, Passkeys, is_of, get_by_id_and_person, finish_verified, finish_stored,
  finish_subject, finish_claimed, verify_authentication,
}

-- The key of the table: a challenge has one row.
abbrev pub IsKeyed : List PasskeyChallenge → Type 0
IsKeyed rows = (q r : PasskeyChallenge) → In q rows → In r rows → q.challenge ≡ r.challenge → q ≡ r

-- The row of the table that a login claims: live before, and bound to the person.
pub record Claimed (rows : List PasskeyChallenge) (challenge person : Text) (now : ℕ) : Type 0 where
  pub row : PasskeyChallenge
  pub is_stored : In row rows
  pub same_challenge : row.challenge ≡ challenge
  pub for_login : row.purpose ≡ codes "login"
  pub unused : row.used ≡ false
  pub in_time : now < row.expires_at
  pub same_person : row.person_id ≡ some person

-- A stored row that was live is what the challenge's row becomes.
live-Claimed :
    (rows : List PasskeyChallenge) (challenge person : Text) (now : ℕ) (row : PasskeyChallenge)
    → In row rows
    → is_live challenge (codes "login") now row ≡ true
    → row.person_id ≡ some person
    → Claimed rows challenge person now
live-Claimed rows challenge person now row m live bound = record {
  row = row;
  is_stored = m;
  same_challenge = (eq_iff row.challenge challenge).0 (ground arith);
  for_login = (eq_iff row.purpose (codes "login")).0 (ground arith);
  unused = ground arith;
  in_time = ground arith;
  same_person = bound;
}

found-Claimed :
    (rows : List PasskeyChallenge) (challenge person : Text) (now : ℕ) (row : PasskeyChallenge)
    → IsKeyed rows
    → any (is_live challenge (codes "login") now) rows ≡ true
    → first
        (is_challenge challenge)
        (update_where (is_live challenge (codes "login") now) mark_consumed rows)
      ≡ some row
    → row.person_id ≡ some person
    → Claimed rows challenge person now
found-Claimed rows challenge person now row keyed some_live e bound =
    let hit = is_live challenge (codes "login") now in
    let (m, same) = first-In (is_challenge challenge) row (update_where hit mark_consumed rows) e in
    elim (In-update hit mark_consumed row rows m) [
      | inl (q, k, live, is) ↦
          live-Claimed rows challenge person now q k live
            (ap (λ (x : PasskeyChallenge). x.person_id) is ∙ bound)
      | inr (k, dead) ↦
          let (q, n, live) = any-exists hit rows some_live in
          let one : q ≡ row = keyed q row n k (
            (eq_iff q.challenge challenge).0 (ground arith)
            ∙ sym ((eq_iff row.challenge challenge).0 same)) in
          let alive = subst (λ x. hit x ≡ true) one live in absurd (cc)
    ]

consumed-Claimed :
    (rows : List PasskeyChallenge) (challenge person : Text) (now : ℕ) (row : PasskeyChallenge)
    → IsKeyed rows
    → (consume rows challenge (codes "login") now).1 ≡ some row
    → row.person_id ≡ some person
    → Claimed rows challenge person now × (row.challenge ≡ challenge)
unfolding consume
consumed-Claimed rows challenge person now row keyed =
    let hit = is_live challenge (codes "login") now in
    let rows' = update_where hit mark_consumed rows in
    if-branches
      (λ (out : List PasskeyChallenge × Option PasskeyChallenge).
        out.1 ≡ some row
        → row.person_id ≡ some person
        → Claimed rows challenge person now × (row.challenge ≡ challenge))
      (any hit rows)
      (λ live h bound. (
        found-Claimed rows challenge person now row keyed live h bound,
        (eq_iff row.challenge challenge).0 (first-In (is_challenge challenge) row rows' h).1,
      ))
      (λ _ h bound. absurd (cc))

module _ {Credential : Type 0} (raw_id : Credential → Text)
    (verify : Credential → Text → PasskeyCredential → Option ℕ) where
  -- A stored credential of the person, good for the challenge.
  pub record Proof (rows : List PasskeyCredential) (credential : Credential)
      (challenge person : Text) : Type 0 where
    pub stored : PasskeyCredential
    pub is_stored : In stored rows
    pub same_id : stored.id ≡ raw_id credential
    pub same_person : stored.person_id ≡ person
    pub count : ℕ
    pub verified : verify credential challenge stored ≡ some count

  stored-Proof :
      (s : Passkeys) (credential : Credential) (challenge subject person : Text) (now : ℕ)
      (o : Option PasskeyCredential)
      → get_by_id_and_person s.credentials (raw_id credential) subject ≡ o
      → (finish_stored Credential raw_id verify s credential challenge o now).1 ≡ some person
      → Proof s.credentials credential challenge person × (subject ≡ person)
  unfolding get_by_id_and_person
  stored-Proof s credential challenge subject person now none e h = absurd (cc)
  stored-Proof s credential challenge subject person now (some stored) e h =
      go (verify credential challenge stored) refl h
    where
      go :
          (o : Option ℕ)
          → verify credential challenge stored ≡ o
          → (finish_verified Credential raw_id verify s credential stored o now).1 ≡ some person
          → Proof s.credentials credential challenge person × (subject ≡ person)
      go none v k = absurd (cc)
      go (some n) v k =
          let (m, mine) = first-In (is_of (raw_id credential) subject) stored s.credentials e in
          let at : stored.person_id ≡ person = cc in
          let of : stored.person_id ≡ subject = ground (arith, eq_iff stored.person_id subject) in
          (
            record {
              stored = stored;
              is_stored = m;
              same_id = ground (arith, eq_iff stored.id (raw_id credential));
              same_person = at;
              count = n;
              verified = v;
            },
            sym of ∙ at,
          )

  claimed-Proof :
      (s : Passkeys) (credential : Credential) (challenge person : Text) (now : ℕ)
      (o : Option PasskeyChallenge)
      → (finish_claimed Credential raw_id verify s credential o now).1 ≡ some person
      → (row : PasskeyChallenge) × (o ≡ some row)
        × (row.person_id ≡ some person)
        × Proof s.credentials credential row.challenge person
  claimed-Proof s credential challenge person now none h = absurd (cc)
  claimed-Proof s credential challenge person now (some row) h =
      let (found, bound) = go row.person_id refl h in (row, refl, bound, found)
    where
      go :
          (o : Option Text)
          → row.person_id ≡ o
          → (finish_subject Credential raw_id verify s credential row.challenge o now).1
            ≡ some person
          → Proof s.credentials credential row.challenge person × (row.person_id ≡ some person)
      go none e k = absurd (cc)
      go (some subject) e k =
          let (found, same) =
            stored-Proof s credential row.challenge subject person now
              (get_by_id_and_person s.credentials (raw_id credential) subject) refl k in
          (found, cc)

  -- A passkey login that ends with a person rests on a row of the table of challenges that was
  -- issued for login under the presented challenge, unused, not expired and bound to that
  -- person, and on a stored credential of that person which the assertion names and for which
  -- the verifier accepts it against that challenge; a challenge has one row.
  pub verify_authentication-Proof :
      (s : Passkeys) (credential : Credential) (challenge : Text) (now : ℕ) (person : Text)
      → IsKeyed s.challenges
      → (verify_authentication Credential raw_id verify s credential challenge now).1 ≡ some person
      → Claimed s.challenges challenge person now × Proof s.credentials credential challenge person
  unfolding verify_authentication
  verify_authentication-Proof s credential challenge now person keyed h =
      let out = consume s.challenges challenge (codes "login") now in
      let (row, e, bound, found) =
        claimed-Proof (record s { challenges = out.0 }) credential challenge person now out.1 h in
      let (claimed, same) = consumed-Claimed s.challenges challenge person now row keyed e bound in
      (claimed, subst (λ c. Proof s.credentials credential c person) same found)
