-- ===== src/Password/Routes.antt =====
-- The two routes that take a password, side by side: what the one asks more than the other.
use agience_origin.Base.{
  ℕ, ◌≡◌, refl, ap, ◌↔◌, Bool, true, false, not, Option, none, some, [], ◌∷◌, ◌++◌, Text,
  if-branches, arith, any, any-first,
}
use agience_origin.Person.Store.{Person, PersonIdentity, Db, ok, get_by_identity, is_identity, add}
use agience_origin.Person.Service.{verified_identity, oidc}
use agience_origin.OAuth.Exchange.{text_of}
use agience_origin.OAuth.Flow.{AuthRequest, Flow, FlowReply, http_error, with_code, local_provider}
use agience_origin.OAuth.SignIn.{
  pop_local_auth_request, with_local_identity, signed_in, complete_local_signin,
}
use agience_origin.Password.SignIn.{
  SignInState, Verdict, refused, proven, Held, find_user, find_person, held_user, held_person,
  login_gate, local_gate, login_checked, local_checked, password_login, local_proven, coded,
  authorized, authorize_local_password,
}

-- The identity row is written without a clash, since it was looked for first.
add_free :
    (db : Db) (r : PersonIdentity)
    → get_by_identity db r.method r.provider r.subject ≡ none
    → add db r ≡ ok (record db { identities = db.identities ++ r ∷ [] })
unfolding add get_by_identity
add_free db r e =
    let free : any (is_identity r.method r.provider r.subject) db.identities ≡ false =
      any-first (is_identity r.method r.provider r.subject) db.identities e in
    rw free refl

with_local_identity_ok :
    (db : Db) (p : Person) (now : ℕ) → (db' : Db) × (with_local_identity db p now ≡ ok db')
with_local_identity_ok db p now = go (get_by_identity db oidc local_provider p.id) refl
  where
    go :
        (o : Option PersonIdentity)
        → get_by_identity db oidc local_provider p.id ≡ o
        → (db' : Db) × ((elim o [
          | some row ↦ ok db
          | none ↦ add db (verified_identity p.id oidc local_provider p.id now none)
        ])
            ≡ ok db')
    go (some row) e = (db, refl)
    go none e = (
      record db {
        identities = db.identities ++ verified_identity p.id oidc local_provider p.id now none ∷ [];
      },
      add_free db (verified_identity p.id oidc local_provider p.id now none) e,
    )

complete_local_signin-with_code :
    (db : Db) (flow : Flow) (oauth_state : Text) (r : AuthRequest) (p : Person) (now : ℕ)
    (code : Text)
    → (complete_local_signin db flow oauth_state r p now code).2 ≡ with_code r.redirect_uri code
unfolding complete_local_signin
complete_local_signin-with_code db flow oauth_state r p now code =
    let (db', e) = with_local_identity_ok db p now in
    ap (λ o. (signed_in db flow oauth_state r p now code o).2) e

-- The two copies, piece by piece.
find-same : (db : Db) (identifier : Text) → find_person db identifier ≡ find_user db identifier
unfolding find_person find_user
find-same db identifier = refl

held-same : (o : Option Person) → held_person o ≡ held_user o
held-same none = refl
held-same (some p) = refl

module _ (verify_password : Text → Text → Bool) (is_current : Text → Bool)
    (email_verification_required : Option Text → Bool) where
  gate-same :
      (o : Option Person)
      → local_gate verify_password is_current email_verification_required o
        ≡ login_gate verify_password is_current email_verification_required o
  unfolding local_gate login_gate
  gate-same none = refl
  gate-same (some p) = refl

  checked-same :
      (s : SignInState) (identifier password new_hash : Text) (o : Option Held)
      → local_checked verify_password is_current email_verification_required s identifier password
          new_hash o
        ≡ login_checked verify_password is_current email_verification_required s identifier password
            new_hash o
  checked-same s identifier password new_hash none = refl
  checked-same s identifier password new_hash (some held) = rw gate-same refl

  -- The routes pass the same person and leave the same accounts, up to where the first route mints
  -- its tokens.
  local_proven-password_login :
      (s : SignInState) (enabled : Bool) (typed password : Text) (rng : ℕ → ℕ) (now : ℕ)
      (new_hash : Text)
      → local_proven verify_password is_current email_verification_required s enabled typed password
          rng now new_hash
        ≡ password_login verify_password is_current email_verification_required s enabled typed
            password rng now new_hash
  unfolding local_proven password_login
  local_proven-password_login s enabled typed password rng now new_hash =
      rw (find-same, held-same, checked-same) refl

module _ (verify_password : Text → Text → Bool) (is_current : Text → Bool)
    (email_verification_required : Option Text → Bool)
    (is_person_allowed : Option Text → Text → Bool) where
  abbrev Coded : SignInState → Flow → Text → AuthRequest → ℕ → Text → Verdict → FlowReply
  Coded s flow oauth_state r now code o =
      (coded verify_password is_current email_verification_required is_person_allowed s flow
        oauth_state r o now code).2

  abbrev IsAllowed : Verdict → Type 0
  IsAllowed o = (p : Person) × (o ≡ proven p) × (is_person_allowed none (text_of p.email) ≡ true)

  coded_iff :
      (s : SignInState) (flow : Flow) (oauth_state : Text) (r : AuthRequest) (now : ℕ) (code : Text)
      (o : Verdict)
      → (Coded s flow oauth_state r now code o ≡ with_code r.redirect_uri code) ↔ IsAllowed o
  coded_iff s flow oauth_state r now code (refused status) =
      (λ h. absurd (cc), λ (p, e, a). absurd (cc))
  coded_iff s flow oauth_state r now code (proven p) =
      if-branches
        (λ (out : SignInState × Flow × FlowReply).
          (out.2 ≡ with_code r.redirect_uri code) ↔ IsAllowed (proven p))
        (not (is_person_allowed none (text_of p.email)))
        (λ barred. (
          λ (h : http_error 403 ≡ with_code r.redirect_uri code). absurd (cc),
          λ (q, e, a).
              let same : p ≡ q = cc in
              absurd (
                ground (arith, ap (λ (x : Person). is_person_allowed none (text_of x.email)) same)),
        ))
        (λ allowed. (
          λ h. (p, refl, ground arith),
          λ _. complete_local_signin-with_code s.db flow oauth_state r p now code,
        ))

  coded-failures :
      (s : SignInState) (flow : Flow) (oauth_state : Text) (r : AuthRequest) (now : ℕ) (code : Text)
      (o : Verdict)
      → (coded verify_password is_current email_verification_required is_person_allowed s flow
          oauth_state r o now code).0.failures
        ≡ s.failures
  coded-failures s flow oauth_state r now code (refused status) = refl
  coded-failures s flow oauth_state r now code (proven p) =
      if-branches (λ (out : SignInState × Flow × FlowReply). out.0.failures ≡ s.failures)
        (not (is_person_allowed none (text_of p.email))) (λ _. refl) (λ _. refl)

  -- For a pending request of a local sign-in, the two routes, which each prove the password with
  -- code of their own, agree: both leave the same budget of attempts, and the route in the code
  -- flow answers with the code exactly if the route that mints tokens passes some person under
  -- the same identifier and password, and the allow-list admits that person's address, which the
  -- second does not ask.
  pub authorize_local_password_iff :
      (s : SignInState) (flow : Flow) (oauth_state : Text) (r : AuthRequest) (enabled : Bool)
      (typed password : Text) (rng : ℕ → ℕ) (now : ℕ) (new_hash code : Text)
      → pop_local_auth_request flow oauth_state ≡ some r
      → let local =
          authorize_local_password verify_password is_current email_verification_required
            is_person_allowed s flow oauth_state enabled typed password rng now new_hash code in
        let login =
          password_login verify_password is_current email_verification_required s enabled typed
            password rng now new_hash in
        (local.0.failures ≡ login.0.failures)
        × ((local.2 ≡ with_code r.redirect_uri code) ↔ (
            (p : Person) × (login.1 ≡ proven p)
            × (is_person_allowed none (text_of p.email) ≡ true)))
  unfolding authorize_local_password
  authorize_local_password_iff s flow oauth_state r enabled typed password rng now new_hash code h =
      let login =
        password_login verify_password is_current email_verification_required s enabled typed
          password rng now new_hash in
      rw (h, authorized, local_proven-password_login)
        (
          coded-failures login.0 flow oauth_state r now code login.1,
          coded_iff login.0 flow oauth_state r now code login.1,
        )
