-- ===== src/Password/Proven.antt =====
-- What a proven password rests on.
use agience_origin.Base.{
  ℕ, ◌≡◌, refl, ap, subst, Bool, true, false, not, ◌&&◌, ◌||◌, Option, none, some, Text,
  if-branches, arith, strip,
}
use agience_origin.Person.Store.{Person, get_by_id}
use agience_origin.Reset.Links.{is_deactivated}
use agience_origin.OAuth.Exchange.{is_set, text_of}
use agience_origin.Password.SignIn.{
  SignInState, Verdict, proven, Held, find_user, held_user, spend_password_attempt,
  clear_password_failures, login_gate, login_checked, password_login,
}

module _ (verify_password : Text → Text → Bool) (is_current : Text → Bool)
    (email_verification_required : Option Text → Bool) where
  -- The person that is proven, and what the attempt did.
  pub record Proven (s s' : SignInState) (enabled : Bool) (typed password : Text) (rng : ℕ → ℕ)
      (now : ℕ) (p : Person) : Type 0 where
    pub is_enabled : enabled ≡ true
    pub admitted : (spend_password_attempt rng s.failures (strip typed) now).1 ≡ true
    pub named : Person
    pub found : find_user s.db (strip typed) ≡ some named
    pub has_password : is_set named.password_hash ≡ true
    pub verified : verify_password password (text_of named.password_hash) ≡ true
    pub account : get_by_id s'.db named.id ≡ some p
    pub active : is_deactivated p ≡ false
    pub confirmed : (not p.email_verified && email_verification_required p.email) ≡ false
    pub cleared :
        s'.failures
        ≡ clear_password_failures
            (spend_password_attempt rng s.failures (strip typed) now).0
            (strip typed)

  gate_passed :
      (o : Option Person) (p : Person)
      → login_gate verify_password is_current email_verification_required o ≡ proven p
      → (o ≡ some p)
        × (is_deactivated p ≡ false)
        × ((not p.email_verified && email_verification_required p.email) ≡ false)
  unfolding login_gate
  gate_passed none p = λ h. absurd (cc)
  gate_passed (some q) p =
      let P = λ (out : Verdict).
        out ≡ proven p
        → (some q ≡ some p)
          × (is_deactivated p ≡ false)
          × ((not p.email_verified && email_verification_required p.email) ≡ false) in
      if-branches P (is_deactivated q) (λ _ h. absurd (cc))
        (λ active.
          if-branches P (not q.email_verified && email_verification_required q.email)
            (λ _ h. absurd (cc))
            (λ confirmed h.
              let same : q ≡ p = cc in
              (
                ap some same,
                subst (λ x. is_deactivated x ≡ false) same active,
                subst
                    (λ (x : Person).
                      (not x.email_verified && email_verification_required x.email) ≡ false)
                    same confirmed,
              )))

  module _ (s : SignInState) (enabled : Bool) (typed password : Text) (rng : ℕ → ℕ) (now : ℕ)
      (new_hash : Text) where
    abbrev IsProven : SignInState × Verdict → Type 0
    IsProven out = (p : Person) → out.1 ≡ proven p → Proven s out.0 enabled typed password rng now p

    module _ (on : enabled ≡ true)
        (admitted : (spend_password_attempt rng s.failures (strip typed) now).1 ≡ true) where
      abbrev charged : SignInState
      charged = record s { failures = (spend_password_attempt rng s.failures (strip typed) now).0 }

      login_checked-IsProven :
          (named : Person)
          → find_user s.db (strip typed) ≡ some named
          → is_set named.password_hash ≡ true
          → IsProven (
              login_checked verify_password is_current email_verification_required charged
                (strip typed)
                password
                new_hash
                (some (record { person_id = named.id; stored_hash = text_of named.password_hash })))
      login_checked-IsProven named found has =
          if-branches IsProven (verify_password password (text_of named.password_hash))
            (λ verified p h.
              let (account, active, confirmed) = gate_passed _ p h in
              record {
                is_enabled = on;
                admitted = admitted;
                named = named;
                found = found;
                has_password = has;
                verified = verified;
                account = account;
                active = active;
                confirmed = confirmed;
                cleared = refl;
              })
            (λ wrong p h. absurd (cc))

      found-IsProven :
          (o : Option Person)
          → find_user s.db (strip typed) ≡ o
          → IsProven (
              login_checked verify_password is_current email_verification_required charged
                (strip typed)
                password
                new_hash
                (held_user o))
      found-IsProven none e = λ p h. absurd (cc)
      found-IsProven (some named) e =
          if-branches
            (λ (o : Option Held). IsProven (
              login_checked verify_password is_current email_verification_required charged
                (strip typed) password new_hash o))
            (is_set named.password_hash) (λ has. login_checked-IsProven named e has)
            (λ bare p h. absurd (cc))

    -- A person whom a password route lets pass rests on all of this: password sign-in is on, the
    -- attempt under the identifier was within its budget and charged, the person that the
    -- identifier names has a stored hash against which the password verifies, the account as it
    -- stands after the upgrade of the hash is that person, is not deactivated and has a
    -- confirmed address where one is needed; and the charges under the identifier are dropped.
    pub password_login-Proven :
        (p : Person)
        → let out =
            password_login verify_password is_current email_verification_required s enabled typed
              password rng now new_hash in
          out.1 ≡ proven p → Proven s out.0 enabled typed password rng now p
    unfolding password_login
    password_login-Proven =
        if-branches IsProven (not enabled) (λ _ p h. absurd (cc))
          (λ on.
            if-branches IsProven (not (is_set (some (strip typed))) || not (is_set (some password)))
              (λ _ p h. absurd (cc))
              (λ _.
                if-branches IsProven (spend_password_attempt rng s.failures (strip typed) now).1
                  (λ admitted.
                    found-IsProven (ground arith) admitted (find_user s.db (strip typed)) refl)
                  (λ _ p h. absurd (cc))))
