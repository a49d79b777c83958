-- ===== src/Reset/Begin.antt =====
-- What the first half of a reset has made sure of when the derivation starts.
use agience_origin.Base.{
  ℕ, ◌≤◌, ◌<◌, ◌≡◌, refl, Bool, true, not, Option, none, some, [], ◌∷◌, Text, text_eq, eq_iff,
  arith, if-branches, first, In, first-In, length, ltb, leb, ltb→ge, leb→gt,
}
use agience_origin.Person.Store.{Person, get_by_id}
use agience_origin.Person.Passwords.{get_by_id-id}
use agience_origin.Reset.Links.{
  has_token, Accounts, ResetClaims, PasswordReset, Begun, stopped, deriving_key, still_applies,
  reset_claims, claims_of, begin_applied, begin_claims, confirm_begin,
}

module _ (reset_hash digest : Text → Text) where
  -- A stored link that is the token's, unexpired, and of an account whose password it was made for.
  pub record Backed (s : Accounts) (token : Text) (now : ℕ) (c : ResetClaims) : Type 0 where
    pub row : PasswordReset
    pub stored : In row s.resets
    pub named : row.token_hash ≡ reset_hash token
    pub unexpired : now < row.expires_at
    pub claims : c ≡ record { sub = row.person_id; pwf = row.password_fingerprint }

  abbrev BackedClaims : Accounts → Text → ℕ → Option ResetClaims → Type 0
  BackedClaims s token now none = Unit
  BackedClaims s token now (some c) = Backed s token now c

  claims_of-Backed :
      (s : Accounts) (token : Text) (now : ℕ) (o : Option PasswordReset)
      → first (has_token (reset_hash token)) s.resets ≡ o
      → BackedClaims s token now (claims_of now o)
  claims_of-Backed s token now none e = tt
  claims_of-Backed s token now (some r) e =
      if-branches (BackedClaims s token now) (leb r.expires_at now) (λ lapsed. tt)
        (λ live.
          let (m, k) = first-In (has_token (reset_hash token)) r s.resets e in
          record {
            row = r;
            stored = m;
            named = (eq_iff r.token_hash (reset_hash token)).0 k;
            unexpired = leb→gt r.expires_at now live;
            claims = refl;
          })

  reset_claims-Backed :
      (s : Accounts) (token : Text) (now : ℕ)
      → BackedClaims s token now (reset_claims reset_hash digest s token now)
  unfolding reset_claims
  reset_claims-Backed s [] now = tt
  reset_claims-Backed s (c ∷ token) now =
      if-branches (BackedClaims s (c ∷ token) now) (ltb 128 (length (c ∷ token))) (λ long. tt)
        (λ short. claims_of-Backed s (c ∷ token) now _ refl)

  -- The derivation starts for the account that the link names, which may have its password reset.
  pub record Admitted (s : Accounts) (enabled : Bool) (token new_password : Text) (min_len now : ℕ)
      (id : Text) (c : ResetClaims) : Type 0 where
    pub is_enabled : enabled ≡ true
    pub long_enough : min_len ≤ length new_password
    pub backed : Backed s token now c
    pub account : Person
    pub found : get_by_id s.db c.sub ≡ some account
    pub same_id : id ≡ c.sub
    pub applies : still_applies reset_hash digest (some account) c ≡ true

  module _ (s : Accounts) (enabled : Bool) (token new_password : Text) (min_len now : ℕ) where
    abbrev pub AdmittedBegun : Begun → Type 0
    AdmittedBegun (stopped status) = Unit
    AdmittedBegun (deriving_key id c) = Admitted s enabled token new_password min_len now id c

    begin_applied-Admitted :
        (c : ResetClaims) (o : Option Person)
        → enabled ≡ true
        → min_len ≤ length new_password
        → Backed s token now c
        → get_by_id s.db c.sub ≡ o
        → AdmittedBegun (begin_applied reset_hash digest o c)
    begin_applied-Admitted c none on long b e = tt
    begin_applied-Admitted c (some p) on long b e =
        if-branches AdmittedBegun (still_applies reset_hash digest (some p) c)
          (λ applies. record {
            is_enabled = on;
            long_enough = long;
            backed = b;
            account = p;
            found = e;
            same_id = get_by_id-id s.db c.sub p e;
            applies = applies;
          })
          (λ stale. tt)

    begin_claims-Admitted :
        (o : Option ResetClaims)
        → enabled ≡ true
        → BackedClaims s token now o
        → AdmittedBegun (begin_claims reset_hash digest s o new_password min_len)
    begin_claims-Admitted none on b = tt
    begin_claims-Admitted (some c) on b =
        if-branches AdmittedBegun (ltb (length new_password) min_len) (λ short. tt)
          (λ long.
            begin_applied-Admitted c (get_by_id s.db c.sub) on
              (ltb→ge (length new_password) min_len long) b refl)

    pub confirm_begin-Admitted :
        AdmittedBegun (confirm_begin reset_hash digest s enabled token new_password min_len now)
    unfolding confirm_begin
    confirm_begin-Admitted =
        if-branches AdmittedBegun (not enabled) (λ disabled. tt)
          (λ on.
            begin_claims-Admitted (reset_claims reset_hash digest s token now) (ground arith)
              (reset_claims-Backed s token now))
