-- ===== src/Reset/Proof.antt =====
-- What a reset that goes through rests on, and what it does.
use agience_origin.Base.{
  ℕ, ◌≤◌, ◌≡◌, refl, sym, subst, ap, Bool, true, false, ◌&&◌, some, List, [], ◌∷◌, Text, ◌==◌,
  text_eq, eq_iff, arith, if-branches, any, delete_where, length,
}
use agience_origin.Person.Store.{Person, Db, Result, ok, raise, get_by_id}
use agience_origin.Person.Service.{set_password}
use agience_origin.Person.Passwords.{set_password-Changed}
use agience_origin.Reset.Links.{
  is_row_of, Accounts, ResetClaims, PasswordReset, ResetAnswer, reset_done, Begun, stopped,
  deriving_key, pw_fingerprint, may_reset, still_applies, confirm_begin, confirm_finish,
  confirm_begun, password_written, password_reset_confirm,
}
use agience_origin.Reset.Begin.{Backed, Admitted, AdmittedBegun, confirm_begin-Admitted}

module _ (reset_hash digest : Text → Text) where
  -- What a reset rests on, and what it did.
  pub record Rightful (s s' : Accounts) (enabled : Bool) (token new_password : Text)
      (min_len now : ℕ) (new_hash : Text) : Type 0 where
    pub is_enabled : enabled ≡ true
    pub long_enough : min_len ≤ length new_password
    pub claims : ResetClaims
    pub backed : Backed reset_hash digest s token now claims
    pub account : Person
    pub found : get_by_id s.db claims.sub ≡ some account
    pub allowed : may_reset account ≡ true
    pub unchanged_since : pw_fingerprint reset_hash digest account.password_hash ≡ claims.pwf
    pub written : Person
    pub stored : get_by_id s'.db claims.sub ≡ some written
    pub new_password_stored : written.password_hash ≡ some new_hash
    pub others :
        (other : Text)
        → (claims.sub == other) ≡ false
        → get_by_id s'.db other ≡ get_by_id s.db other
    pub no_link_left : any (is_row_of claims.sub) s'.resets ≡ false

  none_left :
      (id : Text) (rs : List PasswordReset)
      → any (is_row_of id) (delete_where (is_row_of id) rs) ≡ false
  none_left id [] = refl
  none_left id (r ∷ rs) = ground (arith, none_left id rs)

  and_left : (a b : Bool) → (a && b) ≡ true → a ≡ true
  and_left true b h = refl
  and_left false b h = absurd (cc)

  and_right : (a b : Bool) → (a && b) ≡ true → b ≡ true
  and_right true b h = h
  and_right false b h = absurd (cc)

  module _ (s : Accounts) (enabled : Bool) (token new_password : Text) (min_len now : ℕ)
      (new_hash : Text) where
    abbrev DoneRightful : Accounts × ResetAnswer → Type 0
    DoneRightful out =
        out.1 ≡ reset_done → Rightful s out.0 enabled token new_password min_len now new_hash

    written-Rightful :
        (id : Text) (c : ResetClaims)
        → Admitted reset_hash digest s enabled token new_password min_len now id c
        → (r : Result (Person × Db)) → set_password s.db c.sub new_hash ≡ r
        → DoneRightful (password_written reset_hash digest s r)
    unfolding still_applies
    written-Rightful id c a (raise x) e done = absurd (cc)
    written-Rightful id c a (ok (p, db')) e done =
        let ch = set_password-Changed s.db db' c.sub new_hash p e in
        record {
          is_enabled = a.is_enabled;
          long_enough = a.long_enough;
          claims = c;
          backed = a.backed;
          account = a.account;
          found = a.found;
          allowed = and_left (may_reset a.account) _ a.applies;
          unchanged_since = (eq_iff _ c.pwf).0 (and_right (may_reset a.account) _ a.applies);
          written = p;
          stored = ch.found;
          new_password_stored = ch.written;
          others = ch.others;
          no_link_left =
              subst (λ i. any (is_row_of i) (delete_where (is_row_of p.id) s.resets) ≡ false)
                ch.same_id (none_left p.id s.resets);
        }

    finish-Rightful :
        (id : Text) (c : ResetClaims)
        → Admitted reset_hash digest s enabled token new_password min_len now id c
        → DoneRightful (confirm_finish reset_hash digest s id c new_hash)
    unfolding confirm_finish
    finish-Rightful id c a =
        if-branches DoneRightful (still_applies reset_hash digest (get_by_id s.db id) c)
          (λ applies.
            written-Rightful id c a (set_password s.db id new_hash)
              (ap (λ i. set_password s.db i new_hash) (sym a.same_id)))
          (λ stale done. absurd (cc))

    -- A reset that goes through rests on a stored link of the token that has not expired, for an
    -- account that exists, is not deactivated, has a password or a confirmed address, and still
    -- has the password that the link was made for; the new password is long enough; afterwards
    -- the account has its hash, every other account is as it was, and no link of the account is
    -- left.
    pub password_reset_confirm-Rightful :
        let out =
          password_reset_confirm reset_hash digest s enabled token new_password min_len now
            new_hash in
        out.1 ≡ reset_done → Rightful s out.0 enabled token new_password min_len now new_hash
    unfolding password_reset_confirm
    password_reset_confirm-Rightful =
        go (confirm_begin reset_hash digest s enabled token new_password min_len now)
          (confirm_begin-Admitted reset_hash digest s enabled token new_password min_len now)
      where
        go :
            (b : Begun)
            → AdmittedBegun reset_hash digest s enabled token new_password min_len now b
            → DoneRightful (confirm_begun reset_hash digest s b new_hash)
        go (stopped status) a done = absurd (cc)
        go (deriving_key id c) a done = finish-Rightful id c a done
