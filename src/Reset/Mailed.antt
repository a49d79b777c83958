-- ===== src/Reset/Mailed.antt =====
-- A link that was mailed works for its hour.
use agience_origin.Base.{
  ℕ, ◌+◌, ◌≤◌, ◌<◌, ◌≡◌, refl, sym, subst, ap, ◌∙◌, true, false, some, [], ◌∷◌, ◌++◌, Text, text_eq,
  eq_refl, arith, Bool-cases, inl, inr, any, delete_where, first, first-append_none, length, ltb,
}
use agience_origin.Person.Store.{Person, get_by_id}
use agience_origin.Person.Unique.{IsUnique}
use agience_origin.Person.Passwords.{set_password_ok}
use agience_origin.Reset.Links.{
  has_token, is_lapsed, new_reset, Accounts, ResetClaims, account_name, reset_done, pw_fingerprint,
  may_reset, still_applies, issue_reset_token, reset_claims, claims_of, check_claims, reset_check,
  begin_claims, confirm_begin, confirm_finish, confirm_begun, password_written,
  password_reset_confirm, reset_ttl, text_or,
}

module _ (reset_hash digest : Text → Text) where
  abbrev claims_for : Person → ResetClaims
  claims_for p = record { sub = p.id; pwf = pw_fingerprint reset_hash digest p.password_hash }

  -- What a link that was issued leaves.
  issued :
      (s s' : Accounts) (p : Person) (now : ℕ) (token : Text)
      → issue_reset_token reset_hash digest s p now token ≡ some s'
      → (s'.db ≡ s.db)
        × (first (has_token (reset_hash token)) s'.resets
            ≡ some (new_reset reset_hash digest p now token))
  unfolding issue_reset_token
  issued s s' p now token e =
      let kept = delete_where (is_lapsed now) s.resets in
      let row = new_reset reset_hash digest p now token in
      elim (Bool-cases (any (has_token (reset_hash token)) kept)) [
        | inl taken ↦ absurd (ground arith)
        | inr free ↦
            let same : record s { resets = kept ++ row ∷ [] } ≡ s' = ground arith in
            (
              sym (ap (λ (x : Accounts). x.db) same),
              sym (ap (λ (x : Accounts). first (has_token (reset_hash token)) x.resets) same)
                  ∙ first-append_none (has_token (reset_hash token)) row kept free
                      (eq_refl (reset_hash token)),
            )
      ]

  claims_of-row :
      (p : Person) (now t : ℕ) (token : Text)
      → t < now + reset_ttl
      → claims_of t (some (new_reset reset_hash digest p now token)) ≡ some (claims_for p)
  claims_of-row p now t token early = ground arith

  reset_claims_issued :
      (s : Accounts) (p : Person) (now t : ℕ) (token : Text)
      → 0 < length token
      → length token ≤ 128
      → t < now + reset_ttl
      → first (has_token (reset_hash token)) s.resets
        ≡ some (new_reset reset_hash digest p now token)
      → reset_claims reset_hash digest s token t ≡ some (claims_for p)
  unfolding reset_claims
  reset_claims_issued s p now t [] long short early e = absurd (omega arith)
  reset_claims_issued s p now t (c ∷ token) long short early e =
      let fits : ltb 128 (length (c ∷ token)) ≡ false = ground arith in
      rw (fits, e) (claims_of-row p now t (c ∷ token) early)

  still_applies_own :
      (p : Person)
      → may_reset p ≡ true
      → still_applies reset_hash digest (some p) (claims_for p) ≡ true
  unfolding still_applies
  still_applies_own p may =
      rw (may, eq_refl (pw_fingerprint reset_hash digest p.password_hash)) refl

  -- A link that was issued for an account of a sound table that may be mailed one works for its
  -- hour, with no other request in between: the page is told the account's name, and a password
  -- that is long enough is set. The token has at least one and at most 128 characters.
  pub issue_reset_token-confirm :
      (s s' : Accounts) (p : Person) (now t : ℕ) (token new_password new_hash : Text) (min_len : ℕ)
      → IsUnique s.db
      → get_by_id s.db p.id ≡ some p
      → may_reset p ≡ true
      → 0 < length token
      → length token ≤ 128
      → issue_reset_token reset_hash digest s p now token ≡ some s'
      → t < now + reset_ttl
      → min_len ≤ length new_password
      → (reset_check reset_hash digest s' token t
          ≡ account_name (text_or p.email (text_or p.username [])))
        × ((password_reset_confirm reset_hash digest s' true token new_password min_len t
              new_hash).1
            ≡ reset_done)
  unfolding reset_check password_reset_confirm confirm_begin confirm_finish
  issue_reset_token-confirm s s' p now t token new_password new_hash min_len u e may long short i
        early policy =
      let (kept, row) = issued s s' p now token i in
      let c = reset_claims_issued s' p now t token long short early row in
      let own = still_applies_own p may in
      let found : get_by_id s'.db p.id ≡ some p = ap (λ d. get_by_id d p.id) kept ∙ e in
      let u' : IsUnique s'.db = subst IsUnique (sym kept) u in
      let fits : ltb (length new_password) min_len ≡ false = ground arith in
      let (db', w) = set_password_ok s'.db p.id new_hash p u' found in
      (
        rw (c, found, check_claims, own) refl,
        rw (c, fits, found, begin_claims, own, confirm_begun, found, own, w, password_written) refl,
      )
