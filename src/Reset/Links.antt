-- ===== src/Reset/Links.antt =====
-- routers/auth_router.py, the links of /password/reset-request, reset-check and reset-confirm, and
-- models/password_reset.py, in microseconds. The two SHA-256 digests are parameters, and so is the hash
-- of the new password, since its salt is random. reset-confirm is cut where it awaits the key
-- derivation: other requests run there. A write that raises is rolled back.
use agience_origin.Base.{
  ℕ, ◌+◌, Bool, true, false, not, ◌&&◌, ◌||◌, Option, none, some, List, [], ◌∷◌, ◌++◌, Text, ◌==◌,
  text_eq, ltb, leb, if◌then◌else◌, length, any, first, delete_where,
}
use agience_origin.Person.Store.{Person, Db, Result, ok, raise, get_by_id}
use agience_origin.Person.Service.{is_set, set_password}

pub record PasswordReset : Type 0 where
  pub token_hash : Text
  pub person_id : Text
  pub password_fingerprint : Text
  pub expires_at : ℕ

pub record Accounts : Type 0 where
  pub db : Db
  pub resets : List PasswordReset

pub record ResetClaims : Type 0 where
  pub sub : Text
  pub pwf : Text

pub data ResetAnswer : Type 0 where
  http_error : ℕ → ResetAnswer
  account_name : Text → ResetAnswer
  reset_done : ResetAnswer

-- What reset-confirm knows when it starts the derivation.
pub data Begun : Type 0 where
  stopped : ℕ → Begun
  deriving_key : Text → ResetClaims → Begun

abbrev pub reset_ttl : ℕ
reset_ttl = 3600000000

abbrev pub text_or : Option Text → Text → Text
text_or (some (c ∷ s)) other = c ∷ s
text_or _ other = other

abbrev pub is_deactivated : Person → Bool
is_deactivated p = elim p.deactivated_at [ none ↦ false | some t ↦ true ]

-- Whom a link may be mailed to.
unfoldable pub may_reset : Person → Bool
may_reset p = (is_set p.password_hash || p.email_verified) && not (is_deactivated p)

abbrev pub is_lapsed : ℕ → PasswordReset → Bool
is_lapsed now r = ltb r.expires_at now

abbrev pub has_token : Text → PasswordReset → Bool
has_token token_hash r = r.token_hash == token_hash

abbrev pub is_row_of : Text → PasswordReset → Bool
is_row_of person_id r = r.person_id == person_id

abbrev pub claims_of : ℕ → Option PasswordReset → Option ResetClaims
claims_of now none = none
claims_of now (some r) =
    if leb r.expires_at now
    then none
    else some (record { sub = r.person_id; pwf = r.password_fingerprint })

module _ (reset_hash digest : Text → Text) where
  abbrev pub pw_fingerprint : Option Text → Text
  pw_fingerprint password_hash = digest (text_or password_hash [])

  abbrev pub new_reset : Person → ℕ → Text → PasswordReset
  new_reset p now token = record {
    token_hash = reset_hash token;
    person_id = p.id;
    password_fingerprint = pw_fingerprint p.password_hash;
    expires_at = now + reset_ttl;
  }

  -- Nothing where the hash of the token stands in the table already.
  unfoldable pub issue_reset_token : Accounts → Person → ℕ → Text → Option Accounts
  issue_reset_token s p now token =
      let kept = delete_where (is_lapsed now) s.resets in
      if any (has_token (reset_hash token)) kept
      then none
      else some (record s { resets = kept ++ new_reset p now token ∷ [] })

  unfoldable pub reset_claims : Accounts → Text → ℕ → Option ResetClaims
  reset_claims s [] now = none
  reset_claims s (c ∷ token) now =
      if ltb 128 (length (c ∷ token))
      then none
      else claims_of now (first (has_token (reset_hash (c ∷ token))) s.resets)

  unfoldable pub still_applies : Option Person → ResetClaims → Bool
  still_applies none c = false
  still_applies (some p) c = may_reset p && pw_fingerprint p.password_hash == c.pwf

  abbrev pub check_claims : Accounts → Option ResetClaims → ResetAnswer
  check_claims s none = http_error 400
  check_claims s (some c) = elim (get_by_id s.db c.sub) [
    | none ↦ http_error 400
    | some p ↦
        if still_applies (some p) c
        then account_name (text_or p.email (text_or p.username []))
        else http_error 400
  ]

  unfoldable pub reset_check : Accounts → Text → ℕ → ResetAnswer
  reset_check s token now = check_claims s (reset_claims s token now)

  abbrev pub begin_applied : Option Person → ResetClaims → Begun
  begin_applied none c = stopped 400
  begin_applied (some p) c = if still_applies (some p) c then deriving_key p.id c else stopped 400

  abbrev pub begin_claims : Accounts → Option ResetClaims → Text → ℕ → Begun
  begin_claims s none new_password min_len = stopped 400
  begin_claims s (some c) new_password min_len =
      if ltb (length new_password) min_len
      then stopped 400
      else begin_applied (get_by_id s.db c.sub) c

  unfoldable pub confirm_begin : Accounts → Bool → Text → Text → ℕ → ℕ → Begun
  confirm_begin s enabled token new_password min_len now =
      if not enabled
      then stopped 404
      else begin_claims s (reset_claims s token now) new_password min_len

  abbrev pub password_written : Accounts → Result (Person × Db) → Accounts × ResetAnswer
  password_written s (ok (p, db')) =
      (record { db = db'; resets = delete_where (is_row_of p.id) s.resets }, reset_done)
  password_written s (raise e) = (s, http_error 500)

  -- What comes after the derivation, up to the commit.
  unfoldable pub confirm_finish : Accounts → Text → ResetClaims → Text → Accounts × ResetAnswer
  confirm_finish s user_id c new_hash =
      if still_applies (get_by_id s.db user_id) c
      then password_written s (set_password s.db user_id new_hash)
      else (s, http_error 400)

  abbrev pub confirm_begun : Accounts → Begun → Text → Accounts × ResetAnswer
  confirm_begun s (stopped status) new_hash = (s, http_error status)
  confirm_begun s (deriving_key user_id c) new_hash = confirm_finish s user_id c new_hash

  -- With no other request while the key is derived.
  unfoldable pub password_reset_confirm :
      Accounts → Bool → Text → Text → ℕ → ℕ → Text → Accounts × ResetAnswer
  password_reset_confirm s enabled token new_password min_len now new_hash =
      confirm_begun s (confirm_begin s enabled token new_password min_len now) new_hash
