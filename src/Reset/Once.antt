-- ===== src/Reset/Once.antt =====
-- A link works once, also when two uses of it run at the same time.
use agience_origin.Base.{
  ℕ, ◌≡◌, refl, sym, subst, ap, ◌∙◌, false, Option, none, some, List, [], ◌∷◌, Text, ◌==◌, text_eq,
  eq_iff, arith, if-branches, Bool-cases, inl, inr, ◌⊎◌, any, All, delete_where,
}
use agience_origin.Person.Store.{Person, Db, Result, ok, raise, get_by_id}
use agience_origin.Person.Service.{set_password}
use agience_origin.Person.Passwords.{Changed, set_password-Changed}
use agience_origin.Reset.Links.{
  has_token, is_lapsed, Accounts, ResetClaims, ResetAnswer, http_error, reset_done, pw_fingerprint,
  still_applies, issue_reset_token, confirm_finish, password_written,
}

-- Another request: a link is mailed, a link is used, or the accounts change in any other way.
pub data Step : Type 0 where
  mailed : Person → ℕ → Text → Step
  used : Text → ResetClaims → Text → Step
  changed : Db → Step

abbrev pub or_same : Accounts → Option Accounts → Accounts
or_same s none = s
or_same s (some s') = s'

record SameDb (s : Accounts) (o : Option Accounts) : Type 0 where
  same : (or_same s o).db ≡ s.db

module _ (reset_hash digest : Text → Text) where
  unfoldable pub step : Accounts → Step → Accounts
  step s (mailed p now token) = or_same s (issue_reset_token reset_hash digest s p now token)
  step s (used user_id c new_hash) = (confirm_finish reset_hash digest s user_id c new_hash).0
  step s (changed db) = record s { db = db }

  unfoldable pub run : Accounts → List Step → Accounts
  run s [] = s
  run s (e ∷ es) = run (step s e) es

  -- The account has no password with this fingerprint.
  abbrev pub HasMoved : Text → Text → Db → Type 0
  HasMoved user_id pwf db =
      (p : Person)
      → get_by_id db user_id ≡ some p
      → (pw_fingerprint reset_hash digest p.password_hash == pwf) ≡ false

  -- The step does not give the account such a password back.
  abbrev pub KeepsMoved : Text → Text → Step → Type 0
  KeepsMoved user_id pwf (mailed p now token) = Unit
  KeepsMoved user_id pwf (used other c new_hash) =
      (pw_fingerprint reset_hash digest (some new_hash) == pwf) ≡ false
  KeepsMoved user_id pwf (changed db) = HasMoved user_id pwf db

  Changed-HasMoved :
      (db db' : Db) (id user_id pwf hash : Text) (p : Person)
      → (pw_fingerprint reset_hash digest (some hash) == pwf) ≡ false
      → (id ≡ user_id) ⊎ HasMoved user_id pwf db
      → Changed db id hash p db'
      → HasMoved user_id pwf db'
  Changed-HasMoved db db' id user_id pwf hash p fresh before c q found =
      elim (Bool-cases (id == user_id)) [
        | inl e ↦
            let same : id ≡ user_id = (eq_iff id user_id).0 e in
            let there : get_by_id db' user_id ≡ some p =
              ap (λ x. get_by_id db' x) (sym same) ∙ c.found in
            let who : p ≡ q = cc (found, there) in
            subst (λ o. (pw_fingerprint reset_hash digest o == pwf) ≡ false)
              (sym c.written ∙ ap (λ (x : Person). x.password_hash) who) fresh
        | inr e ↦ elim before [
          | inl same ↦ absurd (cc (e, (eq_iff id user_id).1 same))
          | inr moved ↦ moved q (sym (c.others user_id e) ∙ found)
        ]
      ]

  issued-db :
      (s : Accounts) (p : Person) (now : ℕ) (token : Text)
      → SameDb s (issue_reset_token reset_hash digest s p now token)
  unfolding issue_reset_token
  issued-db s p now token =
      if-branches (SameDb s)
        (any (has_token (reset_hash token)) (delete_where (is_lapsed now) s.resets))
        (λ taken. record { same = refl }) (λ free. record { same = refl })

  written-HasMoved :
      (s : Accounts) (id user_id pwf hash : Text)
      → (pw_fingerprint reset_hash digest (some hash) == pwf) ≡ false
      → HasMoved user_id pwf s.db
      → HasMoved user_id pwf (password_written reset_hash digest s (set_password s.db id hash)).0.db
  written-HasMoved s id user_id pwf hash fresh before = go (set_password s.db id hash) refl
    where
      go :
          (r : Result (Person × Db))
          → set_password s.db id hash ≡ r
          → HasMoved user_id pwf (password_written reset_hash digest s r).0.db
      go (ok (p, db')) e =
          Changed-HasMoved s.db db' id user_id pwf hash p fresh (inr before)
            (set_password-Changed s.db db' id hash p e)
      go (raise x) e = before

  step-HasMoved :
      (s : Accounts) (e : Step) (user_id pwf : Text)
      → KeepsMoved user_id pwf e
      → HasMoved user_id pwf s.db
      → HasMoved user_id pwf (step s e).db
  unfolding step confirm_finish
  step-HasMoved s (mailed p now token) user_id pwf k h =
      subst (HasMoved user_id pwf) (sym (issued-db s p now token).same) h
  step-HasMoved s (used id c hash) user_id pwf k h =
      if-branches (λ (out : Accounts × ResetAnswer). HasMoved user_id pwf out.0.db)
        (still_applies reset_hash digest (get_by_id s.db id) c)
        (λ applies. written-HasMoved s id user_id pwf hash k h) (λ stale. h)
  step-HasMoved s (changed db) user_id pwf k h = k

  run-HasMoved :
      (es : List Step) (s : Accounts) (user_id pwf : Text)
      → All (KeepsMoved user_id pwf) es
      → HasMoved user_id pwf s.db
      → HasMoved user_id pwf (run s es).db
  unfolding run
  run-HasMoved [] s user_id pwf k h = h
  run-HasMoved (e ∷ es) s user_id pwf k h =
      run-HasMoved es (step s e) user_id pwf k.1 (step-HasMoved s e user_id pwf k.0 h)

  -- After a use that went through.
  done-HasMoved :
      (s : Accounts) (user_id : Text) (c : ResetClaims) (hash : Text)
      → (pw_fingerprint reset_hash digest (some hash) == c.pwf) ≡ false
      → (confirm_finish reset_hash digest s user_id c hash).1 ≡ reset_done
      → HasMoved user_id c.pwf (confirm_finish reset_hash digest s user_id c hash).0.db
  unfolding confirm_finish
  done-HasMoved s user_id c hash fresh =
      if-branches
        (λ (out : Accounts × ResetAnswer). out.1 ≡ reset_done → HasMoved user_id c.pwf out.0.db)
        (still_applies reset_hash digest (get_by_id s.db user_id) c)
        (λ applies. go (set_password s.db user_id hash) refl) (λ stale done. absurd (cc))
    where
      go :
          (r : Result (Person × Db))
          → set_password s.db user_id hash ≡ r
          → (password_written reset_hash digest s r).1 ≡ reset_done
          → HasMoved user_id c.pwf (password_written reset_hash digest s r).0.db
      go (ok (p, db')) e done =
          Changed-HasMoved s.db db' user_id user_id c.pwf hash p fresh (inl refl)
            (set_password-Changed s.db db' user_id hash p e)
      go (raise x) e done = absurd (cc)

  moved_refused :
      (s : Accounts) (user_id : Text) (c : ResetClaims) (hash : Text) (o : Option Person)
      → get_by_id s.db user_id ≡ o
      → HasMoved user_id c.pwf s.db
      → still_applies reset_hash digest o c ≡ false
  unfolding still_applies
  moved_refused s user_id c hash none e h = refl
  moved_refused s user_id c hash (some p) e h = rw (h p e) (ground arith)

  -- A reset link works once: after a use of it went through, another use, whatever it had
  -- checked before its derivation, is answered 400 and changes nothing, whatever other requests
  -- run in between, links that are mailed or used included, as long as none of them gives the
  -- account a password with the old fingerprint again, and neither did the first use.
  pub confirm_finish_once :
      (s : Accounts) (user_id : Text) (c : ResetClaims) (hash other : Text) (es : List Step)
      → (pw_fingerprint reset_hash digest (some hash) == c.pwf) ≡ false
      → (confirm_finish reset_hash digest s user_id c hash).1 ≡ reset_done
      → All (KeepsMoved user_id c.pwf) es
      → let s' = run (confirm_finish reset_hash digest s user_id c hash).0 es in
        confirm_finish reset_hash digest s' user_id c other ≡ (s', http_error 400)
  unfolding confirm_finish
  confirm_finish_once s user_id c hash other es fresh done k =
      let s' = run (confirm_finish reset_hash digest s user_id c hash).0 es in
      let moved = run-HasMoved es _ user_id c.pwf k (done-HasMoved s user_id c hash fresh done) in
      rw (moved_refused s' user_id c hash (get_by_id s'.db user_id) refl moved, confirm_finish) refl
