-- ===== src/Reset/Examples.antt =====
-- The theorems on resets at concrete data: digests that mark a text in front.
use agience_origin.Base.{
  ◌≡◌, refl, true, none, some, List, [], ◌∷◌, Text, codes, text_eq, text_beq, arith, inl, inr, In,
  sym, ◌∙◌, ap,
}
use agience_origin.Person.Store.{Person, get_by_id, save}
use agience_origin.Person.Service.{set_password}
use agience_origin.Person.Unique.{IsUnique}
use agience_origin.Reset.Links.{
  Accounts, ResetClaims, http_error, account_name, reset_done, may_reset, still_applies,
  issue_reset_token, reset_claims, reset_check, confirm_begin, confirm_finish,
  password_reset_confirm, new_reset,
}
use agience_origin.Reset.Once.{Step, run, mailed, used, confirm_finish_once}
use agience_origin.Reset.Proof.{Rightful, password_reset_confirm-Rightful}
use agience_origin.Reset.Mailed.{issue_reset_token-confirm}

abbrev token_digest : Text → Text
token_digest s = 116 ∷ s

abbrev password_digest : Text → Text
password_digest s = 112 ∷ s

abbrev ann : Person
ann = record {
  id = codes "p1";
  email = some (codes "ann@example.com");
  username = some (codes "ann");
  name = codes "Ann";
  picture = none;
  password_hash = some (codes "old");
  email_verified = true;
  preferences = [];
  deactivated_at = none;
  deactivated_reason = none;
}

abbrev accounts : Accounts
accounts = record { db = record { persons = ann ∷ []; identities = [] }; resets = [] }

abbrev with_link : Accounts
with_link = record accounts {
  resets = new_reset token_digest password_digest ann 1000 (codes "abc") ∷ [];
}

only_ann : (p q : Person) → In p accounts.db.persons → In q accounts.db.persons → p ≡ q
only_ann p q (inl a) (inl b) = sym a ∙ b
only_ann p q (inl a) (inr b) = absurd b
only_ann p q (inr a) k = absurd a

accounts-IsUnique : IsUnique accounts.db
accounts-IsUnique = record {
  ids = λ p q m k e. only_ann p q m k;
  emails = λ p q m k e. ap (λ (x : Person). x.id) (only_ann p q m k);
  usernames = λ p q m k e. ap (λ (x : Person). x.id) (only_ann p q m k);
  identities = λ r s m k e. absurd m;
}

issue_reset_token-confirm_example :
    (reset_check token_digest password_digest with_link (codes "abc") 2000
      ≡ account_name (codes "ann@example.com"))
    × ((password_reset_confirm token_digest password_digest with_link true
          (codes "abc")
          (codes "correct horse battery")
          12
          2000
          (codes "new")).1
        ≡ reset_done)
unfolding get_by_id may_reset issue_reset_token text_beq
issue_reset_token-confirm_example =
    issue_reset_token-confirm token_digest password_digest accounts with_link ann 1000 2000
      (codes "abc") (codes "correct horse battery") (codes "new") 12 accounts-IsUnique refl refl
      (omega arith) (omega arith) refl (omega arith) (omega arith)

ann_resets :
    (password_reset_confirm token_digest password_digest with_link true
      (codes "abc")
      (codes "correct horse battery")
      12
      2000
      (codes "new")).1
    ≡ reset_done
unfolding password_reset_confirm confirm_begin reset_claims confirm_finish still_applies may_reset
    get_by_id set_password save text_beq
ann_resets = refl

password_reset_confirm-Rightful_example :
    Rightful token_digest password_digest with_link
      (password_reset_confirm token_digest password_digest with_link true
        (codes "abc")
        (codes "correct horse battery")
        12
        2000
        (codes "new")).0
      true
      (codes "abc")
      (codes "correct horse battery")
      12
      2000
      (codes "new")
password_reset_confirm-Rightful_example =
    password_reset_confirm-Rightful token_digest password_digest with_link true (codes "abc")
      (codes "correct horse battery") 12 2000 (codes "new") ann_resets

abbrev ann_claims : ResetClaims
ann_claims = record { sub = codes "p1"; pwf = password_digest (codes "old") }

-- Between two uses of one link another is mailed and used.
abbrev between : List Step
between =
    mailed (record ann { password_hash = some (codes "new") }) 3000 (codes "def")
    ∷ used (codes "p1") (record { sub = codes "p1"; pwf = password_digest (codes "new") })
        (codes "newer")
    ∷ []

confirm_finish_once_example :
    let s' =
      run token_digest password_digest
        (confirm_finish token_digest password_digest with_link
          (codes "p1")
          ann_claims
          (codes "new")).0
        between in
    confirm_finish token_digest password_digest s' (codes "p1") ann_claims (codes "other")
    ≡ (s', http_error 400)
unfolding confirm_finish still_applies may_reset get_by_id set_password save text_beq
confirm_finish_once_example =
    confirm_finish_once token_digest password_digest with_link (codes "p1") ann_claims (codes "new")
      (codes "other") between refl refl (tt, (refl, tt))
