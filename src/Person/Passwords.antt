-- ===== src/Person/Passwords.antt =====
-- What set_password leaves in the table.
use agience_origin.Base.{
  ◌≡◌, refl, sym, subst, ap, ◌∙◌, false, Option, none, some, Text, ◌==◌, text_eq, eq_iff, eq_refl,
  arith, any, first, update_where, first-update, first-update_other, first-In, In, any_none,
}
use agience_origin.Person.Store.{
  Person, Db, Result, ok, raise, has_id, get_by_id, save, ◌>>=◌, collides,
}
use agience_origin.Person.Service.{change, set_password}
use agience_origin.Person.Unique.{IsUnique, save_free}

abbrev pub with_hash : Text → Person → Person
with_hash hash p = record p { password_hash = some hash }

-- What a finished change of the password means.
pub record Changed (db : Db) (id hash : Text) (p : Person) (db' : Db) : Type 0 where
  pub same_id : p.id ≡ id
  pub written : p.password_hash ≡ some hash
  pub found : get_by_id db' id ≡ some p
  pub others : (other : Text) → (id == other) ≡ false → get_by_id db' other ≡ get_by_id db other

pub get_by_id-id : (db : Db) (id : Text) (p : Person) → get_by_id db id ≡ some p → p.id ≡ id
unfolding get_by_id
get_by_id-id db id p h = (eq_iff p.id id).0 (first-In (has_id id) p db.persons h).1

save-Changed :
    (db db' : Db) (id hash : Text) (q : Person)
    → get_by_id db id ≡ some q
    → save db (with_hash hash q) ≡ ok db'
    → Changed db id hash (with_hash hash q) db'
unfolding get_by_id
save-Changed db db' id hash q h e =
    let p = with_hash hash q in
    let same : q.id ≡ id = get_by_id-id db id q h in
    let rows : db' ≡ record db { persons = update_where (has_id p.id) (λ _. p) db.persons } =
      (save_free db db' p e).1 in
    let mine : first (has_id id) (update_where (has_id q.id) (λ _. p) db.persons) ≡ some p =
      first-update (has_id id) (has_id q.id) (λ _. p) q db.persons
        (λ r hit. ap (λ x. x == id) (sym ((eq_iff r.id q.id).0 hit))) h
      ∙ rw (eq_refl q.id) refl in
    record {
      same_id = same;
      written = refl;
      found = ap (λ d. get_by_id d id) rows ∙ mine;
      others = λ other apart.
          ap (λ d. get_by_id d other) rows
          ∙ first-update_other (has_id other) (has_id q.id) (λ _. p) db.persons
              (λ r hit.
                let row : r.id ≡ id = (eq_iff r.id q.id).0 hit ∙ same in
                (
                  subst (λ x. (x == other) ≡ false) (sym row) apart,
                  subst (λ x. (x == other) ≡ false) (sym same) apart,
                ));
    }

change-Changed :
    (db db' : Db) (id hash : Text) (p : Person) (o : Option Person)
    → get_by_id db id ≡ o
    → change db o (λ q. ok (with_hash hash q)) ≡ ok (p, db')
    → Changed db id hash p db'
change-Changed db db' id hash p none h e = absurd (cc)
change-Changed db db' id hash p (some q) h e = go (save db (with_hash hash q)) refl e
  where
    go :
        (r : Result Db)
        → save db (with_hash hash q) ≡ r
        → ◌>>=◌ {B = Person × Db} r (λ d. ok (with_hash hash q, d)) ≡ ok (p, db')
        → Changed db id hash p db'
    go (ok d) s k =
        let who : with_hash hash q ≡ p = cc in
        let where_to : d ≡ db' = cc in
        subst (λ x. Changed db id hash x db') who
          (save-Changed db db' id hash q h (s ∙ ap ok where_to))
    go (raise x) s k = absurd (cc)

pub set_password-Changed :
    (db db' : Db) (id hash : Text) (p : Person)
    → set_password db id hash ≡ ok (p, db')
    → Changed db id hash p db'
unfolding set_password
set_password-Changed db db' id hash p e = change-Changed db db' id hash p (get_by_id db id) refl e

collides_none :
    (db : Db) (p : Person) (hash : Text) (u : IsUnique db)
    → In p db.persons
    → any (collides (with_hash hash p)) db.persons ≡ false
collides_none db p hash u m =
    any_none (collides (with_hash hash p)) db.persons
      (λ q k. ground (arith, eq_iff q.id p.id, u.emails q p k m, u.usernames q p k m))

-- On a sound table a change of the password goes through.
pub set_password_ok :
    (db : Db) (id hash : Text) (p : Person)
    → IsUnique db
    → get_by_id db id ≡ some p
    → (db' : Db) × (set_password db id hash ≡ ok (with_hash hash p, db'))
unfolding set_password save get_by_id
set_password_ok db id hash p u e =
    let (m, k) = first-In (has_id id) p db.persons e in
    (
      record db { persons = update_where (has_id p.id) (λ _. with_hash hash p) db.persons },
      rw (e, collides_none db p hash u m) refl,
    )
