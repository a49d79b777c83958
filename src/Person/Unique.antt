-- ===== src/Person/Unique.antt =====
-- The UNIQUE constraints: ids, addresses, usernames and identities name one row each, and every
-- write keeps it so.
use agience_origin.Base.{
  ◌≡◌, sym, ap, ◌∙◌, subst, ◌⊎◌, inl, inr, true, false, ◌||◌, Option, none, some, List, [], ◌∷◌,
  ◌++◌, Text, ◌==◌, text_eq, eq_iff, arith, any, nocase_sym, update_where, In, In-append, In-update,
  In-delete, any-In, Bool-cases,
}
use agience_origin.Person.Store.{
  Person, PersonIdentity, Db, empty, ok, clash, has_id, collides, create, save, add, remove,
  is_identity, is_held,
}

pub record IsUnique (db : Db) : Type 0 where
  pub ids : (p q : Person) → In p db.persons → In q db.persons → p.id ≡ q.id → p ≡ q
  pub emails :
      (p q : Person)
      → In p db.persons
      → In q db.persons
      → clash p.email q.email ≡ true
      → p.id ≡ q.id
  pub usernames :
      (p q : Person)
      → In p db.persons
      → In q db.persons
      → clash p.username q.username ≡ true
      → p.id ≡ q.id
  pub identities :
      (r s : PersonIdentity)
      → In r db.identities
      → In s db.identities
      → is_identity s.method s.provider s.subject r ≡ true
      → r ≡ s

pub empty-IsUnique : IsUnique empty
empty-IsUnique = record {
  ids = λ p q m k e. absurd m;
  emails = λ p q m k e. absurd m;
  usernames = λ p q m k e. absurd m;
  identities = λ r s m k e. absurd m;
}

clash_sym : (a b : Option Text) → clash a b ≡ true → clash b a ≡ true
clash_sym none b h = absurd (cc)
clash_sym (some a) none h = absurd (cc)
clash_sym (some a) (some b) h = nocase_sym a b h

-- A new row against a row that it does not collide with.
module _ (p q : Person) (apart : collides p q ≡ false) where
  apart_email : clash q.email p.email ≡ true → q.id ≡ p.id
  apart_email h = ground (arith, eq_iff q.id p.id)

  apart_email' : clash p.email q.email ≡ true → p.id ≡ q.id
  apart_email' h = sym (apart_email (clash_sym p.email q.email h))

  apart_username : clash q.username p.username ≡ true → q.id ≡ p.id
  apart_username h = ground (arith, eq_iff q.id p.id)

  apart_username' : clash p.username q.username ≡ true → p.id ≡ q.id
  apart_username' h = sym (apart_username (clash_sym p.username q.username h))

-- Rows of which each is old, or is the new row `p`, and no old one stands in the way of `p`.
module _ (db : Db) (u : IsUnique db) (p : Person) (rows : List Person)
    (old : (q : Person) → In q rows → (p ≡ q) ⊎ (In q db.persons × (q.id ≡ p.id → ⊥)))
    (apart : (q : Person) → In q db.persons → collides p q ≡ false) where
  write-ids : (q r : Person) → In q rows → In r rows → q.id ≡ r.id → q ≡ r
  write-ids q r m k e = elim (old q m) [
    | inl a ↦ elim (old r k) [
      | inl b ↦ sym a ∙ b
      | inr (b, ne) ↦ absurd (ne (sym e ∙ sym (ap (λ (x : Person). x.id) a)))
    ]
    | inr (a, ne) ↦ elim (old r k) [
      | inl b ↦ absurd (ne (e ∙ sym (ap (λ (x : Person). x.id) b)))
      | inr (b, _) ↦ u.ids q r a b e
    ]
  ]

  write-emails : (q r : Person) → In q rows → In r rows → clash q.email r.email ≡ true → q.id ≡ r.id
  write-emails q r m k e = elim (old q m) [
    | inl a ↦ elim (old r k) [
      | inl b ↦ ap (λ (x : Person). x.id) (sym a ∙ b)
      | inr (b, ne) ↦
          subst (λ x. clash x.email r.email ≡ true → x.id ≡ r.id) a (apart_email' p r (apart r b)) e
    ]
    | inr (a, ne) ↦ elim (old r k) [
      | inl b ↦
          subst (λ x. clash q.email x.email ≡ true → q.id ≡ x.id) b (apart_email p q (apart q a)) e
      | inr (b, _) ↦ u.emails q r a b e
    ]
  ]

  write-usernames :
      (q r : Person) → In q rows → In r rows → clash q.username r.username ≡ true → q.id ≡ r.id
  write-usernames q r m k e = elim (old q m) [
    | inl a ↦ elim (old r k) [
      | inl b ↦ ap (λ (x : Person). x.id) (sym a ∙ b)
      | inr (b, ne) ↦
          subst (λ x. clash x.username r.username ≡ true → x.id ≡ r.id) a
            (apart_username' p r (apart r b)) e
    ]
    | inr (a, ne) ↦ elim (old r k) [
      | inl b ↦
          subst (λ x. clash q.username x.username ≡ true → q.id ≡ x.id) b
            (apart_username p q (apart q a)) e
      | inr (b, _) ↦ u.usernames q r a b e
    ]
  ]

  write-IsUnique : IsUnique (record db { persons = rows })
  write-IsUnique = record {
    ids = write-ids;
    emails = write-emails;
    usernames = write-usernames;
    identities = u.identities;
  }

-- What a successful write says of the rows that were there.
pub create_free :
    (db db' : Db) (p : Person)
    → create db p ≡ ok db'
    → (any (λ q. q.id == p.id || collides p q) db.persons ≡ false)
      × (db' ≡ record db { persons = db.persons ++ p ∷ [] })
unfolding create
create_free db db' p h = elim (Bool-cases (any (λ q. q.id == p.id || collides p q) db.persons)) [
  | inl e ↦ absurd (ground arith)
  | inr e ↦ (e, ground arith)
]

pub create-IsUnique : (db db' : Db) (p : Person) → IsUnique db → create db p ≡ ok db' → IsUnique db'
create-IsUnique db db' p u h =
    let (free, e) = create_free db db' p h in
    let taken = λ (q : Person). q.id == p.id || collides p q in
    let clear = λ (q : Person) (m : In q db.persons). any-In taken q db.persons m free in
    subst IsUnique (sym e) (
      write-IsUnique db u p (db.persons ++ p ∷ [])
        (λ q m. elim (In-append q db.persons (p ∷ []) m) [
          | inl k ↦ inr (k, λ same. ground (arith, clear q k, eq_iff q.id p.id))
          | inr k ↦ elim k [ inl same ↦ inl same | inr none_left ↦ absurd none_left ]
        ])
        (λ q m. ground (arith, clear q m)))

pub save_free :
    (db db' : Db) (p : Person)
    → save db p ≡ ok db'
    → (any (collides p) db.persons ≡ false)
      × (db' ≡ record db { persons = update_where (has_id p.id) (λ _. p) db.persons })
unfolding save
save_free db db' p h = elim (Bool-cases (any (collides p) db.persons)) [
  | inl e ↦ absurd (ground arith)
  | inr e ↦ (e, ground arith)
]

pub save-IsUnique : (db db' : Db) (p : Person) → IsUnique db → save db p ≡ ok db' → IsUnique db'
save-IsUnique db db' p u h =
    let (free, e) = save_free db db' p h in
    subst IsUnique (sym e) (
      write-IsUnique db u p (update_where (has_id p.id) (λ _. p) db.persons)
        (λ q m. elim (In-update (has_id p.id) (λ _. p) q db.persons m) [
          | inl (x, k, hit, same) ↦ inl same
          | inr (k, miss) ↦ inr (k, λ same. ground (arith, eq_iff q.id p.id))
        ])
        (λ q m. any-In (collides p) q db.persons m free))

is_identity_sym :
    (r s : PersonIdentity)
    → is_identity s.method s.provider s.subject r ≡ true
    → is_identity r.method r.provider r.subject s ≡ true
is_identity_sym r s h = ground (
  arith,
  eq_iff r.method s.method,
  eq_iff s.method r.method,
  eq_iff r.provider s.provider,
  eq_iff s.provider r.provider,
  eq_iff r.subject s.subject,
  eq_iff s.subject r.subject,
)

pub add_free :
    (db db' : Db) (r : PersonIdentity)
    → add db r ≡ ok db'
    → (any (is_identity r.method r.provider r.subject) db.identities ≡ false)
      × (db' ≡ record db { identities = db.identities ++ r ∷ [] })
unfolding add
add_free db db' r h =
    elim (Bool-cases (any (is_identity r.method r.provider r.subject) db.identities)) [
      | inl e ↦ absurd (ground arith)
      | inr e ↦ (e, ground arith)
    ]

pub add-IsUnique :
    (db db' : Db) (r : PersonIdentity) → IsUnique db → add db r ≡ ok db' → IsUnique db'
add-IsUnique db db' r u h =
    let (free, e) = add_free db db' r h in
    let hit = is_identity r.method r.provider r.subject in
    let clear =
      λ (q : PersonIdentity) (m : In q db.identities). any-In hit q db.identities m free in
    subst IsUnique (sym e) (record {
      ids = u.ids;
      emails = u.emails;
      usernames = u.usernames;
      identities = λ s t m k same. elim (In-append s db.identities (r ∷ []) m) [
        | inl a ↦ elim (In-append t db.identities (r ∷ []) k) [
          | inl b ↦ u.identities s t a b same
          | inr b ↦ elim b [
            | inl x ↦ absurd (
                ground (
                  arith,
                  subst (λ y. is_identity y.method y.provider y.subject s ≡ true) (sym x) same,
                  clear s a,
                ))
            | inr nothing ↦ absurd nothing
          ]
        ]
        | inr a ↦ elim a [
          | inl x ↦ elim (In-append t db.identities (r ∷ []) k) [
            | inl b ↦ absurd (
                ground (
                  arith,
                  subst (λ y. is_identity y.method y.provider y.subject t ≡ true) (sym x)
                      (is_identity_sym s t same),
                  clear t b,
                ))
            | inr b ↦ elim b [ inl y ↦ sym x ∙ y | inr nothing ↦ absurd nothing ]
          ]
          | inr nothing ↦ absurd nothing
        ]
      ];
    })

pub remove-IsUnique :
    (db : Db) (person_id method provider subject : Text)
    → IsUnique db
    → IsUnique (remove db person_id method provider subject).0
unfolding remove
remove-IsUnique db person_id method provider subject u =
    let gone = is_held person_id method provider subject in
    record {
      ids = u.ids;
      emails = u.emails;
      usernames = u.usernames;
      identities = λ r s m k same.
          u.identities r s (In-delete gone r db.identities m).0 (In-delete gone s db.identities k).0
            same;
    }
