-- ===== src/Person/Registration.antt =====
-- What a registration with a password is answered.
use agience_origin.Base.{
  ◌≡◌, ◌≢◌, refl, sym, ap, ◌∙◌, ◌⊎◌, inl, inr, Bool, true, false, not, ◌&&◌, ◌||◌, Option, none,
  some, [], ◌∷◌, ◌++◌, Text, ◌==◌, text_eq, arith, if◌then◌else◌, any, any-first, any-In, any_none,
  first, first-In, In, normalize, strip, strip_idem, strip-normalize, if-branches, Bool-cases,
}
use agience_origin.Person.Store.{
  Person, Db, value_error, permission_error, Result, ok, raise, ◌>>=◌, clash, holds, has_id,
  collides, create, get_by_email, get_by_username,
}
use agience_origin.Person.Service.{
  is_empty, or_else, text_or_none, default_name, new_person, unless_taken,
  create_user_with_password,
}

is_empty-true : (s : Text) → is_empty s ≡ true → s ≡ []
is_empty-true [] h = refl
is_empty-true (c ∷ s) h = absurd (cc)

is_empty-false : (s : Text) → is_empty s ≡ false → s ≢ []
is_empty-false [] h e = absurd (cc)
is_empty-false (c ∷ s) h e = absurd (cc)

false_of_not : (b : Bool) → ¬ (b ≡ true) → b ≡ false
false_of_not true h = absurd (h refl)
false_of_not false h = refl

-- A new value clashes with a row's exactly if the row holds it.
clash-holds : (o : Option Text) (v : Text) → clash o (some v) ≡ holds v o
clash-holds none v = refl
clash-holds (some held) v = refl

clash-text_or_none :
    (o : Option Text) (v : Text) → (v ≢ [] → holds v o ≡ false) → clash o (text_or_none v) ≡ false
clash-text_or_none none [] h = refl
clash-text_or_none (some held) [] h = refl
clash-text_or_none o (c ∷ v) h = clash-holds o (c ∷ v) ∙ h (λ e. absurd (cc))

module _ (is_person_allowed : Option Text → Text → Bool) (db : Db)
    (new_id username name password_hash email : Text) (email_verified : Bool) where
  abbrev user : Text
  user = strip username

  abbrev address : Text
  address = normalize email

  abbrev pub registered_person : Person
  registered_person = record (new_person new_id) {
    username = some user;
    email = text_or_none address;
    name = or_else (strip (or_else name user)) default_name;
    password_hash = some password_hash;
    email_verified = email_verified;
  }

  -- Somebody has the username, or the address, in any case.
  abbrev pub Has : Person → Type 0
  Has q = (holds user q.username ≡ true) ⊎ ((address ≢ []) × (holds address q.email ≡ true))

  -- The answers, each with its reason.
  pub data Answered (r : Result (Person × Db)) : Type 0 where
    registered :
        user ≢ []
        → (address ≡ []) ⊎ (is_person_allowed none address ≡ true)
        → ((q : Person) → In q db.persons → ¬ Has q)
        → r ≡ ok (registered_person, record db { persons = db.persons ++ registered_person ∷ [] })
        → Answered r
    taken : (q : Person) → In q db.persons → Has q → r ≡ raise value_error → Answered r
    nameless : user ≡ [] → r ≡ raise value_error → Answered r
    barred :
        address ≢ []
        → is_person_allowed none address ≡ false
        → r ≡ raise permission_error
        → Answered r

  create_free-registered :
      any (has_id new_id) db.persons ≡ false
      → ((q : Person) → In q db.persons → ¬ Has q)
      → create db registered_person
        ≡ ok (record db { persons = db.persons ++ registered_person ∷ [] })
  unfolding create
  create_free-registered fresh free =
      let taken = λ (q : Person). q.id == new_id || collides registered_person q in
      let none_taken : any taken db.persons ≡ false = any_none taken db.persons (λ q m.
        let other = any-In (has_id new_id) q db.persons m fresh in
        let name_free : clash q.username (some user) ≡ false =
          clash-holds q.username user
          ∙ false_of_not (holds user q.username) (λ h. free q m (inl h)) in
        let email_free : clash q.email (text_or_none address) ≡ false =
          clash-text_or_none q.email address
            (λ filled. false_of_not (holds address q.email) (λ h. free q m (inr (filled, h)))) in
        ground arith) in
      rw none_taken refl

  abbrev created : Result (Person × Db)
  created = create db registered_person >>= λ db'. ok (registered_person, db')

  module _ (fresh : any (has_id new_id) db.persons ≡ false) (named : user ≢ [])
      (allowed : (address ≡ []) ⊎ (is_person_allowed none address ≡ true)) where
    created-Answered : ((q : Person) → In q db.persons → ¬ Has q) → Answered created
    created-Answered free =
        rw (create_free-registered fresh free) (registered named allowed free refl)

    -- Nobody has the username.
    module _ (no_name : any (λ q. holds (strip user) q.username) db.persons ≡ false) where
      name_free : (q : Person) → In q db.persons → holds user q.username ≡ false
      name_free q m =
          ap (λ v. holds v q.username) (sym (strip_idem username))
          ∙ any-In (λ q. holds (strip user) q.username) q db.persons m no_name

      by_email :
          (o : Option Person)
          → address ≢ []
          → first (λ q. holds (strip address) q.email) db.persons ≡ o
          → Answered (unless_taken o created)
      by_email none filled e = created-Answered (λ q m has. elim has [
        | inl h ↦ absurd (ground (arith, name_free q m))
        | inr (f, h) ↦
            let miss =
              any-In (λ q. holds (strip address) q.email) q db.persons m
                (any-first _ db.persons e) in
            let here = ap (λ v. holds v q.email) (strip-normalize email) in absurd (ground arith)
      ])
      by_email (some q) filled e =
          let (m, h) = first-In (λ q. holds (strip address) q.email) q db.persons e in
          taken q m (inr (filled, ap (λ v. holds v q.email) (sym (strip-normalize email)) ∙ h)) refl

      no_email : address ≡ [] → Answered created
      no_email bare = created-Answered (λ q m has. elim has [
        | inl h ↦ absurd (ground (arith, name_free q m))
        | inr (f, h) ↦ absurd (f bare)
      ])

      with_email :
          Answered
            (unless_taken (if is_empty address then none else get_by_email db address) created)
      unfolding get_by_email
      with_email =
          if-branches (λ (o : Option Person). Answered (unless_taken o created)) (is_empty address)
            (λ e. no_email (is_empty-true address e))
            (λ e. by_email (get_by_email db address) (is_empty-false address e) refl)

    by_name :
        (o : Option Person)
        → first (λ q. holds (strip user) q.username) db.persons ≡ o
        → Answered (
            unless_taken o
              (unless_taken (if is_empty address then none else get_by_email db address) created))
    by_name none e = with_email (any-first _ db.persons e)
    by_name (some q) e =
        let (m, h) = first-In (λ q. holds (strip user) q.username) q db.persons e in
        taken q m (inl (ap (λ v. holds v q.username) (sym (strip_idem username)) ∙ h)) refl

  -- What a registration with a password is answered, whatever the table, for an id that is not
  -- in it: the new account, appended to the table as it was, if the username is not empty, the
  -- address is empty or allowed, and nobody has either, in any case; or ValueError, because
  -- somebody has the username or the address or the username is empty; or PermissionError,
  -- because the address is not allowed. It never ends in the error of a UNIQUE column.
  pub create_user_with_password-Answered :
      any (has_id new_id) db.persons ≡ false
      → Answered (
          create_user_with_password is_person_allowed db new_id username name password_hash email
            email_verified)
  unfolding create_user_with_password get_by_username
  create_user_with_password-Answered fresh =
      if-branches Answered (is_empty user) (λ e. nameless (is_empty-true user e) refl)
        (λ named.
          if-branches Answered (not (is_empty address) && not (is_person_allowed none address))
            (λ e. barred (is_empty-false address (ground arith)) (ground arith) refl)
            (λ allowed.
              by_name fresh (is_empty-false user named) (admitted allowed) (get_by_username db user)
                refl))
    where
      admitted :
          (not (is_empty address) && not (is_person_allowed none address)) ≡ false
          → (address ≡ []) ⊎ (is_person_allowed none address ≡ true)
      admitted h = elim (Bool-cases (is_empty address)) [
        | inl e ↦ inl (is_empty-true address e)
        | inr e ↦ inr (ground arith)
      ]
