-- ===== src/Person/Linking.antt =====
-- Who a completed sign-in belongs to, and that no identity changes hands by it.
use agience_origin.Base.{
  ℕ, ◌≡◌, refl, sym, ap, ◌∙◌, subst, ◌⊎◌, inl, inr, Bool, true, false, not, ◌||◌, Option, none,
  some, List, [], ◌∷◌, ◌++◌, Text, codes, ◌==◌, text_eq, arith, if◌then◌else◌, normalize, strip,
  first, any, first-none, first-append,
}
use agience_origin.Person.Store.{
  Person, PersonIdentity, Db, ok, permission_error, link_refused, create, save, add, collides,
  has_id, is_identity, get_by_id, get_by_email, get_by_identity,
}
use agience_origin.Person.Service.{
  is_empty, oidc, or_else, default_name, refreshed, is_dirty, refresh, filled, link_claimed,
  create_with_identity, claimed_or_new, resolve, verified_identity, get_user_by_oidc_identity,
  get_or_create_user_by_oidc_identity,
}
use agience_origin.Person.Unique.{create_free, save_free, add_free}
use agience_origin.Person.Results.{
  Returns, ok-Returns, raise-Returns, if-Returns, bind-Returns, Returns-of_eq, Returns_ok,
}

-- Every identity that one database knows, the other knows as the same row.
abbrev pub Extends : Db → Db → Type 0
Extends db db' =
    (method provider subject : Text) (r : PersonIdentity)
    → get_by_identity db method provider subject ≡ some r
    → get_by_identity db' method provider subject ≡ some r

-- Why a sign-in may be that of a person.
pub data Reason (db : Db) (new_id provider subject address : Text) (email_verified : Bool)
    (p : Person) : Type 0 where
  -- the identity names the person
  known :
      (q : Person)
      → get_user_by_oidc_identity db provider subject ≡ some q
      → p.id ≡ q.id
      → Reason db new_id provider subject address email_verified p
  -- the person holds the address, and both sides have proved it
  both_proved :
      (q : Person)
      → get_by_email db address ≡ some q
      → email_verified ≡ true
      → q.email_verified ≡ true
      → p.id ≡ q.id
      → Reason db new_id provider subject address email_verified p
  -- the account is new, and nobody holds the address
  newcomer :
      p.id ≡ new_id
      → get_by_id db new_id ≡ none
      → (is_empty address ≡ true) ⊎ (get_by_email db address ≡ none)
      → Reason db new_id provider subject address email_verified p

Extends-same : (db db' : Db) → db'.identities ≡ db.identities → Extends db db'
unfolding get_by_identity
Extends-same db db' e m p s r h = subst (λ rows. first (is_identity m p s) rows ≡ some r) (sym e) h

Extends-added :
    (db db' : Db) (rows : List PersonIdentity)
    → db'.identities ≡ db.identities ++ rows
    → Extends db db'
unfolding get_by_identity
Extends-added db db' rows e m p s r h =
    subst (λ all. first (is_identity m p s) all ≡ some r) (sym e)
      (first-append (is_identity m p s) r db.identities rows h)

Grown : Db → List PersonIdentity → Db → Type 0
Grown db rows db' = db'.identities ≡ db.identities ++ rows

save-Returns : (db : Db) (p : Person) → Returns (λ db'. db'.identities ≡ db.identities) (save db p)
save-Returns db p =
    Returns-of_eq _ (save db p) (λ db' e. ap (λ (x : Db). x.identities) (save_free db db' p e).1)

add-Returns :
    (db : Db) (r : PersonIdentity)
    → Returns (λ db'. db'.identities ≡ db.identities ++ r ∷ []) (add db r)
add-Returns db r =
    Returns-of_eq _ (add db r) (λ db' e. ap (λ (x : Db). x.identities) (add_free db db' r e).1)

free_id :
    (p : Person) (ps : List Person)
    → any (λ q. q.id == p.id || collides p q) ps ≡ false
    → any (has_id p.id) ps ≡ false
free_id p [] h = refl
free_id p (q ∷ ps) h = ground (arith, free_id p ps)

create-Returns :
    (db : Db) (p : Person)
    → Returns (λ db'. (db'.identities ≡ db.identities) × (get_by_id db p.id ≡ none)) (create db p)
unfolding get_by_id
create-Returns db p = Returns-of_eq _ (create db p) (λ db' e.
    let (free, same) = create_free db db' p e in
    (
      ap (λ (x : Db). x.identities) same,
      first-none (has_id p.id) db.persons (free_id p db.persons free),
    ))

module _ (db : Db) (new_id provider subject email name : Text) (picture : Option Text)
    (verified : Bool) (now : ℕ) where
  abbrev Outcome : Person × Db → Type 0
  Outcome (p, db') = Reason db new_id provider subject email verified p × Extends db db'

  refresh-Outcome :
      (q : Person)
      → get_user_by_oidc_identity db provider subject ≡ some q
      → Returns Outcome (refresh db q email name picture verified)
  refresh-Outcome q h =
      if-Returns Outcome (is_dirty q email name picture)
        (λ _.
          bind-Returns _ Outcome (save db (refreshed q email name picture verified)) _
            (save-Returns db _)
            (λ db' e. ok-Returns Outcome _ (known q h refl, Extends-same db db' e)))
        (λ _. ok-Returns Outcome (q, db) (known q h refl, Extends-same db db refl))

  link_claimed-Outcome :
      (q : Person)
      → get_by_email db email ≡ some q
      → Returns Outcome (link_claimed db q provider subject name picture verified now)
  unfolding link_claimed
  link_claimed-Outcome q h =
      if-Returns Outcome (not verified) (λ _. raise-Returns Outcome link_refused)
        (λ proved.
          if-Returns Outcome (not q.email_verified) (λ _. raise-Returns Outcome link_refused)
            (λ held.
              bind-Returns _ Outcome
                (add db (verified_identity q.id oidc provider subject now none)) _
                (add-Returns db _)
                (λ linked e.
                  bind-Returns _ Outcome (save linked (filled q name picture)) _
                    (save-Returns linked _)
                    (λ db' e'. ok-Returns Outcome _ (
                      both_proved q h (ground arith) (ground arith) refl,
                      Extends-added db db' _ (e' ∙ e),
                    )))))

  create_with_identity-Outcome :
      (is_empty email ≡ true) ⊎ (get_by_email db email ≡ none)
      → Returns Outcome
          (create_with_identity db new_id provider subject email name picture verified now)
  unfolding create_with_identity
  create_with_identity-Outcome free =
      bind-Returns _ Outcome (create db _) _ (create-Returns db _) (λ created e.
        bind-Returns _ Outcome
          (add created (verified_identity new_id oidc provider subject now none)) _
          (add-Returns created _)
          (λ db' e'. ok-Returns Outcome _ (
            newcomer refl e.1 free,
            Extends-added db db' (verified_identity new_id oidc provider subject now none ∷ []) (
                e'
                ∙ ap (λ rows. rows ++ verified_identity new_id oidc provider subject now none ∷ [])
                    e.0),
          )))

  claimed_or_new-Outcome :
      (b : Bool)
      → is_empty email ≡ b
      → Returns Outcome (
          claimed_or_new db
            (if b then none else get_by_email db email)
            new_id
            provider
            subject
            email
            name
            picture
            verified
            now)
  claimed_or_new-Outcome true h = create_with_identity-Outcome (inl h)
  claimed_or_new-Outcome false h = found (get_by_email db email) refl
    where
      found :
          (o : Option Person)
          → get_by_email db email ≡ o
          → Returns Outcome
              (claimed_or_new db o new_id provider subject email name picture verified now)
      found none e = create_with_identity-Outcome (inr e)
      found (some q) e = link_claimed-Outcome q e

  resolve-Outcome :
      (o : Option Person)
      → get_user_by_oidc_identity db provider subject ≡ o
      → Returns Outcome (resolve db o new_id provider subject email name picture verified now)
  resolve-Outcome none h = claimed_or_new-Outcome (is_empty email) refl
  resolve-Outcome (some q) h = refresh-Outcome q h

module _ (is_person_allowed : Option Text → Text → Bool) where
  -- Whoever a sign-in with a provider returns: the identity already named that person, or the
  -- person holds the address and both the provider and the account have proved it, or the
  -- account is new and nobody held the address. And every identity that was known still names
  -- whom it named.
  pub sign_in-Reason :
      (db db' : Db) (new_id provider subject email name : Text) (picture : Option Text)
      (verified : Bool) (now : ℕ) (p : Person)
      → get_or_create_user_by_oidc_identity is_person_allowed db new_id provider subject email name
          picture verified now
        ≡ ok (p, db')
      → Reason db new_id provider subject (normalize email) verified p × Extends db db'
  unfolding get_or_create_user_by_oidc_identity
  sign_in-Reason db db' new_id provider subject email name picture verified now p h =
      let P =
        Outcome db new_id provider subject (normalize email) (or_else (strip name) default_name)
          picture verified now in
      Returns_ok P _ (p, db')
        (if-Returns P
          (not (
            is_person_allowed (if provider == codes "google" then some subject else none)
              (normalize email)))
          (λ _. raise-Returns P permission_error)
          (λ _.
            resolve-Outcome db new_id provider subject (normalize email)
              (or_else (strip name) default_name) picture verified now
              (get_user_by_oidc_identity db provider subject) refl))
        h
