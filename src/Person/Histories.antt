-- ===== src/Person/Histories.antt =====
-- Histories of calls of the person service. A call that raises is rolled back. The tables that they
-- reach are those that theorems on accounts suppose to be sound.
use agience_origin.Base.{
  ℕ, ◌≡◌, refl, Bool, true, false, not, Option, none, some, List, [], ◌∷◌, Text, ◌==◌, nat_eq,
  text_eq, if◌then◌else◌, normalize, strip,
}
use agience_origin.Person.Store.{
  Person, PersonIdentity, Db, Error, value_error, permission_error, link_refused, Result, ok, raise,
  ◌>>=◌, create, save, add, remove, empty, get_by_id, get_by_email, get_by_username,
}
use agience_origin.Person.Service.{
  refresh, is_dirty, link_claimed, create_with_identity, claimed_or_new, resolve,
  get_user_by_oidc_identity, get_or_create_user_by_oidc_identity, create_user_with_password,
  get_or_create_user_by_email, link_identity, unlink_found, would_lock_out, unlink_identity, change,
  set_password, set_email_verified, update_preferences, deactivate, reactivate, unless_taken,
  restored, link_free, link_owned, existing_or_new,
}
use agience_origin.Person.Unique.{
  IsUnique, empty-IsUnique, create-IsUnique, save-IsUnique, add-IsUnique, remove-IsUnique,
}

pub data Call : Type 0 where
  sign_in : Text → Text → Text → Text → Text → Option Text → Bool → ℕ → Call
  register : Text → Text → Text → Text → Text → Bool → Call
  code_sign_in : Text → Text → Call
  link : Text → Text → Text → Text → Option Text → ℕ → Call
  unlink : Text → Text → Text → Text → Call
  new_password : Text → Text → Call
  verify_email : Text → Bool → Call
  prefer : Text → List (Text × Text) → Call
  switch_off : Text → Text → ℕ → Call
  switch_on : Text → Option Text → Call

abbrev pub after : {A : Type 0} → Db → Result (A × Db) → Db
after db (ok (a, db')) = db'
after db (raise e) = db

module _ (is_person_allowed : Option Text → Text → Bool) where
  unfoldable pub perform : Db → Call → Db
  perform db (sign_in new_id provider subject email name picture verified now) = after db (
      get_or_create_user_by_oidc_identity is_person_allowed db new_id provider subject email name
        picture verified now)
  perform db (register new_id username name hash email verified) =
      after db
        (create_user_with_password is_person_allowed db new_id username name hash email verified)
  perform db (code_sign_in new_id email) =
      after db (get_or_create_user_by_email is_person_allowed db new_id email)
  perform db (link user_id method provider subject proof now) =
      after db (link_identity db user_id method provider subject proof now)
  perform db (unlink user_id method provider subject) =
      after db (unlink_identity db user_id method provider subject)
  perform db (new_password user_id hash) = after db (set_password db user_id hash)
  perform db (verify_email user_id verified) = after db (set_email_verified db user_id verified)
  perform db (prefer user_id preferences) = after db (update_preferences db user_id preferences)
  perform db (switch_off user_id reason now) = after db (deactivate db user_id reason now)
  perform db (switch_on user_id hash) = after db (reactivate db user_id hash)

  unfoldable pub run : Db → List Call → Db
  run db [] = db
  run db (c ∷ cs) = run (perform db c) cs

-- A result that did not raise holds a database that is sound.
abbrev Kept : {A : Type 0} → Result (A × Db) → Type 0
Kept (ok (a, db)) = IsUnique db
Kept (raise e) = Unit {0}

record Keeps {A : Type 0} (r : Result (A × Db)) : Type 0 where
  kept : Kept r

abbrev Saved : Result Db → Type 0
Saved (ok db) = IsUnique db
Saved (raise e) = Unit {0}

after-Keeps :
    {A : Type 0} (db : Db) (r : Result (A × Db)) → IsUnique db → Keeps r → IsUnique (after db r)
after-Keeps db (ok (a, db')) u k = k.kept
after-Keeps db (raise e) u k = u

to_Saved : (r : Result Db) → ((db : Db) → r ≡ ok db → IsUnique db) → Saved r
to_Saved (ok db) f = f db refl
to_Saved (raise e) f = tt

raise-Keeps : {A : Type 0} (e : Error) → Keeps {A = A} (raise e)
raise-Keeps e = record { kept = tt }

ok-Keeps : {A : Type 0} (a : A) (db : Db) → IsUnique db → Keeps (ok (a, db))
ok-Keeps a db u = record { kept = u }

bind-Keeps :
    {A : Type 0} (m : Result Db) (f : Db → Result (A × Db))
    → Saved m
    → ((db : Db) → IsUnique db → Keeps (f db))
    → Keeps (m >>= f)
bind-Keeps (ok db) f k g = g db k
bind-Keeps (raise e) f k g = raise-Keeps e

if-Keeps :
    {A : Type 0} (b : Bool) {m n : Result (A × Db)} → Keeps m → Keeps n → Keeps (if b then m else n)
if-Keeps true k l = k
if-Keeps false k l = l

unless_taken-Keeps :
    {A : Type 0} (o : Option Person) (m : Result (A × Db)) → Keeps m → Keeps (unless_taken o m)
unless_taken-Keeps none m k = k
unless_taken-Keeps (some p) m k = raise-Keeps value_error

-- A row is written, then the result is returned.
create-Keeps :
    {A : Type 0} (db : Db) (p : Person) (a : A)
    → IsUnique db
    → Keeps (create db p >>= λ db'. ok (a, db'))
create-Keeps db p a u =
    bind-Keeps (create db p) _ (to_Saved (create db p) (λ db' e. create-IsUnique db db' p u e))
      (ok-Keeps a)

save-Keeps :
    {A : Type 0} (db : Db) (p : Person) (a : A)
    → IsUnique db
    → Keeps (save db p >>= λ db'. ok (a, db'))
save-Keeps db p a u =
    bind-Keeps (save db p) _ (to_Saved (save db p) (λ db' e. save-IsUnique db db' p u e))
      (ok-Keeps a)

add-Saved : (db : Db) (r : PersonIdentity) → IsUnique db → Saved (add db r)
add-Saved db r u = to_Saved (add db r) (λ db' e. add-IsUnique db db' r u e)

module _ (db : Db) (u : IsUnique db) where
  change-Keeps : (o : Option Person) (f : Person → Result Person) → Keeps (change db o f)
  change-Keeps none f = raise-Keeps value_error
  change-Keeps (some p) f = go (f p)
    where
      go : (r : Result Person) → Keeps (r >>= λ q. save db q >>= λ db'. ok (q, db'))
      go (ok q) = save-Keeps db q q u
      go (raise e) = raise-Keeps e

  unlink_found-Keeps :
      (o : Option Person) (method provider subject : Text)
      → Keeps (unlink_found db o method provider subject)
  unlink_found-Keeps none method provider subject = raise-Keeps value_error
  unlink_found-Keeps (some p) method provider subject =
      if-Keeps (would_lock_out db p) (raise-Keeps value_error) (
        if-Keeps ((remove db p.id method provider subject).1 == 0) (raise-Keeps value_error)
          (ok-Keeps p _ (remove-IsUnique db p.id method provider subject u)))

  link_free-Keeps :
      (o : Option Person) (method provider subject : Text) (proof : Option Text) (now : ℕ)
      → Keeps (link_free db o method provider subject proof now)
  link_free-Keeps none method provider subject proof now = raise-Keeps value_error
  link_free-Keeps (some p) method provider subject proof now =
      bind-Keeps (add db _) _ (add-Saved db _ u) (ok-Keeps (some p))

  link_owned-Keeps :
      (o : Option PersonIdentity) (user_id method provider subject : Text) (proof : Option Text)
      (now : ℕ)
      → Keeps (link_owned db o user_id method provider subject proof now)
  link_owned-Keeps none user_id method provider subject proof now =
      link_free-Keeps (get_by_id db user_id) method provider subject proof now
  link_owned-Keeps (some owner) user_id method provider subject proof now =
      if-Keeps (owner.person_id == user_id) (ok-Keeps _ db u) (raise-Keeps value_error)

  existing_or_new-Keeps : (o : Option Person) (p : Person) → Keeps (existing_or_new db o p)
  existing_or_new-Keeps none p = create-Keeps db p p u
  existing_or_new-Keeps (some q) p = ok-Keeps q db u

  -- The parts of a sign-in with a provider.
  module _ (new_id provider subject email name : Text) (picture : Option Text) (verified : Bool)
      (now : ℕ) where
    link_claimed-Keeps :
        (p : Person) → Keeps (link_claimed db p provider subject name picture verified now)
    unfolding link_claimed
    link_claimed-Keeps p = if-Keeps (not verified) (raise-Keeps link_refused) (
        if-Keeps (not p.email_verified) (raise-Keeps link_refused)
          (bind-Keeps (add db _) _ (add-Saved db _ u) (λ linked v. save-Keeps linked _ _ v)))

    create_with_identity-Keeps :
        Keeps (create_with_identity db new_id provider subject email name picture verified now)
    unfolding create_with_identity
    create_with_identity-Keeps =
        bind-Keeps (create db _) _ (to_Saved (create db _) (λ db' e. create-IsUnique db db' _ u e))
          (λ created v. bind-Keeps (add created _) _ (add-Saved created _ v) (ok-Keeps _))

    claimed_or_new-Keeps :
        (o : Option Person)
        → Keeps (claimed_or_new db o new_id provider subject email name picture verified now)
    claimed_or_new-Keeps none = create_with_identity-Keeps
    claimed_or_new-Keeps (some p) = link_claimed-Keeps p

    refresh-Keeps : (p : Person) → Keeps (refresh db p email name picture verified)
    refresh-Keeps p =
        if-Keeps (is_dirty p email name picture) (save-Keeps db _ _ u) (ok-Keeps p db u)

    resolve-Keeps :
        (o : Option Person)
        → Keeps (resolve db o new_id provider subject email name picture verified now)
    resolve-Keeps none = claimed_or_new-Keeps _
    resolve-Keeps (some p) = refresh-Keeps p

  -- The calls that change one row.
  set_password-Keeps : (id hash : Text) → Keeps (set_password db id hash)
  unfolding set_password
  set_password-Keeps id hash = change-Keeps (get_by_id db id) _

  set_email_verified-Keeps : (id : Text) (b : Bool) → Keeps (set_email_verified db id b)
  unfolding set_email_verified
  set_email_verified-Keeps id b = change-Keeps (get_by_id db id) _

  update_preferences-Keeps :
      (id : Text) (ps : List (Text × Text)) → Keeps (update_preferences db id ps)
  unfolding update_preferences
  update_preferences-Keeps id ps = change-Keeps (get_by_id db id) _

  deactivate-Keeps : (id reason : Text) (now : ℕ) → Keeps (deactivate db id reason now)
  unfolding deactivate
  deactivate-Keeps id reason now = change-Keeps (get_by_id db id) _

  reactivate-Keeps : (id : Text) (hash : Option Text) → Keeps (reactivate db id hash)
  unfolding reactivate
  reactivate-Keeps id hash = change-Keeps (get_by_id db id) (restored hash)

module _ (is_person_allowed : Option Text → Text → Bool) where
  sign_in-Keeps :
      (db : Db) (u : IsUnique db) (new_id provider subject email name : Text)
      (picture : Option Text) (verified : Bool) (now : ℕ)
      → Keeps (
          get_or_create_user_by_oidc_identity is_person_allowed db new_id provider subject email
            name picture verified now)
  unfolding get_or_create_user_by_oidc_identity
  sign_in-Keeps db u new_id provider subject email name picture verified now =
      if-Keeps _ (raise-Keeps permission_error) (
        resolve-Keeps db u new_id provider subject _ _ picture verified now
          (get_user_by_oidc_identity db provider subject))

  register-Keeps :
      (db : Db) (u : IsUnique db) (new_id username name hash email : Text) (verified : Bool)
      → Keeps
          (create_user_with_password is_person_allowed db new_id username name hash email verified)
  unfolding create_user_with_password
  register-Keeps db u new_id username name hash email verified =
      if-Keeps _ (raise-Keeps value_error) (
        if-Keeps _ (raise-Keeps permission_error) (
          unless_taken-Keeps (get_by_username db (strip username)) _
            (unless_taken-Keeps _ _ (create-Keeps db _ _ u))))

  code-Keeps :
      (db : Db) (u : IsUnique db) (new_id email : Text)
      → Keeps (get_or_create_user_by_email is_person_allowed db new_id email)
  unfolding get_or_create_user_by_email
  code-Keeps db u new_id email = if-Keeps _ (raise-Keeps value_error) (
      if-Keeps _ (raise-Keeps permission_error)
        (existing_or_new-Keeps db u (get_by_email db (normalize email)) _))

  perform-IsUnique : (db : Db) (c : Call) → IsUnique db → IsUnique (perform is_person_allowed db c)
  unfolding perform link_identity unlink_identity
  perform-IsUnique db (sign_in new_id provider subject email name picture verified now) u =
      after-Keeps db _ u
        (sign_in-Keeps db u new_id provider subject email name picture verified now)
  perform-IsUnique db (register new_id username name hash email verified) u =
      after-Keeps db _ u (register-Keeps db u new_id username name hash email verified)
  perform-IsUnique db (code_sign_in new_id email) u =
      after-Keeps db _ u (code-Keeps db u new_id email)
  perform-IsUnique db (link user_id method provider subject proof now) u =
      after-Keeps db _ u (link_owned-Keeps db u _ user_id method provider subject proof now)
  perform-IsUnique db (unlink user_id method provider subject) u =
      after-Keeps db _ u (unlink_found-Keeps db u _ method provider subject)
  perform-IsUnique db (new_password user_id hash) u =
      after-Keeps db _ u (set_password-Keeps db u user_id hash)
  perform-IsUnique db (verify_email user_id verified) u =
      after-Keeps db _ u (set_email_verified-Keeps db u user_id verified)
  perform-IsUnique db (prefer user_id preferences) u =
      after-Keeps db _ u (update_preferences-Keeps db u user_id preferences)
  perform-IsUnique db (switch_off user_id reason now) u =
      after-Keeps db _ u (deactivate-Keeps db u user_id reason now)
  perform-IsUnique db (switch_on user_id hash) u =
      after-Keeps db _ u (reactivate-Keeps db u user_id hash)

  history-IsUnique :
      (db : Db) (cs : List Call) → IsUnique db → IsUnique (run is_person_allowed db cs)
  unfolding run
  history-IsUnique db [] u = u
  history-IsUnique db (c ∷ cs) u =
      history-IsUnique (perform is_person_allowed db c) cs (perform-IsUnique db c u)

  -- After any calls of the person service, each id, address (in any case), username and identity
  -- names one row only.
  pub run-IsUnique : (cs : List Call) → IsUnique (run is_person_allowed empty cs)
  run-IsUnique cs = history-IsUnique empty cs empty-IsUnique
