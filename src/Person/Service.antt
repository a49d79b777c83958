-- ===== src/Person/Service.antt =====
-- services/person_service.py. The allow-list gate is a parameter here. What is raised leaves the
-- database as it was: the callers roll back.
use agience_origin.Base.{
  ℕ, Bool, true, false, not, ◌&&◌, ◌||◌, Option, none, some, List, [], ◌∷◌, Text, codes, ◌==◌,
  text_eq, nat_eq, ltb, if◌then◌else◌, normalize, lower, strip, put,
}
use agience_origin.Person.Store.{
  Person, PersonIdentity, Db, permission_error, link_refused, value_error, Result, ok, raise, ◌>>=◌,
  get_by_id, get_by_email, get_by_username, create, save, get_by_identity, add, remove,
  count_verified, list_for_person,
}

abbrev pub is_empty : Text → Bool
is_empty [] = true
is_empty (c ∷ s) = false

-- Python's truth of an optional text
abbrev pub is_set : Option Text → Bool
is_set none = false
is_set (some s) = not (is_empty s)

abbrev pub or_else : Text → Text → Text
or_else [] fallback = fallback
or_else (c ∷ s) fallback = c ∷ s

abbrev pub text_or_none : Text → Option Text
text_or_none [] = none
text_or_none (c ∷ s) = some (c ∷ s)

abbrev pub option_beq : Option Text → Option Text → Bool
option_beq none none = true
option_beq (some s) (some t) = s == t
option_beq _ _ = false

abbrev pub oidc : Text
oidc = codes "oidc"

abbrev pub default_name : Text
default_name = codes "User"

abbrev pub person_of : Db → Option PersonIdentity → Option Person
person_of db none = none
person_of db (some row) = get_by_id db row.person_id

unfoldable pub get_user_by_oidc_identity : Db → Text → Text → Option Person
get_user_by_oidc_identity db provider subject =
    person_of db (get_by_identity db oidc provider subject)

abbrev pub verified_identity : Text → Text → Text → Text → ℕ → Option Text → PersonIdentity
verified_identity person_id method provider subject now proof = record {
  person_id = person_id;
  method = method;
  provider = provider;
  subject = subject;
  verified_at = some now;
  proof = proof;
}

abbrev pub new_person : Text → Person
new_person id = record {
  id = id;
  email = none;
  username = none;
  name = [];
  picture = none;
  password_hash = none;
  email_verified = true;
  preferences = [];
  deactivated_at = none;
  deactivated_reason = none;
}

-- A person who signs in through an identity that is known: the address, name and picture follow
-- the provider, and a new address is confirmed only if the provider says so.
abbrev pub refreshed : Person → Text → Text → Option Text → Bool → Person
refreshed p email name picture email_verified = record p {
  email = some email;
  email_verified = if option_beq p.email (some email) then p.email_verified else email_verified;
  name = name;
  picture = picture;
}

abbrev pub is_dirty : Person → Text → Text → Option Text → Bool
is_dirty p email name picture =
    not (option_beq p.email (some email))
    || (not (p.name == name) || not (option_beq p.picture picture))

abbrev pub refresh : Db → Person → Text → Text → Option Text → Bool → Result (Person × Db)
refresh db p email name picture email_verified =
    let q = refreshed p email name picture email_verified in
    if is_dirty p email name picture then (do db' ← save db q; ok (q, db')) else ok (p, db)

-- Fill only what is empty.
abbrev pub filled : Person → Text → Option Text → Person
filled p name picture = record p {
  name = if is_empty p.name || p.name == default_name then name else p.name;
  picture = if not (is_set p.picture) && is_set picture then picture else p.picture;
}

-- The address belongs to an account: both sides must have proved it.
unfoldable pub link_claimed :
    Db → Person → Text → Text → Text → Option Text → Bool → ℕ → Result (Person × Db)
link_claimed db claimed provider subject name picture email_verified now =
    if not email_verified
    then raise link_refused
    else if not claimed.email_verified
    then raise link_refused
    else do
      linked ← add db (verified_identity claimed.id oidc provider subject now none)
      db' ← save linked (filled claimed name picture)
      ok (filled claimed name picture, db')

unfoldable pub create_with_identity :
    Db → Text → Text → Text → Text → Text → Option Text → Bool → ℕ → Result (Person × Db)
create_with_identity db new_id provider subject email name picture email_verified now =
    let p = record (new_person new_id) {
      email = some email;
      name = name;
      picture = picture;
      email_verified = email_verified;
    } in
    do
      created ← create db p
      db' ← add created (verified_identity new_id oidc provider subject now none)
      ok (p, db')

abbrev pub claimed_or_new :
    Db
    → Option Person
    → Text
    → Text
    → Text
    → Text
    → Text
    → Option Text
    → Bool
    → ℕ
    → Result (Person × Db)
claimed_or_new db (some claimed) new_id provider subject email name picture email_verified now =
    link_claimed db claimed provider subject name picture email_verified now
claimed_or_new db none new_id provider subject email name picture email_verified now =
    create_with_identity db new_id provider subject email name picture email_verified now

abbrev pub resolve :
    Db
    → Option Person
    → Text
    → Text
    → Text
    → Text
    → Text
    → Option Text
    → Bool
    → ℕ
    → Result (Person × Db)
resolve db (some existing) new_id provider subject email name picture email_verified now =
    refresh db existing email name picture email_verified
resolve db none new_id provider subject email name picture email_verified now =
    claimed_or_new db (if is_empty email then none else get_by_email db email) new_id provider
      subject email name picture email_verified now

abbrev pub unless_taken : {A : Type 0} → Option Person → Result A → Result A
unless_taken none m = m
unless_taken (some taken) m = raise value_error

module _ (is_person_allowed : Option Text → Text → Bool) where
  unfoldable pub get_or_create_user_by_oidc_identity :
      Db → Text → Text → Text → Text → Text → Option Text → Bool → ℕ → Result (Person × Db)
  get_or_create_user_by_oidc_identity db new_id provider subject email name picture email_verified
        now =
      let address = normalize email in
      let google_id = if provider == codes "google" then some subject else none in
      if not (is_person_allowed google_id address)
      then raise permission_error
      else resolve db (get_user_by_oidc_identity db provider subject) new_id provider subject
          address (or_else (strip name) default_name) picture email_verified now

  unfoldable pub create_user_with_password :
      Db → Text → Text → Text → Text → Text → Bool → Result (Person × Db)
  create_user_with_password db new_id username name password_hash email email_verified =
      let user = strip username in
      let address = normalize email in
      let p = record (new_person new_id) {
        username = some user;
        email = text_or_none address;
        name = or_else (strip (or_else name user)) default_name;
        password_hash = some password_hash;
        email_verified = email_verified;
      } in
      if is_empty user
      then raise value_error
      else if not (is_empty address) && not (is_person_allowed none address)
      then raise permission_error
      else unless_taken (get_by_username db user) (
          unless_taken (if is_empty address then none else get_by_email db address)
            (do db' ← create db p; ok (p, db')))

abbrev pub link_free :
    Db → Option Person → Text → Text → Text → Option Text → ℕ → Result (Option Person × Db)
link_free db none method provider subject proof now = raise value_error
link_free db (some user) method provider subject proof now = do
  db' ← add db (verified_identity user.id method provider subject now proof)
  ok (some user, db')

abbrev pub link_owned :
    Db
    → Option PersonIdentity
    → Text
    → Text
    → Text
    → Text
    → Option Text
    → ℕ
    → Result (Option Person × Db)
link_owned db none user_id method provider subject proof now =
    link_free db (get_by_id db user_id) method provider subject proof now
link_owned db (some owner) user_id method provider subject proof now =
    if owner.person_id == user_id then ok (get_by_id db user_id, db) else raise value_error

unfoldable pub link_identity :
    Db → Text → Text → Text → Text → Option Text → ℕ → Result (Option Person × Db)
link_identity db user_id method provider subject proof now =
    link_owned db (get_by_identity db method provider subject) user_id method provider subject proof
      now

-- What is left to sign in with, counted as the source counts it: the verified identities less the
-- one that goes.
abbrev pub would_lock_out : Db → Person → Bool
would_lock_out db user = ltb (count_verified db user.id) 2 && not (is_set user.password_hash)

abbrev pub removed_or_error : Person → Db × ℕ → Result (Person × Db)
removed_or_error user (db, removed) = if removed == 0 then raise value_error else ok (user, db)

abbrev pub unlink_found : Db → Option Person → Text → Text → Text → Result (Person × Db)
unlink_found db none method provider subject = raise value_error
unlink_found db (some user) method provider subject =
    if would_lock_out db user
    then raise value_error
    else removed_or_error user (remove db user.id method provider subject)

unfoldable pub unlink_identity : Db → Text → Text → Text → Text → Result (Person × Db)
unlink_identity db user_id method provider subject =
    unlink_found db (get_by_id db user_id) method provider subject

-- A change to the row of one person.
abbrev pub change : Db → Option Person → (Person → Result Person) → Result (Person × Db)
change db none f = raise value_error
change db (some p) f = do q ← f p; db' ← save db q; ok (q, db')

unfoldable pub set_password : Db → Text → Text → Result (Person × Db)
set_password db user_id hash =
    change db (get_by_id db user_id) (λ p. ok (record p { password_hash = some hash }))

unfoldable pub set_email_verified : Db → Text → Bool → Result (Person × Db)
set_email_verified db user_id verified =
    change db (get_by_id db user_id) (λ p. ok (record p { email_verified = verified }))

abbrev pub merge : List (Text × Text) → List (Text × Text) → List (Text × Text)
merge old [] = old
merge old ((k, v) ∷ new) = merge (put k v old) new

unfoldable pub update_preferences : Db → Text → List (Text × Text) → Result (Person × Db)
update_preferences db user_id preferences =
    change db (get_by_id db user_id)
      (λ p. ok (record p { preferences = merge p.preferences preferences }))

abbrev pub deactivated : Text → ℕ → Person → Person
deactivated reason now p = record p {
  deactivated_at = elim p.deactivated_at [ none ↦ some now | some t ↦ some t ];
  deactivated_reason = some reason;
}

unfoldable pub deactivate : Db → Text → Text → ℕ → Result (Person × Db)
deactivate db user_id reason now =
    change db (get_by_id db user_id) (λ p. ok (deactivated reason now p))

abbrev pub restored : Option Text → Person → Result Person
restored none p = ok (record p { deactivated_at = none; deactivated_reason = none })
restored (some hash) p =
    if is_set p.password_hash
    then raise value_error
    else ok
        (record p { password_hash = some hash; deactivated_at = none; deactivated_reason = none })

unfoldable pub reactivate : Db → Text → Option Text → Result (Person × Db)
reactivate db user_id password_hash = change db (get_by_id db user_id) (restored password_hash)

-- the address up to the first "@"
abbrev pub local_part : Text → Text
local_part [] = []
local_part (c ∷ s) = if c == 64 then [] else c ∷ local_part s

abbrev pub has_at : Text → Bool
has_at [] = false
has_at (c ∷ s) = c == 64 || has_at s

abbrev pub existing_or_new : Db → Option Person → Person → Result (Person × Db)
existing_or_new db (some existing) p = ok (existing, db)
existing_or_new db none p = do db' ← create db p; ok (p, db')

unfoldable pub get_or_create_user_by_email :
    (Option Text → Text → Bool) → Db → Text → Text → Result (Person × Db)
get_or_create_user_by_email is_person_allowed db new_id email =
    let address = normalize email in
    let p = record (new_person new_id) { email = some address; name = local_part address } in
    if is_empty address || not (has_at address)
    then raise value_error
    else if not (is_person_allowed none address)
    then raise permission_error
    else existing_or_new db (get_by_email db address) p

-- The forms that the routes call.
abbrev pub get_user_by_google_id : Db → Text → Option Person
get_user_by_google_id db google_id = get_user_by_oidc_identity db (codes "google") google_id

abbrev pub link_oidc_identity : Db → Text → Text → Text → ℕ → Result (Option Person × Db)
link_oidc_identity db user_id provider subject now =
    link_identity db user_id oidc provider subject none now

abbrev pub unlink_oidc_identity : Db → Text → Text → Text → Result (Person × Db)
unlink_oidc_identity db user_id provider subject = unlink_identity db user_id oidc provider subject

abbrev pub list_identities : Db → Text → List PersonIdentity
list_identities db user_id = list_for_person db user_id

abbrev pub or_username : Db → Option Person → Text → Option Person
or_username db none ident = get_by_username db ident
or_username db (some p) ident = some p

abbrev pub by_uuid : Db → Option Text → Option Person
by_uuid db none = none
by_uuid db (some id) = get_by_id db id

-- How a UUID is read is a parameter: an identifier that is none is nobody's id.
unfoldable pub find : (Text → Option Text) → Db → Text → Option Person
find to_uuid db identifier =
    let ident = strip identifier in
    if is_empty ident
    then none
    else if has_at ident
    then get_by_email db (lower ident)
    else or_username db (by_uuid db (to_uuid ident)) ident
