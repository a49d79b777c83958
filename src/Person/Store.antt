-- ===== src/Person/Store.antt =====
-- models/person.py, models/person_identity.py, db/persons.py and db/person_identities.py. A write
-- that breaks a UNIQUE constraint raises, and the session is rolled back. A fresh uuid is an
-- argument.
use agience_origin.Base.{
  ℕ, Bool, true, false, not, ◌&&◌, ◌||◌, Option, none, some, List, [], ◌∷◌, ◌++◌, Text, ◌==◌,
  text_eq, if◌then◌else◌, any, first, nocase, strip, update_where, delete_where, select_where,
  count_where,
}

pub record Person : Type 0 where
  pub id : Text
  pub email : Option Text
  pub username : Option Text
  pub name : Text
  pub picture : Option Text
  pub password_hash : Option Text
  pub email_verified : Bool
  pub preferences : List (Text × Text)
  pub deactivated_at : Option ℕ
  pub deactivated_reason : Option Text

pub record PersonIdentity : Type 0 where
  pub person_id : Text
  pub method : Text
  pub provider : Text
  pub subject : Text
  pub verified_at : Option ℕ
  pub proof : Option Text

pub record Db : Type 0 where
  pub persons : List Person
  pub identities : List PersonIdentity

abbrev pub empty : Db
empty = record { persons = []; identities = [] }

pub data Error : Type 0 where
  permission_error link_refused value_error integrity_error : Error

pub data Result (A : Type 0) : Type 0 where
  ok : A → Result A
  raise : Error → Result A

infixl 5 ◌>>=◌
abbrev pub ◌>>=◌ : {A B : Type 0} → Result A → (A → Result B) → Result B
ok a >>= f = f a
raise e >>= f = raise e

-- Two values of a UNIQUE NOCASE column clash; NULL never does.
abbrev pub clash : Option Text → Option Text → Bool
clash (some a) (some b) = nocase a b
clash _ _ = false

abbrev pub holds : Text → Option Text → Bool
holds value none = false
holds value (some held) = nocase held value

abbrev pub has_id : Text → Person → Bool
has_id id p = p.id == id

unfoldable pub get_by_id : Db → Text → Option Person
get_by_id db id = first (has_id id) db.persons

unfoldable pub get_by_email : Db → Text → Option Person
get_by_email db email = first (λ p. holds (strip email) p.email) db.persons

unfoldable pub get_by_username : Db → Text → Option Person
get_by_username db username = first (λ p. holds (strip username) p.username) db.persons

-- Another row stands in the way of this one.
abbrev pub collides : Person → Person → Bool
collides p q = not (q.id == p.id) && (clash q.email p.email || clash q.username p.username)

unfoldable pub create : Db → Person → Result Db
create db p =
    if any (λ q. q.id == p.id || collides p q) db.persons
    then raise integrity_error
    else ok (record db { persons = db.persons ++ p ∷ [] })

-- The flush of a changed row.
unfoldable pub save : Db → Person → Result Db
save db p =
    if any (collides p) db.persons
    then raise integrity_error
    else ok (record db { persons = update_where (has_id p.id) (λ _. p) db.persons })

abbrev pub has_hash : Text → Option Text → Bool
has_hash expected none = false
has_hash expected (some hash) = hash == expected

unfoldable pub replace_password_hash : Db → Text → Text → Text → Db × Bool
replace_password_hash db id expected new =
    let hit = λ (p : Person). p.id == id && has_hash expected p.password_hash in
    (
      record db {
        persons = update_where hit (λ p. record p { password_hash = some new }) db.persons;
      },
      any hit db.persons,
    )

abbrev pub is_identity : Text → Text → Text → PersonIdentity → Bool
is_identity method provider subject r =
    r.method == method && (r.provider == provider && r.subject == subject)

unfoldable pub get_by_identity : Db → Text → Text → Text → Option PersonIdentity
get_by_identity db method provider subject =
    first (is_identity method provider subject) db.identities

abbrev pub belongs : Text → PersonIdentity → Bool
belongs person_id r = r.person_id == person_id

unfoldable pub list_for_person : Db → Text → List PersonIdentity
list_for_person db person_id = select_where (belongs person_id) db.identities

-- The unique index holds one row for each identity.
unfoldable pub add : Db → PersonIdentity → Result Db
add db r =
    if any (is_identity r.method r.provider r.subject) db.identities
    then raise integrity_error
    else ok (record db { identities = db.identities ++ r ∷ [] })

abbrev pub is_held : Text → Text → Text → Text → PersonIdentity → Bool
is_held person_id method provider subject r =
    belongs person_id r && is_identity method provider subject r

unfoldable pub remove : Db → Text → Text → Text → Text → Db × ℕ
remove db person_id method provider subject = (
  record db { identities = delete_where (is_held person_id method provider subject) db.identities },
  count_where (is_held person_id method provider subject) db.identities,
)

abbrev pub is_verified : PersonIdentity → Bool
is_verified r = elim r.verified_at [ none ↦ false | some t ↦ true ]

unfoldable pub count_verified : Db → Text → ℕ
unfolding list_for_person
count_verified db person_id = count_where is_verified (list_for_person db person_id)
