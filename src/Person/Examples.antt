-- ===== src/Person/Examples.antt =====
-- The theorems on accounts at concrete data.
use agience_origin.Base.{
  ◌≡◌, refl, Bool, true, false, Option, none, some, [], ◌∷◌, Text, codes, ◌==◌, text_eq, text_beq,
  normalize, space, nocase,
}
use agience_origin.Person.Store.{
  Person, Db, ok, replace_password_hash, get_by_identity, get_by_email, add, save,
}
use agience_origin.Person.Service.{
  new_person, create_user_with_password, get_user_by_oidc_identity, link_claimed,
  get_or_create_user_by_oidc_identity,
}
use agience_origin.Person.Linking.{Reason, Extends, sign_in-Reason}
use agience_origin.Person.Registration.{Answered, create_user_with_password-Answered}
use agience_origin.Person.Account.{stale_replace}

abbrev open_door : Option Text → Text → Bool
open_door google_id address = true

abbrev ann : Person
ann = record (new_person (codes "p1")) {
  email = some (codes "ann@example.com");
  name = codes "Ann";
  password_hash = some (codes "old");
}

abbrev db_ann : Db
db_ann = record { persons = ann ∷ []; identities = [] }

-- The address is Ann's, in another case.
create_user_with_password-Answered_example :
    Answered open_door db_ann
      (codes "p2")
      (codes " eve ")
      []
      (codes "hash")
      (codes "ANN@example.com ")
      false
      (create_user_with_password open_door db_ann
        (codes "p2")
        (codes " eve ")
        []
        (codes "hash")
        (codes "ANN@example.com ")
        false)
unfolding text_beq
create_user_with_password-Answered_example =
    create_user_with_password-Answered open_door db_ann (codes "p2") (codes " eve ") []
      (codes "hash") (codes "ANN@example.com ") false refl

-- Ann, whose address is proved, signs in with a provider that has proved it too.
abbrev db_linked : Db
db_linked = record {
  persons = ann ∷ [];
  identities =
      record {
        person_id = codes "p1";
        method = codes "oidc";
        provider = codes "github";
        subject = codes "h-1";
        verified_at = some 20;
        proof = none;
      }
      ∷ [];
}

linked_run :
    get_or_create_user_by_oidc_identity open_door db_ann
      (codes "p2")
      (codes "github")
      (codes "h-1")
      (codes "Ann@example.com ")
      (codes "Ann B")
      none
      true
      20
    ≡ ok (ann, db_linked)
unfolding get_or_create_user_by_oidc_identity get_user_by_oidc_identity get_by_identity normalize
    space get_by_email nocase text_beq link_claimed add save
linked_run = refl

sign_in-Reason_example :
    Reason db_ann
      (codes "p2")
      (codes "github")
      (codes "h-1")
      (normalize (codes "Ann@example.com "))
      true
      ann
    × Extends db_ann db_linked
sign_in-Reason_example =
    sign_in-Reason open_door db_ann db_linked (codes "p2") (codes "github") (codes "h-1")
      (codes "Ann@example.com ") (codes "Ann B") none true 20 ann linked_run

text_differs : (codes "new" == codes "old") ≡ false
unfolding text_beq
text_differs = refl

stale_replace_example :
    replace_password_hash
      (replace_password_hash db_ann (codes "p1") (codes "old") (codes "new")).0
      (codes "p1")
      (codes "old")
      (codes "rehashed")
    ≡ ((replace_password_hash db_ann (codes "p1") (codes "old") (codes "new")).0, false)
stale_replace_example =
    stale_replace db_ann (codes "p1") (codes "old") (codes "new") (codes "rehashed") text_differs
