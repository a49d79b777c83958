-- ===== src/Policy/Examples.antt =====
-- The theorems on the lists at concrete data, with a matcher that knows one pattern.
use agience_origin.Base.{
  ◌≡◌, refl, ◌↔◌, Bool, true, false, none, some, [], ◌∷◌, Text, codes, ◌==◌, text_eq, text_beq,
  lower, space, normalize,
}
use agience_origin.Policy.Lists.{AllowLists, is_person_allowed, email_verification_required}
use agience_origin.Policy.Admits.{Admitted, is_person_allowed_iff}

abbrev known_pattern : Text → Text → Bool
known_pattern value pattern = pattern == codes "*@corp.example"

abbrev lists : AllowLists
lists = record {
  emails = codes "Ann@example.com" ∷ [];
  domains = codes "lab.example" ∷ [];
  google_ids = [];
}

bob_allowed : is_person_allowed known_pattern lists none (codes "bob@LAB.example") ≡ true
unfolding is_person_allowed text_beq lower
bob_allowed = refl

eve_barred : is_person_allowed known_pattern lists none (codes "eve@example.com@lab") ≡ false
unfolding is_person_allowed text_beq lower
eve_barred = refl

is_person_allowed_iff_example :
    (is_person_allowed known_pattern lists none (codes "bob@LAB.example") ≡ true)
    ↔ Admitted known_pattern lists none (codes "bob@LAB.example")
is_person_allowed_iff_example =
    is_person_allowed_iff known_pattern lists none (codes "bob@LAB.example")

eve_must_verify :
    email_verification_required true
      (codes "corp.example" ∷ codes "lab.example" ∷ [])
      (some (codes " Eve@example.com"))
    ≡ true
unfolding email_verification_required normalize space text_beq
eve_must_verify = refl
