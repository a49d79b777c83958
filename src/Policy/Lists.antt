-- ===== src/Policy/Lists.antt =====
-- `is_person_allowed` and `email_verification_required`. What is configured is an argument, and
-- fnmatch is a parameter.
use agience_origin.Base.{
  ℕ, Bool, true, false, not, ◌&&◌, ◌||◌, Option, none, some, List, [], ◌∷◌, Text, codes, ◌==◌,
  nat_eq, text_eq, if◌then◌else◌, any, lower, normalize,
}

pub record AllowLists : Type 0 where
  pub emails : List Text
  pub domains : List Text
  pub google_ids : List Text

abbrev pub text_or_empty : Option Text → Text
text_or_empty none = []
text_or_empty (some s) = s

abbrev pub is_blank : Text → Bool
is_blank [] = true
is_blank (c ∷ s) = false

abbrev pub has_char : Text → ℕ → Bool
has_char s c = any (λ d. d == c) s

-- s.split("@")[-1]
abbrev pub after_at : Text → Text
after_at [] = []
after_at (c ∷ s) = if has_char (c ∷ s) 64 then after_at s else c ∷ s

abbrev pub domain_of : Text → Text
domain_of email = if has_char email 64 then after_at email else []

abbrev pub contains : List Text → Text → Bool
contains xs x = any (λ y. y == x) xs

abbrev pub star : Text
star = codes "*"

abbrev pub is_nonempty : List Text → Bool
is_nonempty [] = false
is_nonempty (x ∷ xs) = true

abbrev pub is_configured : AllowLists → Bool
is_configured lists =
    is_nonempty lists.emails || (is_nonempty lists.domains || is_nonempty lists.google_ids)

module _ (fnmatchcase : Text → Text → Bool) where
  -- The entries without a star are compared, the others are patterns.
  abbrev pub match_exact_or_glob : Text → List Text → Bool
  match_exact_or_glob value entries =
      any (λ e. not (has_char e 42) && lower e == value) entries
      || any (λ e. has_char e 42 && fnmatchcase value (lower e)) entries

  unfoldable pub is_person_allowed : AllowLists → Option Text → Text → Bool
  is_person_allowed lists google_id email =
      let address = lower email in
      let domain = domain_of address in
      let gid_ok =
        not (is_blank (text_or_empty google_id))
        && contains lists.google_ids (text_or_empty google_id) in
      let email_ok = not (is_blank address) && match_exact_or_glob address lists.emails in
      let domain_ok = not (is_blank domain) && match_exact_or_glob domain lists.domains in
      if not (is_configured lists)
      then true
      else if contains lists.emails star
          || (contains lists.domains star || contains lists.google_ids star)
      then true
      else gid_ok || (email_ok || domain_ok)

unfoldable pub email_verification_required : Bool → List Text → Option Text → Bool
email_verification_required enabled allowlist email =
    let address = normalize (text_or_empty email) in
    if not enabled
    then false
    else if is_blank address || not (has_char address 64)
    then false
    else if not (is_nonempty allowlist)
    then true
    else if contains allowlist star
    then false
    else not (contains allowlist address || contains allowlist (after_at address))
