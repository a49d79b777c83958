-- ===== src/Policy/Admits.antt =====
-- Whom the allow-list admits, said without the code's tests.
use agience_origin.Base.{
  ◌≡◌, ◌≢◌, refl, ap, subst, ◌↔◌, ◌⊎◌, inl, inr, Bool, true, false, not, ◌&&◌, ◌||◌, Option, none,
  some, List, [], ◌∷◌, ◌++◌, Text, ◌==◌, eq_iff, text_eq, nat_eq, any, lower, arith, In, In-any,
  any-exists, Bool-cases, if-branches,
}
use agience_origin.Policy.Lists.{
  AllowLists, text_or_empty, is_blank, has_char, after_at, domain_of, contains, star, is_nonempty,
  is_configured, match_exact_or_glob, is_person_allowed,
}

contains_iff : (xs : List Text) (x : Text) → (contains xs x ≡ true) ↔ In x xs
contains_iff xs x = (
  λ h. let (y, m, e) = any-exists (λ y. y == x) xs h in subst (λ z. In z xs) ((eq_iff y x).0 e) m,
  λ m. In-any (λ y. y == x) x xs m ((eq_iff x x).1 refl),
)

-- The domain of an address is what stands behind its last "@".
abbrev pub IsDomain : Text → Text → Type 0
IsDomain address domain =
    (local : Text) × (address ≡ local ++ 64 ∷ domain) × (has_char domain 64 ≡ false)

module _ (fnmatchcase : Text → Text → Bool) where
  -- An entry without a star is the value, up to case; one with a star is a pattern for it.
  abbrev pub Matches : Text → List Text → Type 0
  Matches value entries =
      (e : Text) × In e entries
      × (((has_char e 42 ≡ false) × (lower e ≡ value))
          ⊎ ((has_char e 42 ≡ true) × (fnmatchcase value (lower e) ≡ true)))

  is_exact : Text → Text → Bool
  is_exact value e = not (has_char e 42) && lower e == value

  is_pattern : Text → Text → Bool
  is_pattern value e = has_char e 42 && fnmatchcase value (lower e)

  match_exact_or_glob-Matches :
      (value : Text) (entries : List Text)
      → match_exact_or_glob fnmatchcase value entries ≡ true
      → Matches value entries
  unfolding is_exact is_pattern
  match_exact_or_glob-Matches value entries h = elim (Bool-cases (any (is_exact value) entries)) [
    | inl one ↦
        let (e, m, hit) = any-exists (is_exact value) entries one in
        (e, m, inl (ground arith, (eq_iff (lower e) value).0 (ground arith)))
    | inr no_one ↦
        let (e, m, hit) = any-exists (is_pattern value) entries (ground arith) in
        (e, m, inr (ground arith, ground arith))
  ]

  Matches-match_exact_or_glob :
      (value : Text) (entries : List Text)
      → Matches value entries
      → match_exact_or_glob fnmatchcase value entries ≡ true
  unfolding is_exact is_pattern
  Matches-match_exact_or_glob value entries (e, m, inl (plain, same)) =
      let hit =
        In-any (is_exact value) e entries m (ground (arith, (eq_iff (lower e) value).1 same)) in
      ground arith
  Matches-match_exact_or_glob value entries (e, m, inr (starred, fits)) =
      let hit = In-any (is_pattern value) e entries m (ground arith) in ground arith

after_at_plain : (s : Text) → has_char s 64 ≡ false → after_at s ≡ s
after_at_plain [] h = refl
after_at_plain (c ∷ s) h = rw h refl

after_at-IsDomain : (s : Text) → has_char s 64 ≡ true → IsDomain s (after_at s)
after_at-IsDomain [] h = absurd (cc)
after_at-IsDomain (c ∷ s) h = elim (Bool-cases (has_char s 64)) [
  | inl more ↦
      let (l, e, plain) = after_at-IsDomain s more in rw h (c ∷ l, ap (λ t. c ∷ t) e, plain)
  | inr last ↦
      let at_sign : c ≡ 64 = (eq_iff c 64).0 (ground arith) in
      rw h (rw (after_at_plain s last) ([], ap (λ d. d ∷ s) at_sign, last))
]

has_char-append : (l d : Text) → has_char (l ++ 64 ∷ d) 64 ≡ true
has_char-append [] d = refl
has_char-append (c ∷ l) d = ground (arith, has_char-append l d)

after_at-append : (l d : Text) → has_char d 64 ≡ false → after_at (l ++ 64 ∷ d) ≡ d
after_at-append [] d h = after_at_plain d h
after_at-append (c ∷ l) d h = rw (has_char-append (c ∷ l) d) (after_at-append l d h)

domain_of-IsDomain :
    (address : Text) → is_blank (domain_of address) ≡ false → IsDomain address (domain_of address)
domain_of-IsDomain address =
    if-branches (λ (d : Text). is_blank d ≡ false → IsDomain address d) (has_char address 64)
      (λ h _. after_at-IsDomain address h) (λ _ h. absurd (cc))

IsDomain-domain_of : (address d : Text) → IsDomain address d → domain_of address ≡ d
IsDomain-domain_of address d (l, e, plain) = rw (e, has_char-append l d) (after_at-append l d plain)

nonempty_iff : (s : Text) → (is_blank s ≡ false) ↔ (s ≢ [])
nonempty_iff [] = (λ h. absurd (cc), λ h. absurd (h refl))
nonempty_iff (c ∷ s) = (λ _ e. absurd (cc), λ _. refl)

is_nonempty_none : (xs : List Text) → is_nonempty xs ≡ false → xs ≡ []
is_nonempty_none [] h = refl
is_nonempty_none (x ∷ xs) h = absurd (cc)

module _ (fnmatchcase : Text → Text → Bool) where
  -- Why somebody is admitted.
  pub data Admitted (lists : AllowLists) (google_id : Option Text) (email : Text) : Type 0 where
    unconfigured :
        lists.emails ≡ []
        → lists.domains ≡ []
        → lists.google_ids ≡ []
        → Admitted lists google_id email
    everybody :
        In star lists.emails ⊎ (In star lists.domains ⊎ In star lists.google_ids)
        → Admitted lists google_id email
    listed_google_id :
        (g : Text)
        → google_id ≡ some g
        → g ≢ []
        → In g lists.google_ids
        → Admitted lists google_id email
    listed_email :
        lower email ≢ []
        → Matches fnmatchcase (lower email) lists.emails
        → Admitted lists google_id email
    listed_domain :
        (d : Text)
        → IsDomain (lower email) d
        → d ≢ []
        → Matches fnmatchcase d lists.domains
        → Admitted lists google_id email

  listed :
      (lists : AllowLists) (google_id : Option Text) (email : Text)
      → (not (is_blank (text_or_empty google_id))
            && contains lists.google_ids (text_or_empty google_id)
          || (not (is_blank (lower email))
                && match_exact_or_glob fnmatchcase (lower email) lists.emails
              || not (is_blank (domain_of (lower email)))
                && match_exact_or_glob fnmatchcase (domain_of (lower email)) lists.domains))
        ≡ true
      → Admitted lists google_id email
  listed lists google_id email h =
      elim (Bool-cases (
        not (is_blank (text_or_empty google_id))
        && contains lists.google_ids (text_or_empty google_id))) [
          | inl e ↦ by_google_id google_id (ground arith) (ground arith)
          | inr no_id ↦
              elim (Bool-cases (
                not (is_blank (lower email))
                && match_exact_or_glob fnmatchcase (lower email) lists.emails)) [
                  | inl e ↦ listed_email ((nonempty_iff (lower email)).0 (ground arith)) (
                      match_exact_or_glob-Matches fnmatchcase (lower email) lists.emails
                        (ground arith))
                  | inr no_email ↦
                      let some_domain : is_blank (domain_of (lower email)) ≡ false = ground arith in
                      let fits : match_exact_or_glob fnmatchcase (domain_of (lower email))
                            lists.domains
                          ≡ true =
                        ground arith in
                      listed_domain (domain_of (lower email))
                        (domain_of-IsDomain (lower email) some_domain)
                        ((nonempty_iff (domain_of (lower email))).0 some_domain)
                        (match_exact_or_glob-Matches fnmatchcase (domain_of (lower email))
                          lists.domains fits)
                ]
        ]
    where
      by_google_id :
          (o : Option Text)
          → is_blank (text_or_empty o) ≡ false
          → contains lists.google_ids (text_or_empty o) ≡ true
          → Admitted lists o email
      by_google_id none e m = absurd (cc)
      by_google_id (some g) e m =
          listed_google_id g refl ((nonempty_iff g).0 e) ((contains_iff lists.google_ids g).0 m)

  starred :
      (lists : AllowLists)
      → (contains lists.emails star
          || (contains lists.domains star || contains lists.google_ids star))
        ≡ true
      → In star lists.emails ⊎ (In star lists.domains ⊎ In star lists.google_ids)
  starred lists h = elim (Bool-cases (contains lists.emails star)) [
    | inl e ↦ inl ((contains_iff lists.emails star).0 e)
    | inr f ↦ elim (Bool-cases (contains lists.domains star)) [
      | inl e ↦ inr (inl ((contains_iff lists.domains star).0 e))
      | inr g ↦ inr (inr ((contains_iff lists.google_ids star).0 (ground arith)))
    ]
  ]

  admits :
      (lists : AllowLists) (google_id : Option Text) (email : Text)
      → is_person_allowed fnmatchcase lists google_id email ≡ true
      → Admitted lists google_id email
  unfolding is_person_allowed
  admits lists google_id email =
      let P = λ (b : Bool). b ≡ true → Admitted lists google_id email in
      if-branches P (not (is_configured lists))
        (λ bare _.
          unconfigured (is_nonempty_none lists.emails (ground arith))
            (is_nonempty_none lists.domains (ground arith))
            (is_nonempty_none lists.google_ids (ground arith)))
        (λ _.
          if-branches P
            (contains lists.emails star
              || (contains lists.domains star || contains lists.google_ids star))
            (λ h _. everybody (starred lists h)) (λ _ h. listed lists google_id email h))

  -- Each reason is enough.
  admitted :
      (lists : AllowLists) (google_id : Option Text) (email : Text)
      → Admitted lists google_id email
      → is_person_allowed fnmatchcase lists google_id email ≡ true
  unfolding is_person_allowed
  admitted lists google_id email (unconfigured a b c) = rw (a, b, c) refl
  admitted lists google_id email (everybody (inl m)) =
      let e = (contains_iff lists.emails star).1 m in ground arith
  admitted lists google_id email (everybody (inr (inl m))) =
      let e = (contains_iff lists.domains star).1 m in ground arith
  admitted lists google_id email (everybody (inr (inr m))) =
      let e = (contains_iff lists.google_ids star).1 m in ground arith
  admitted lists google_id email (listed_google_id g same filled m) =
      let e = (contains_iff lists.google_ids g).1 m in
      let f = (nonempty_iff g).1 filled in rw same (ground arith)
  admitted lists google_id email (listed_email filled m) =
      let e = Matches-match_exact_or_glob fnmatchcase (lower email) lists.emails m in
      let f = (nonempty_iff (lower email)).1 filled in ground arith
  admitted lists google_id email (listed_domain d is filled m) =
      let e = Matches-match_exact_or_glob fnmatchcase d lists.domains m in
      let f = (nonempty_iff d).1 filled in rw (IsDomain-domain_of (lower email) d is) (ground arith)

  -- The allow-list admits somebody exactly for one of these reasons: none of the three lists has
  -- an entry; a list has the entry "*"; the Google id is given and listed; the lower-cased
  -- address is not empty and matches a listed address; or what stands behind its last "@" is not
  -- empty and matches a listed domain. An entry without a star matches a value that it is equal
  -- to when it is lower-cased, one with a star the values that fnmatch accepts for it.
  pub is_person_allowed_iff :
      (lists : AllowLists) (google_id : Option Text) (email : Text)
      → (is_person_allowed fnmatchcase lists google_id email ≡ true)
        ↔ Admitted lists google_id email
  is_person_allowed_iff lists google_id email =
      (admits lists google_id email, admitted lists google_id email)
