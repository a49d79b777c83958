-- ===== src/OAuth/Matching.antt =====
-- What it means that an address is one of those a client registered.
use agience_origin.Base.{
  ◌≡◌, refl, sym, subst, ◌↔◌, inl, inr, true, false, Option, none, some, List, [], ◌∷◌, Text, ◌==◌,
  text_eq, eq_iff, arith, Bool-cases, lower, In,
}
use agience_origin.OAuth.Exchange.{is_set, text_of}
use agience_origin.OAuth.Redirect.{
  Url, is_loopback, same_loopback, parsed_loopback, matches_entry, matches_some, matches_parsed,
  redirect_uri_matches_registered,
}

-- Two addresses of a loopback host that differ in the port at most.
pub record SameButPort (want have : Url) : Type 0 where
  pub on_loopback : is_loopback (lower (text_of have.hostname)) ≡ true
  pub scheme : want.scheme ≡ have.scheme
  pub hostname : lower (text_of want.hostname) ≡ lower (text_of have.hostname)
  pub path : want.path ≡ have.path
  pub query : want.query ≡ have.query
  pub no_username : is_set want.username ≡ false
  pub no_username_registered : is_set have.username ≡ false

module _ (urlparse : Text → Option Url) where
  pub data Same (requested entry : Text) : Type 0 where
    exactly : requested ≡ entry → Same requested entry
    but_port :
        (want have : Url)
        → urlparse requested ≡ some want
        → urlparse entry ≡ some have
        → SameButPort want have
        → Same requested entry

  pub record Names (requested : Text) (registered : List Text) : Type 0 where
    pub entry : Text
    pub listed : In entry registered
    pub nonempty : is_set (some entry) ≡ true
    pub same : Same requested entry

  same_loopback-SameButPort :
      (want have : Url) → same_loopback urlparse want have ≡ true → SameButPort want have
  same_loopback-SameButPort want have h = record {
    on_loopback = ground arith;
    scheme = (eq_iff want.scheme have.scheme).0 (ground arith);
    hostname =
        (eq_iff (lower (text_of want.hostname)) (lower (text_of have.hostname))).0 (ground arith);
    path = (eq_iff want.path have.path).0 (ground arith);
    query = (eq_iff want.query have.query).0 (ground arith);
    no_username = ground arith;
    no_username_registered = ground arith;
  }

  SameButPort-same_loopback :
      (want have : Url) → SameButPort want have → same_loopback urlparse want have ≡ true
  SameButPort-same_loopback want have s =
      rw
        (
          s.on_loopback,
          (eq_iff want.scheme have.scheme).1 s.scheme,
          (eq_iff (lower (text_of want.hostname)) (lower (text_of have.hostname))).1 s.hostname,
          (eq_iff want.path have.path).1 s.path,
          (eq_iff want.query have.query).1 s.query,
          s.no_username,
          s.no_username_registered,
        )
        refl

  matches_entry-Same :
      (requested entry : Text) (want : Url)
      → urlparse requested ≡ some want
      → matches_entry urlparse requested want entry ≡ true
      → (is_set (some entry) ≡ true) × Same requested entry
  matches_entry-Same requested [] want u h = absurd (cc)
  matches_entry-Same requested (c ∷ s) want u h = elim (Bool-cases (c ∷ s == requested)) [
    | inl e ↦ (refl, exactly (sym ((eq_iff (c ∷ s) requested).0 e)))
    | inr e ↦ (refl, go (urlparse (c ∷ s)) refl (rw e at h))
  ]
    where
      go :
          (o : Option Url)
          → urlparse (c ∷ s) ≡ o
          → parsed_loopback urlparse want o ≡ true
          → Same requested (c ∷ s)
      go none p k = absurd (cc)
      go (some have) p k = but_port want have u p (same_loopback-SameButPort want have k)

  Same-matches_entry :
      (requested entry : Text) (want : Url)
      → urlparse requested ≡ some want
      → is_set (some entry) ≡ true
      → Same requested entry
      → matches_entry urlparse requested want entry ≡ true
  Same-matches_entry requested [] want u n s = absurd (cc)
  Same-matches_entry requested (c ∷ r) want u n (exactly e) =
      let same : (c ∷ r == requested) ≡ true = (eq_iff (c ∷ r) requested).1 (sym e) in rw same refl
  Same-matches_entry requested (c ∷ r) want u n (but_port want' have w h s) =
      let mine : want' ≡ want = cc in
      let found : same_loopback urlparse want have ≡ true =
        SameButPort-same_loopback want have (subst (λ x. SameButPort x have) mine s) in
      elim (Bool-cases (c ∷ r == requested)) [
        | inl e ↦ rw e refl
        | inr e ↦ rw (e, h, parsed_loopback) found
      ]

  matches_some-Names :
      (requested : Text) (want : Url) (registered : List Text)
      → urlparse requested ≡ some want
      → matches_some urlparse requested want registered ≡ true
      → Names requested registered
  matches_some-Names requested want [] u h = absurd (cc)
  matches_some-Names requested want (entry ∷ entries) u h =
      elim (Bool-cases (matches_entry urlparse requested want entry)) [
        | inl e ↦
            let (n, s) = matches_entry-Same requested entry want u e in
            record { entry = entry; listed = inl refl; nonempty = n; same = s }
        | inr e ↦
            let rest = matches_some-Names requested want entries u (rw e at h) in
            record {
              entry = rest.entry;
              listed = inr rest.listed;
              nonempty = rest.nonempty;
              same = rest.same;
            }
      ]

  listed-matches_some :
      (requested : Text) (want : Url) (registered : List Text) (entry : Text)
      → In entry registered
      → matches_entry urlparse requested want entry ≡ true
      → matches_some urlparse requested want registered ≡ true
  listed-matches_some requested want [] entry m h = absurd m
  listed-matches_some requested want (e ∷ entries) entry (inl same) h =
      let mine : matches_entry urlparse requested want e ≡ true =
        subst (λ x. matches_entry urlparse requested want x ≡ true) (sym same) h in
      rw mine refl
  listed-matches_some requested want (e ∷ entries) entry (inr m) h =
      let rest = listed-matches_some requested want entries entry m h in
      elim (Bool-cases (matches_entry urlparse requested want e)) [
        | inl hit ↦ rw hit refl
        | inr miss ↦ rw miss rest
      ]

  -- An address that can be parsed matches a registration exactly if the registration lists an
  -- entry that is not empty and is the same address, or has the same scheme, host, path and
  -- query with a loopback host and no username on either side.
  pub redirect_uri_matches_registered_iff :
      (requested : Text) (want : Url) (registered : List Text)
      → urlparse requested ≡ some want
      → (redirect_uri_matches_registered urlparse requested registered ≡ true)
        ↔ Names requested registered
  unfolding redirect_uri_matches_registered
  redirect_uri_matches_registered_iff requested want registered u = (
    λ h. matches_some-Names requested want registered u (rw (u, matches_parsed) at h),
    λ names.
        rw (u, matches_parsed)
          (listed-matches_some requested want registered names.entry names.listed
            (Same-matches_entry requested names.entry want u names.nonempty names.same)),
  )
