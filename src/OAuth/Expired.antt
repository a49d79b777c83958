-- ===== src/OAuth/Expired.antt =====
-- What an expired code is answered with.
use agience_origin.Base.{
  ℕ, ◌+◌, ◌≤◌, ◌<◌, ◌≡◌, refl, sym, subst, true, Option, none, some, List, [], ◌∷◌, Text, ◌==◌,
  text_eq, eq_iff, eq_refl, arith, Bool-cases, inl, inr, get, Distinct,
}
use agience_origin.OAuth.Exchange.{
  AuthData, code_stamp, auth_cache_ttl, is_expired, fresh, trim, prune_auth_cache, key_error,
  del_code, grant_found, grant_authorization_code,
}

get-fresh-none :
    (now : ℕ) (code : Text) (m : List (Text × AuthData))
    → get code m ≡ none
    → get code (fresh now m) ≡ none
unfolding get fresh
get-fresh-none now code [] h = refl
get-fresh-none now code ((k, d) ∷ m) h = ground (arith, get-fresh-none now code m)

get-trim-none :
    (code : Text) (m : List (Text × AuthData)) → get code m ≡ none → get code (trim m) ≡ none
unfolding get trim
get-trim-none code [] h = refl
get-trim-none code ((k, d) ∷ m) h = ground (arith, get-trim-none code m)

-- An entry past the cutoff does not survive the pruning.
get-fresh_expired :
    (now : ℕ) (code : Text) (d : AuthData) (m : List (Text × AuthData))
    → Distinct m
    → get code m ≡ some d
    → is_expired now d ≡ true
    → get code (fresh now m) ≡ none
unfolding get fresh
get-fresh_expired now code d [] u h e = refl
get-fresh_expired now code d ((k, x) ∷ m) u h e = elim (Bool-cases (k == code)) [
  | inl here ↦
      let same : x ≡ d = ground arith in
      let old : is_expired now x ≡ true = subst (λ y. is_expired now y ≡ true) (sym same) e in
      rw old (get-fresh-none now code m (subst (λ c. get c m ≡ none) ((eq_iff k code).0 here) u.0))
  | inr away ↦
      let deeper = get-fresh_expired now code d m u.1 (ground arith) e in
      elim (Bool-cases (is_expired now x)) [
        | inl out ↦ rw (out, fresh) deeper
        | inr kept ↦ rw (kept, fresh) (rw away deeper)
      ]
]

module _ (s256 : Text → Text) where
  -- A code that is past its ten minutes when it is presented, by its own client and with its
  -- redirect address, is answered with the KeyError of the deletion and not with the 400 that
  -- stands after it, provided that the keys of the cache are distinct.
  pub expired_code_raises :
      (cache : List (Text × AuthData)) (code : Text) (d : AuthData) (verifier : Option Text)
      (now later : ℕ)
      → Distinct cache
      → get code cache ≡ some d
      → d.timestamp + auth_cache_ttl < now
      → now ≤ later
      → (grant_authorization_code s256 cache code d.redirect_uri d.client_id verifier now later).1
        ≡ key_error
  unfolding grant_authorization_code
  expired_code_raises cache code d verifier now later u h past after =
      let old : is_expired now d ≡ true = ground arith in
      let still : is_expired later d ≡ true = ground arith in
      let away : get code (prune_auth_cache now cache) ≡ none =
        get-trim-none code (fresh now cache) (get-fresh_expired now code d cache u h old) in
      rw (h, grant_found)
        (rw (eq_refl d.client_id)
          (rw (eq_refl d.redirect_uri) (rw still (rw (away, del_code) refl))))
