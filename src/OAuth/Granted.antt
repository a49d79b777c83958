-- ===== src/OAuth/Granted.antt =====
-- What an exchange that goes through rests on, and that a code goes through once.
use agience_origin.Base.{
  ℕ, ◌+◌, ◌≤◌, ◌≡◌, refl, ap, subst, sym, ◌∙◌, ◌⊎◌, inl, inr, false, not, Option, none, some, List,
  Text, ◌==◌, text_eq, eq_iff, eq_refl, arith, if-branches, get, pop, get-pop, is_some,
}
use agience_origin.OAuth.Exchange.{
  AuthData, code_stamp, auth_cache_ttl, is_expired, prune_auth_cache, Grant, http_error, granted,
  del_code, is_set, text_of, verifier_challenge, spend_code, grant_found, grant_authorization_code,
}

-- The verifier answers the challenge that the code was issued for.
abbrev pub Answers : (Text → Text) → AuthData → Option Text → Type 0
Answers s256 d verifier =
    (is_set d.code_challenge ≡ false)
    ⊎ (verifier_challenge s256 d (text_of verifier) ≡ text_of d.code_challenge)

pub record Rightful (s256 : Text → Text) (d : AuthData) (redirect_uri client_id : Text)
    (verifier : Option Text) (later : ℕ) : Type 0 where
  pub same_client : client_id ≡ d.client_id
  pub same_redirect : redirect_uri ≡ d.redirect_uri
  pub in_time : later ≤ d.timestamp + auth_cache_ttl
  pub answered : Answers s256 d verifier

-- A grant is of the entry `d`, and then the code is gone.
abbrev Spent : Text → AuthData → List (Text × AuthData) × Grant → Type 0
Spent code d out = (e : AuthData) → out.1 ≡ granted e → (e ≡ d) × (get code out.0 ≡ none)

gone : (code : Text) (cache : List (Text × AuthData)) → get code (pop code cache) ≡ none
gone code cache = rw (get-pop code code cache, eq_refl code) refl

del-Spent :
    (code : Text) (d : AuthData) (cache : List (Text × AuthData))
    → Spent code d (del_code cache code (granted d))
del-Spent code d cache =
    if-branches (Spent code d) (is_some (get code cache)) (λ _ e h. (cc, gone code cache))
      (λ _ e h. absurd (cc))

module _ (s256 : Text → Text) where
  abbrev Answered : AuthData → Text → Option Text → List (Text × AuthData) × Grant → Type 0
  Answered d code verifier out =
      (e : AuthData)
      → out.1 ≡ granted e
      → (e ≡ d) × (get code out.0 ≡ none) × Answers s256 d verifier

  spend_code-Answers :
      (cache : List (Text × AuthData)) (d : AuthData) (code : Text) (verifier : Option Text)
      → Answered d code verifier (spend_code s256 cache d code verifier)
  spend_code-Answers cache d code verifier =
      let P = Answered d code verifier in
      if-branches P (is_set d.code_challenge)
        (λ _.
          if-branches P (not (is_set verifier)) (λ _ e h. absurd (cc))
            (λ _.
              if-branches P
                (not (verifier_challenge s256 d (text_of verifier) == text_of d.code_challenge))
                (λ _ e h. absurd (cc))
                (λ same e h.
                  let (mine, over) = del-Spent code d cache e h in
                  (mine, over, inr ((eq_iff _ _).0 (ground arith))))))
        (λ bare e h. let (mine, over) = del-Spent code d cache e h in (mine, over, inl bare))

  found-Rightful :
      (cache : List (Text × AuthData)) (d : AuthData) (code redirect_uri client_id : Text)
      (verifier : Option Text) (now later : ℕ) (e : AuthData)
      → (grant_found s256 cache (some d) code redirect_uri client_id verifier now later).1
        ≡ granted e
      → (e ≡ d)
        × (get code
              (grant_found s256 cache (some d) code redirect_uri client_id verifier now later).0
            ≡ none)
        × Rightful s256 d redirect_uri client_id verifier later
  found-Rightful cache d code redirect_uri client_id verifier now later =
      let left = prune_auth_cache now cache in
      let P = λ (out : List (Text × AuthData) × Grant).
        (e : AuthData)
        → out.1 ≡ granted e
        → (e ≡ d)
          × (get code out.0 ≡ none)
          × Rightful s256 d redirect_uri client_id verifier later in
      if-branches P (not (client_id == d.client_id)) (λ _ e h. absurd (cc))
        (λ client.
          if-branches P (not (redirect_uri == d.redirect_uri)) (λ _ e h. absurd (cc))
            (λ redirect.
              if-branches P (is_expired later d) (λ _ e h. absurd (not_granted left e h))
                (λ live e h.
                  let (mine, over, answer) = spend_code-Answers left d code verifier e h in
                  (
                    mine,
                    over,
                    record {
                      same_client = (eq_iff client_id d.client_id).0 (ground arith);
                      same_redirect = (eq_iff redirect_uri d.redirect_uri).0 (ground arith);
                      in_time = ground arith;
                      answered = answer;
                    },
                  ))))
    where
      not_granted :
          (m : List (Text × AuthData)) (e : AuthData)
          → (del_code m code (http_error 400)).1 ≡ granted e
          → ⊥
      not_granted m e =
          if-branches (λ (out : List (Text × AuthData) × Grant). out.1 ≡ granted e → ⊥)
            (is_some (get code m)) (λ _ k. cc) (λ _ k. cc)

  -- An exchange that goes through gives what stood in the cache under the code; the client and
  -- the redirect address are those of the entry, which is not past its ten minutes; the verifier
  -- answers the challenge, if there is one; and the code is gone from the cache.
  pub grant_authorization_code-Rightful :
      (cache : List (Text × AuthData)) (code redirect_uri client_id : Text) (verifier : Option Text)
      (now later : ℕ) (d : AuthData)
      → (grant_authorization_code s256 cache code redirect_uri client_id verifier now later).1
        ≡ granted d
      → (get code cache ≡ some d)
        × (get code
              (grant_authorization_code s256 cache code redirect_uri client_id verifier now later).0
            ≡ none)
        × Rightful s256 d redirect_uri client_id verifier later
  unfolding grant_authorization_code
  grant_authorization_code-Rightful cache code redirect_uri client_id verifier now later d h =
      go (get code cache) refl h
    where
      go :
          (o : Option AuthData)
          → get code cache ≡ o
          → (grant_found s256 cache o code redirect_uri client_id verifier now later).1 ≡ granted d
          → (get code cache ≡ some d)
            × (get code
                  (grant_found s256 cache
                    (get code cache)
                    code
                    redirect_uri
                    client_id
                    verifier
                    now
                    later).0
                ≡ none)
            × Rightful s256 d redirect_uri client_id verifier later
      go none e k = absurd (cc)
      go (some x) e k =
          let (mine, over, right) =
            found-Rightful cache x code redirect_uri client_id verifier now later d k in
          (
            e ∙ ap some (sym mine),
            subst
                (λ o.
                  get code
                    (grant_found s256 cache o code redirect_uri client_id verifier now later).0
                  ≡ none)
                (sym e) over,
            subst (λ y. Rightful s256 y redirect_uri client_id verifier later) (sym mine) right,
          )
