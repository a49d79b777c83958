-- ===== src/KeyCustody/Guard.antt =====
-- To whom the routes release a share.
use agience_origin.Base.{
  ℕ, ◌≡◌, refl, sym, ap, ◌∙◌, true, not, Option, none, some, Text, codes, arith, if-branches,
  Bool-cases, inl, inr,
}
use agience_origin.KeyCustody.Shares.{
  Share, Presented, Outcome, stored, unchanged, replaced, share_rejected, share_conflict, Release,
  absent, unreadable, released, valid_principal, validate, release_share, store_share,
}
use agience_origin.KeyCustody.Kept.{is_accepted}
use agience_origin.KeyCustody.RoundTrip.{store_share-release}
use agience_origin.KeyCustody.Router.{
  AuthContext, Claims, Custody, Response, http_error, share_body, outcome_body, is_mantle, is_for,
  spend_claims, bound, release_response, get_bound, get_share, store_response, put_bound, put_share,
}

-- The token of a call that went through.
pub record Opened (s : Custody) (method principal_id : Text) (claims : Claims) (now : ℕ)
    (s' : Custody) : Type 0 where
  pub named : is_for claims method principal_id ≡ true
  pub unspent : (spend_claims s claims.jti claims.exp now).1 ≡ true
  pub shares_kept : s'.shares ≡ s.shares

spend_claims_shares :
    (s : Custody) (jti : Option Text) (exp : Option ℕ) (now : ℕ)
    → (spend_claims s jti exp now).0.shares ≡ s.shares
spend_claims_shares s none exp now = refl
spend_claims_shares s (some jti) none now = refl
spend_claims_shares s (some jti) (some exp) now = refl

bound-Opened :
    (s : Custody) (method principal_id : Text) (claims : Claims) (now : ℕ)
    → (bound s method principal_id claims now).1 ≡ none
    → Opened s method principal_id claims now (bound s method principal_id claims now).0
unfolding bound
bound-Opened s method principal_id claims now =
    let P =
      λ (out : Custody × Option ℕ). out.1 ≡ none → Opened s method principal_id claims now out.0 in
    if-branches P (not (valid_principal principal_id)) (λ _ h. absurd (cc))
      (λ _.
        if-branches P (not (is_for claims method principal_id)) (λ _ h. absurd (cc))
          (λ named h. record {
            named = ground arith;
            unspent = ground arith;
            shares_kept = spend_claims_shares s claims.jti claims.exp now;
          }))

module _ (decrypt : Text → Option Text) where
  released_inv :
      (principal_id q : Text) (r : Release) (share : Share)
      → release_response decrypt principal_id r ≡ share_body q share
      → r ≡ released share
  released_inv principal_id q absent share h = absurd (cc)
  released_inv principal_id q unreadable share h = absurd (cc)
  released_inv principal_id q (released s) share h = let e : s ≡ share = cc in ap released e

  get_bound_inv :
      (principal_id q : Text) (out : Custody × Option ℕ) (share : Share)
      → (get_bound decrypt principal_id out).1 ≡ share_body q share
      → (out.1 ≡ none) × (release_share decrypt out.0.shares principal_id ≡ released share)
  get_bound_inv principal_id q (s, none) share h = (refl, released_inv principal_id q _ share h)
  get_bound_inv principal_id q (s, some status) share h = absurd (cc)

  -- Whenever the route answers with a share: the caller is Mantle's own service, the token names
  -- this method, path and principal, lives no longer than a minute and had not been spent, and
  -- the share is the one that is stored for the principal.
  pub get_share-Opened :
      (s : Custody) (auth : AuthContext) (principal_id : Text) (claims : Claims) (now : ℕ)
      (q : Text) (share : Share)
      → (get_share decrypt s auth principal_id claims now).1 ≡ share_body q share
      → (is_mantle auth ≡ true)
        × Opened s
            (codes "GET")
            principal_id
            claims
            now
            (bound s (codes "GET") principal_id claims now).0
        × (release_share decrypt s.shares principal_id ≡ released share)
  unfolding get_share
  get_share-Opened s auth principal_id claims now q share h = elim (Bool-cases (is_mantle auth)) [
    | inl e ↦
        let (passed, found) =
          get_bound_inv principal_id q (bound s (codes "GET") principal_id claims now) share
            (rw e at h) in
        let token = bound-Opened s (codes "GET") principal_id claims now passed in
        (
          e,
          token,
          ap (λ rows. release_share decrypt rows principal_id) (sym token.shares_kept) ∙ found,
        )
    | inr e ↦ absurd (not_body (rw e at h))
  ]
    where
      not_body : http_error 403 ≡ share_body q share → ⊥
      not_body k = cc

module _ (b64decode decrypt : Text → Option Text) (encrypt : Text → Text)
    (opens : (y : Text) → decrypt (encrypt y) ≡ some y) where
  accepted_inv :
      (principal_id q : Text) (o answered : Outcome)
      → store_response b64decode decrypt encrypt principal_id o ≡ outcome_body q answered
      → is_accepted o ≡ true
  accepted_inv principal_id q stored a h = refl
  accepted_inv principal_id q unchanged a h = refl
  accepted_inv principal_id q replaced a h = refl
  accepted_inv principal_id q share_rejected a h = absurd (cc)
  accepted_inv principal_id q share_conflict a h = absurd (cc)

  put_bound_inv :
      (principal_id q : Text) (share : Presented) (supersedes : Option Text)
      (out : Custody × Option ℕ) (answered : Outcome)
      → (put_bound b64decode decrypt encrypt principal_id share supersedes out).1
        ≡ outcome_body q answered
      → (v : Share) × (validate b64decode share ≡ some v)
        × (release_share decrypt
              (put_bound b64decode decrypt encrypt principal_id share supersedes out).0.shares
              principal_id
            ≡ released v)
  put_bound_inv principal_id q share supersedes (s, some status) answered h = absurd (cc)
  put_bound_inv principal_id q share supersedes (s, none) answered h =
      let taken =
        accepted_inv principal_id q
          (store_share b64decode decrypt s.shares principal_id share encrypt supersedes).1 answered
          h in
      elim (store_share-release b64decode decrypt encrypt opens s.shares principal_id share
        supersedes) [
          | inl (v, valid, _, back) ↦ (v, valid, back)
          | inr (turned_down, _) ↦ absurd (ground arith)
        ]

  put_share_stored :
      (s : Custody) (auth : AuthContext) (principal_id q : Text) (claims : Claims)
      (share : Presented) (supersedes : Option Text) (now : ℕ) (answered : Outcome)
      → (put_share b64decode decrypt encrypt s auth principal_id claims share supersedes now).1
        ≡ outcome_body q answered
      → (v : Share) × (validate b64decode share ≡ some v)
        × (release_share decrypt
              (put_share b64decode decrypt encrypt s auth principal_id claims share supersedes
                now).0.shares
              principal_id
            ≡ released v)
  unfolding put_share
  put_share_stored s auth principal_id q claims share supersedes now answered =
      if-branches
        (λ (out : Custody × Response).
          out.1 ≡ outcome_body q answered
          → (v : Share) × (validate b64decode share ≡ some v)
            × (release_share decrypt out.0.shares principal_id ≡ released v))
        (not (is_mantle auth)) (λ _ h. absurd (cc))
        (λ _ h.
          put_bound_inv principal_id q share supersedes
            (bound s (codes "PUT") principal_id claims now) answered h)

  release_of_get :
      (principal_id : Text) (out : Custody × Option ℕ) (v : Share)
      → out.1 ≡ none
      → release_share decrypt out.0.shares principal_id ≡ released v
      → (get_bound decrypt principal_id out).1 ≡ share_body principal_id v
  release_of_get principal_id (s, none) v p h = ap (release_response decrypt principal_id) h
  release_of_get principal_id (s, some status) v p h = absurd (cc)

  -- The round trip over the routes: after a share was put and the answer was not an error, a
  -- read by Mantle whose token is bound to that call returns the share that was put, provided
  -- that Fernet opens what it sealed.
  pub put_share-get_share :
      (s : Custody) (auth : AuthContext) (principal_id q : Text) (claims : Claims)
      (share : Presented) (supersedes : Option Text) (now : ℕ) (answered : Outcome)
      (reader : AuthContext) (token : Claims) (later : ℕ)
      → (put_share b64decode decrypt encrypt s auth principal_id claims share supersedes now).1
        ≡ outcome_body q answered
      → is_mantle reader ≡ true
      → (bound
          (put_share b64decode decrypt encrypt s auth principal_id claims share supersedes now).0
          (codes "GET")
          principal_id
          token
          later).1
        ≡ none
      → (v : Share) × (validate b64decode share ≡ some v)
        × ((get_share decrypt
              (put_share b64decode decrypt encrypt s auth principal_id claims share supersedes
                now).0
              reader
              principal_id
              token
              later).1
            ≡ share_body principal_id v)
  unfolding get_share
  put_share-get_share s auth principal_id q claims share supersedes now answered reader token later
        h m b =
      let after_put =
        (put_share b64decode decrypt encrypt s auth principal_id claims share supersedes now).0 in
      let (v, valid, back) =
        put_share_stored s auth principal_id q claims share supersedes now answered h in
      let opened = bound-Opened after_put (codes "GET") principal_id token later b in
      (
        v,
        valid,
        rw m (
            release_of_get principal_id (bound after_put (codes "GET") principal_id token later) v b
              (ap (λ rows. release_share decrypt rows principal_id) opened.shares_kept ∙ back)),
      )
