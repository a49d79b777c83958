-- ===== src/OAuth/Admitted.antt =====
-- What the authorize route checks of a request before it keeps it, and what the caches keep of it.
use agience_origin.Base.{
  ℕ, ◌+◌, ◌≡◌, refl, subst, ◌⊎◌, inl, inr, Bool, true, false, not, ◌&&◌, ◌||◌, Option, none, some,
  List, [], ◌∷◌, Text, codes, ◌==◌, text_eq, arith, if-branches, Bool-cases, All, get, put, pop,
  ltb, length,
}
use agience_origin.OAuth.Exchange.{
  AuthData, code_stamp, Stamped, is_expired, fresh, trim, prune_auth_cache, auth_cache_max_items,
}
use agience_origin.OAuth.Redirect.{Url, is_client_redirect_allowed, redirect_uri_matches_registered}
use agience_origin.OAuth.Clients.{OAuthClient, get_by_client_id}
use agience_origin.OAuth.Flow.{
  AuthRequest, request_stamp, Flow, prune_flow, AuthConfig, AuthorizeQuery, is_first_party_client,
  is_good_challenge, is_local_choice, is_known_provider, provider_name, has_providers, new_request,
  is_bound, is_unknown, start, authorize, FlowReply,
}

-- Of every value of a dictionary.
abbrev pub Values : {V : Type 0} → (V → Type 0) → List (Text × V) → Type 0
Values P m = All (λ e. P e.1) m

module _ {V : Type 0} (P : V → Type 0) where
  pub get-Values : (k : Text) (v : V) (m : List (Text × V)) → Values P m → get k m ≡ some v → P v
  unfolding get
  get-Values k v [] h e = absurd (cc)
  get-Values k v ((j, w) ∷ m) h e = elim (Bool-cases (j == k)) [
    | inl hit ↦ let same : w ≡ v = ground arith in subst P same h.0
    | inr miss ↦ get-Values k v m h.1 (ground arith)
  ]

  pub put-Values :
      (k : Text) (v : V) (m : List (Text × V)) → P v → Values P m → Values P (put k v m)
  unfolding put
  put-Values k v [] p h = (p, tt)
  put-Values k v ((j, w) ∷ m) p h =
      if-branches (Values P) (j == k) (λ yes. (p, h.1)) (λ miss. (h.0, put-Values k v m p h.1))

  pub pop-Values : (k : Text) (m : List (Text × V)) → Values P m → Values P (pop k m)
  unfolding pop
  pop-Values k [] h = tt
  pop-Values k ((j, w) ∷ m) h =
      if-branches (Values P) (j == k) (λ yes. pop-Values k m h.1)
        (λ miss. (h.0, pop-Values k m h.1))

  module _ ⦃stamped : Stamped V⦄ where
    fresh-Values : (now : ℕ) (m : List (Text × V)) → Values P m → Values P (fresh now m)
    unfolding fresh
    fresh-Values now [] h = tt
    fresh-Values now ((j, w) ∷ m) h =
        if-branches (Values P) (is_expired now w) (λ old. fresh-Values now m h.1)
          (λ young. (h.0, fresh-Values now m h.1))

    trim-Values : (m : List (Text × V)) → Values P m → Values P (trim m)
    unfolding trim
    trim-Values [] h = tt
    trim-Values ((j, w) ∷ m) h =
        if-branches (Values P) (ltb auth_cache_max_items (length m + 1)) (λ full. trim-Values m h.1)
          (λ fits. h)

    pub prune-Values :
        (now : ℕ) (m : List (Text × V)) → Values P m → Values P (prune_auth_cache now m)
    prune-Values now m h = trim-Values (fresh now m) (fresh-Values now m h)

module _ (urlparse : Text → Option Url) (cfg : AuthConfig) where
  -- The client may have a code at the address, bound to the challenge.
  pub record IsAdmitted (clients : List OAuthClient) (client_id redirect_uri : Text)
      (challenge method : Option Text) : Type 0 where
    pub allowed : is_client_redirect_allowed urlparse cfg.redirects redirect_uri ≡ true
    pub known :
        (is_first_party_client cfg client_id ≡ true)
        ⊎ ((c : OAuthClient) × (get_by_client_id clients client_id ≡ some c)
            × (redirect_uri_matches_registered urlparse redirect_uri c.redirect_uris ≡ true))
    pub good_challenge : is_good_challenge challenge method ≡ true

  abbrev pub AdmittedRequest : List OAuthClient → AuthRequest → Type 0
  AdmittedRequest clients r =
      IsAdmitted clients r.client_id r.redirect_uri r.code_challenge r.code_challenge_method

  abbrev pub AdmittedCode : List OAuthClient → AuthData → Type 0
  AdmittedCode clients d =
      IsAdmitted clients d.client_id d.redirect_uri d.code_challenge d.code_challenge_method

  pub record FlowAdmitted (clients : List OAuthClient) (flow : Flow) : Type 0 where
    pub requests : Values (AdmittedRequest clients) flow.pkce_challenges
    pub minted : Values (AdmittedCode clients) flow.authorization_codes

  pub prune-FlowAdmitted :
      (clients : List OAuthClient) (flow : Flow) (now : ℕ)
      → FlowAdmitted clients flow
      → FlowAdmitted clients (prune_flow now flow)
  prune-FlowAdmitted clients flow now f = record {
    requests = prune-Values (AdmittedRequest clients) now flow.pkce_challenges f.requests;
    minted = prune-Values (AdmittedCode clients) now flow.authorization_codes f.minted;
  }

  module _ (has_client : Text → Bool) (clients : List OAuthClient) (flow : Flow)
      (q : AuthorizeQuery) (now : ℕ) (oauth_state : Text) (f : FlowAdmitted clients flow) where
    abbrev Kept : Flow × FlowReply → Type 0
    Kept out = FlowAdmitted clients out.0

    known_client :
        (registration : Option OAuthClient)
        → get_by_client_id clients q.client_id ≡ registration
        → is_unknown urlparse has_client cfg q registration ≡ false
        → (not (is_first_party_client cfg q.client_id)
            && not (is_bound urlparse has_client q registration))
          ≡ false
        → (is_first_party_client cfg q.client_id ≡ true)
          ⊎ ((c : OAuthClient) × (get_by_client_id clients q.client_id ≡ some c)
              × (redirect_uri_matches_registered urlparse q.redirect_uri c.redirect_uris ≡ true))
    known_client none e k b = inl (ground arith)
    known_client (some c) e k b = elim (Bool-cases (is_first_party_client cfg q.client_id)) [
      | inl own ↦ inl own
      | inr other ↦ inr (c, e, ground arith)
    ]

    start-Kept :
        AdmittedRequest clients (new_request cfg q now)
        → Kept (start urlparse has_client cfg flow q now oauth_state)
    start-Kept a =
        let pruned = prune-FlowAdmitted clients flow now f in
        record {
          requests =
              put-Values (AdmittedRequest clients) oauth_state (new_request cfg q now) _ a
                pruned.requests;
          minted = pruned.minted;
        }

    pub authorize-Kept : Kept (authorize urlparse has_client cfg clients flow q now oauth_state)
    unfolding authorize
    authorize-Kept =
        let registration = get_by_client_id clients q.client_id in
        if-branches Kept (not (q.response_type == codes "code")) (λ _. f)
          (λ _.
            if-branches Kept (is_unknown urlparse has_client cfg q registration) (λ _. f)
              (λ k.
                if-branches Kept
                  (not (is_client_redirect_allowed urlparse cfg.redirects q.redirect_uri)) (λ _. f)
                  (λ a.
                    if-branches Kept
                      (not (is_first_party_client cfg q.client_id)
                        && not (is_bound urlparse has_client q registration))
                      (λ _. f)
                      (λ b.
                        if-branches Kept
                          (not (is_good_challenge q.code_challenge q.code_challenge_method))
                          (λ _. f)
                          (λ g.
                            if-branches Kept
                              (not (is_local_choice q.provider)
                                && not (is_known_provider cfg (provider_name q.provider)))
                              (λ _. f)
                              (λ _.
                                if-branches Kept
                                  (is_local_choice q.provider
                                    && not (cfg.password_ok || (cfg.otp_ok || has_providers cfg)))
                                  (λ _. f)
                                  (λ _. start-Kept (record {
                                    allowed = ground arith;
                                    known = known_client registration refl k b;
                                    good_challenge = ground arith;
                                  }))))))))
