-- ===== src/OAuth/Returning.antt =====
-- The requests that a route reads before an await are among those that were kept.
use agience_origin.Base.{
  ◌≡◌, refl, subst, Bool, not, ◌||◌, Option, none, some, [], ◌∷◌, Text, codes, ◌==◌, text_eq, arith,
  if◌then◌else◌, if-branches, All-append, get,
}
use agience_origin.OAuth.Exchange.{code_stamp, is_set}
use agience_origin.OAuth.Redirect.{Url}
use agience_origin.OAuth.Flow.{
  AuthRequest, request_stamp, Flow, AuthConfig, FlowReply, local_provider, is_known_provider,
  or_text,
}
use agience_origin.OAuth.SignIn.{
  pop_local_auth_request, sent_to_provider, Callback, callback_error, asked, callback_begin,
  is_other_issuer,
}
use agience_origin.OAuth.Admitted.{get-Values, put-Values, AdmittedRequest}
use agience_origin.OAuth.Steps.{Node, waits, request_of}
use agience_origin.OAuth.Registering.{NodeAdmitted, Admitted}

module _ (urlparse : Text → Option Url) (cfg : AuthConfig) (has_client : Text → Bool) where
  pub federate-Admitted :
      (s : Node) (oauth_state provider : Text) (o : Option AuthRequest)
      → NodeAdmitted urlparse cfg s
      → ((r : AuthRequest) → o ≡ some r → AdmittedRequest urlparse cfg s.clients r)
      → Admitted urlparse cfg s (sent_to_provider has_client cfg s.flow oauth_state provider o).0
  federate-Admitted s oauth_state provider none n k = n.in_caches
  federate-Admitted s oauth_state provider (some r) n k =
      let P = λ (out : Flow × FlowReply). Admitted urlparse cfg s out.0 in
      if-branches P (provider == local_provider || not (is_known_provider cfg provider))
        (λ _. n.in_caches)
        (λ _.
          if-branches P (not (has_client provider)) (λ _. n.in_caches)
            (λ _.
              let a = k r refl in
              record {
                requests =
                    put-Values (AdmittedRequest urlparse cfg s.clients) oauth_state _
                      s.flow.pkce_challenges
                      (record {
                        allowed = a.allowed;
                        known = a.known;
                        good_challenge = a.good_challenge;
                      })
                      n.in_caches.requests;
                minted = n.in_caches.minted;
              }))

  -- The pending request of a local sign-in is one of the cache.
  pub local-Admitted :
      (s : Node) (oauth_state : Text)
      → NodeAdmitted urlparse cfg s
      → (r : AuthRequest) → pop_local_auth_request s.flow oauth_state ≡ some r
      → AdmittedRequest urlparse cfg s.clients r
  unfolding pop_local_auth_request
  local-Admitted s oauth_state n r = go (get oauth_state s.flow.pkce_challenges) refl
    where
      go :
          (o : Option AuthRequest)
          → get oauth_state s.flow.pkce_challenges ≡ o
          → (elim o [
            | none ↦ none
            | some q ↦ if q.provider == local_provider then some q else none
          ])
            ≡ some r
          → AdmittedRequest urlparse cfg s.clients r
      go none e h = absurd (cc)
      go (some q) e h =
          let same : q ≡ r = ground arith in
          subst (AdmittedRequest urlparse cfg s.clients) same (
            get-Values (AdmittedRequest urlparse cfg s.clients) oauth_state q s.flow.pkce_challenges
              n.in_caches.requests e)

  pub waits-Admitted :
      (s : Node) (o : Option AuthRequest)
      → NodeAdmitted urlparse cfg s
      → ((r : AuthRequest) → o ≡ some r → AdmittedRequest urlparse cfg s.clients r)
      → NodeAdmitted urlparse cfg (waits s o)
  waits-Admitted s none n k = n
  waits-Admitted s (some r) n k = record {
    in_caches = n.in_caches;
    in_hand =
        All-append (AdmittedRequest urlparse cfg s.clients) s.waiting (r ∷ []) n.in_hand
          (k r refl, tt);
  }

  -- The request that /callback asks the provider about is one of the cache.
  asked-Admitted :
      (r : AuthRequest) (iss : Option Text) (q : AuthRequest)
      → request_of (asked has_client r iss) ≡ some q
      → r ≡ q
  asked-Admitted r iss q =
      let P = λ (c : Callback). request_of c ≡ some q → r ≡ q in
      if-branches P (is_other_issuer r.expected_iss iss) (λ _ h. absurd (cc))
        (λ _.
          if-branches P (not (has_client (or_text (some r.provider) (codes "google"))))
            (λ _ h. absurd (cc)) (λ _ h. cc))

  pub callback-Admitted :
      (s : Node) (state iss : Option Text)
      → NodeAdmitted urlparse cfg s
      → (r : AuthRequest) → request_of (callback_begin has_client s.flow state iss) ≡ some r
      → AdmittedRequest urlparse cfg s.clients r
  unfolding callback_begin
  callback-Admitted s none iss n r = λ h. absurd (cc)
  callback-Admitted s (some state) iss n r = go (get state s.flow.pkce_challenges) refl
    where
      go :
          (o : Option AuthRequest)
          → get state s.flow.pkce_challenges ≡ o
          → request_of (elim o [
            | none ↦ callback_error 400
            | some q ↦ if is_set (some state) then asked has_client q iss else callback_error 400
          ])
            ≡ some r
          → AdmittedRequest urlparse cfg s.clients r
      go none e = λ h. absurd (cc)
      go (some q) e =
          if-branches
            (λ (c : Callback). request_of c ≡ some r → AdmittedRequest urlparse cfg s.clients r)
            (is_set (some state))
            (λ _ h. subst (AdmittedRequest urlparse cfg s.clients) (asked-Admitted q iss r h) (
              get-Values (AdmittedRequest urlparse cfg s.clients) state q s.flow.pkce_challenges
                n.in_caches.requests e))
            (λ _ h. absurd (cc))
