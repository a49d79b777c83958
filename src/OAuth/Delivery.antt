-- ===== src/OAuth/Delivery.antt =====
-- The routes of the flow in any order, also while others wait for a provider or a key derivation: a code
-- is only ever minted for a client that may have it, at an address that may receive it.
use agience_origin.Base.{
  ℕ, ◌≡◌, refl, sym, subst, ◌⊎◌, Bool, true, Option, none, some, List, [], ◌∷◌, Text, text_eq,
  if-branches, get, get_elem?, is_some,
}
use agience_origin.Person.Store.{Person, Db}
use agience_origin.OAuth.Exchange.{AuthData, code_stamp, granted, grant_authorization_code}
use agience_origin.OAuth.Granted.{Rightful, grant_authorization_code-Rightful}
use agience_origin.OAuth.Redirect.{Url, is_client_redirect_allowed, redirect_uri_matches_registered}
use agience_origin.OAuth.Clients.{OAuthClient, get_by_client_id}
use agience_origin.OAuth.Flow.{AuthRequest, request_stamp, AuthConfig, is_first_party_client}
use agience_origin.OAuth.SignIn.{
  pop_local_auth_request, authorize_federate, complete_local_signin, with_local_identity,
  callback_begin, UserInfo,
}
use agience_origin.OAuth.Admitted.{
  Values, get-Values, prune-Values, IsAdmitted, AdmittedRequest, AdmittedCode, authorize-Kept,
}
use agience_origin.OAuth.Steps.{
  Node, Step, started, request_of, authorizing, federating, returning, answered, local_start,
  local_end, exchanging, registering, finished, signed, step, run,
}
use agience_origin.OAuth.Registering.{NodeAdmitted, with_flow, register-Node}
use agience_origin.OAuth.Exchanging.{grant-Kept}
use agience_origin.OAuth.Returning.{
  federate-Admitted, local-Admitted, waits-Admitted, callback-Admitted,
}
use agience_origin.OAuth.Minting.{finish-Admitted, signed-Admitted, in_hand_at}

module _ (urlparse : Text → Option Url) (cfg : AuthConfig) (has_client : Text → Bool)
    (is_person_allowed : Option Text → Text → Bool) (s256 : Text → Text) where
  finished-Node :
      (s : Node) (provider : Text) (info : Option UserInfo) (now : ℕ) (code : Text)
      (o : Option AuthRequest)
      → NodeAdmitted urlparse cfg s
      → ((r : AuthRequest) → o ≡ some r → AdmittedRequest urlparse cfg s.clients r)
      → NodeAdmitted urlparse cfg
          (finished urlparse cfg has_client is_person_allowed s256 s provider info now code o)
  finished-Node s provider info now code none n k = n
  finished-Node s provider info now code (some r) n k =
      with_flow urlparse cfg s _ n
        (finish-Admitted urlparse cfg is_person_allowed s r provider info now code n (k r refl))

  signed-Node :
      (s : Node) (oauth_state : Text) (p : Person) (now : ℕ) (code : Text) (o : Option AuthRequest)
      → NodeAdmitted urlparse cfg s
      → ((r : AuthRequest) → o ≡ some r → AdmittedRequest urlparse cfg s.clients r)
      → NodeAdmitted urlparse cfg
          (signed urlparse cfg has_client is_person_allowed s256 s oauth_state p now code o)
  unfolding complete_local_signin
  signed-Node s oauth_state p now code none n k = n
  signed-Node s oauth_state p now code (some r) n k = record {
    in_caches =
        signed-Admitted urlparse cfg is_person_allowed s oauth_state r p now code
          (with_local_identity s.db p now) n (k r refl);
    in_hand = n.in_hand;
  }

  step-Node :
      (s : Node) (e : Step)
      → NodeAdmitted urlparse cfg s
      → NodeAdmitted urlparse cfg (step urlparse cfg has_client is_person_allowed s256 s e)
  unfolding step authorize_federate grant_authorization_code
  step-Node s (authorizing q now oauth_state) n =
      with_flow urlparse cfg s _ n
        (authorize-Kept urlparse cfg has_client s.clients s.flow q now oauth_state n.in_caches)
  step-Node s (federating oauth_state provider) n = with_flow urlparse cfg s _ n (
      federate-Admitted urlparse cfg has_client s oauth_state provider
        (pop_local_auth_request s.flow oauth_state) n
        (local-Admitted urlparse cfg has_client s oauth_state n))
  step-Node s (returning state iss) n =
      waits-Admitted urlparse cfg has_client s
        (request_of (callback_begin has_client s.flow state iss)) n
        (callback-Admitted urlparse cfg has_client s state iss n)
  step-Node s (answered i provider info now code) n =
      finished-Node s provider info now code (get_elem? s.waiting i) n
        (λ r e. in_hand_at urlparse cfg is_person_allowed s i r n e)
  step-Node s (local_start oauth_state) n =
      waits-Admitted urlparse cfg has_client s (pop_local_auth_request s.flow oauth_state) n
        (local-Admitted urlparse cfg has_client s oauth_state n)
  step-Node s (local_end i oauth_state p now code) n =
      signed-Node s oauth_state p now code (get_elem? s.waiting i) n
        (λ r e. in_hand_at urlparse cfg is_person_allowed s i r n e)
  step-Node s (exchanging code redirect_uri client_id verifier now later) n =
      with_flow urlparse cfg s _ n (record {
        requests =
            if-branches (Values (AdmittedRequest urlparse cfg s.clients))
              (is_some (get code s.flow.authorization_codes))
              (λ _.
                prune-Values (AdmittedRequest urlparse cfg s.clients) now s.flow.pkce_challenges
                  n.in_caches.requests)
              (λ _. n.in_caches.requests);
        minted =
            grant-Kept s256 (AdmittedCode urlparse cfg s.clients) code s.flow.authorization_codes
              (get code s.flow.authorization_codes) redirect_uri client_id verifier now later
              n.in_caches.minted;
      })
  step-Node s (registering enabled gate_token presented body token now) n =
      register-Node urlparse cfg s enabled gate_token presented body token now n

  run-Node :
      (es : List Step) (s : Node)
      → NodeAdmitted urlparse cfg s
      → NodeAdmitted urlparse cfg (run urlparse cfg has_client is_person_allowed s256 s es)
  unfolding run
  run-Node [] s n = n
  run-Node (e ∷ es) s n =
      run-Node es (step urlparse cfg has_client is_person_allowed s256 s e) (step-Node s e n)

  -- From a process that has just started, after any steps of the routes in any order and however
  -- they interleave at their awaits, an exchange that goes through is for an address that the
  -- allow-list admits and for a client that the operator configured or that is registered with
  -- an address that matches; the challenge the code is bound to, if there is one, has a method
  -- and its length; and client, address, time and verifier are the code's own.
  pub run-delivers :
      (clients : List OAuthClient) (db : Db) (es : List Step) (code redirect_uri client_id : Text)
      (verifier : Option Text) (now later : ℕ) (d : AuthData)
      → let s = run urlparse cfg has_client is_person_allowed s256 (started clients db) es in
        (grant_authorization_code s256 s.flow.authorization_codes code redirect_uri client_id
            verifier now later).1
          ≡ granted d
        → IsAdmitted urlparse cfg s.clients client_id redirect_uri d.code_challenge
            d.code_challenge_method
          × Rightful s256 d redirect_uri client_id verifier later
  run-delivers clients db es code redirect_uri client_id verifier now later d h =
      let s = run urlparse cfg has_client is_person_allowed s256 (started clients db) es in
      let n =
        run-Node es (started clients db)
          (record { in_caches = record { requests = tt; minted = tt }; in_hand = tt }) in
      let (found, gone, right) =
        grant_authorization_code-Rightful s256 s.flow.authorization_codes code redirect_uri
          client_id verifier now later d h in
      let a : AdmittedCode urlparse cfg s.clients d =
        get-Values (AdmittedCode urlparse cfg s.clients) code d s.flow.authorization_codes
          n.in_caches.minted found in
      (
        record {
          allowed =
              subst (λ x. is_client_redirect_allowed urlparse cfg.redirects x ≡ true)
                (sym right.same_redirect) a.allowed;
          known =
              subst
                (λ x.
                  (is_first_party_client cfg x ≡ true)
                  ⊎ ((c : OAuthClient) × (get_by_client_id s.clients x ≡ some c)
                      × (redirect_uri_matches_registered urlparse redirect_uri c.redirect_uris
                          ≡ true)))
                (sym right.same_client)
                (subst
                  (λ x.
                    (is_first_party_client cfg d.client_id ≡ true)
                    ⊎ ((c : OAuthClient) × (get_by_client_id s.clients d.client_id ≡ some c)
                        × (redirect_uri_matches_registered urlparse x c.redirect_uris ≡ true)))
                  (sym right.same_redirect) a.known);
          good_challenge = a.good_challenge;
        },
        right,
      )
