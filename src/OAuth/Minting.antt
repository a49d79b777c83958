-- ===== src/OAuth/Minting.antt =====
-- The codes that are minted after an await.
use agience_origin.Base.{
  ℕ, zero, suc, ◌≡◌, subst, Bool, not, Option, none, some, List, [], ◌∷◌, Text, text_eq,
  if-branches, All, pop, get_elem?,
}
use agience_origin.Person.Store.{Person, Db, Result, ok, raise}
use agience_origin.OAuth.Exchange.{code_stamp, is_set, text_of}
use agience_origin.OAuth.Redirect.{Url}
use agience_origin.OAuth.Flow.{AuthRequest, request_stamp, Flow, prune_flow, AuthConfig, FlowReply}
use agience_origin.OAuth.SignIn.{
  signed_in, UserInfo, callback_finish, google_id, store_code, provider_code,
}
use agience_origin.OAuth.Admitted.{
  put-Values, pop-Values, AdmittedRequest, AdmittedCode, prune-FlowAdmitted,
}
use agience_origin.OAuth.Steps.{Node}
use agience_origin.OAuth.Registering.{NodeAdmitted, Admitted}

module _ (urlparse : Text → Option Url) (cfg : AuthConfig)
    (is_person_allowed : Option Text → Text → Bool) where
  pub finish-Admitted :
      (s : Node) (r : AuthRequest) (provider : Text) (info : Option UserInfo) (now : ℕ)
      (code : Text)
      → NodeAdmitted urlparse cfg s
      → AdmittedRequest urlparse cfg s.clients r
      → Admitted urlparse cfg s
          (callback_finish is_person_allowed s.flow r provider info now code).0
  unfolding callback_finish
  finish-Admitted s r provider none now code n a = n.in_caches
  finish-Admitted s r provider (some info) now code n a =
      let P = λ (out : Flow × FlowReply). Admitted urlparse cfg s out.0 in
      if-branches P (not (is_set info.email)) (λ _. n.in_caches)
        (λ _.
          if-branches P (not (is_person_allowed (google_id provider info) (text_of info.email)))
            (λ _. n.in_caches)
            (λ _.
              let pruned = prune-FlowAdmitted urlparse cfg s.clients s.flow now n.in_caches in
              prune-FlowAdmitted urlparse cfg s.clients
                (store_code (prune_flow now s.flow) code
                  (provider_code is_person_allowed r provider info now))
                now
                (record {
                  requests = pruned.requests;
                  minted =
                      put-Values (AdmittedCode urlparse cfg s.clients) code _ _
                        (record {
                          allowed = a.allowed;
                          known = a.known;
                          good_challenge = a.good_challenge;
                        })
                        pruned.minted;
                })))

  pub signed-Admitted :
      (s : Node) (oauth_state : Text) (r : AuthRequest) (p : Person) (now : ℕ) (code : Text)
      (o : Result Db)
      → NodeAdmitted urlparse cfg s
      → AdmittedRequest urlparse cfg s.clients r
      → Admitted urlparse cfg s (signed_in s.db s.flow oauth_state r p now code o).1
  signed-Admitted s oauth_state r p now code (raise e) n a = n.in_caches
  signed-Admitted s oauth_state r p now code (ok db) n a =
      let popped : Flow = record s.flow {
        pkce_challenges = pop oauth_state s.flow.pkce_challenges;
      } in
      let pruned = prune-FlowAdmitted urlparse cfg s.clients popped now (record {
        requests =
            pop-Values (AdmittedRequest urlparse cfg s.clients) oauth_state s.flow.pkce_challenges
              n.in_caches.requests;
        minted = n.in_caches.minted;
      }) in
      record {
        requests = pruned.requests;
        minted =
            put-Values (AdmittedCode urlparse cfg s.clients) code _ _
              (record { allowed = a.allowed; known = a.known; good_challenge = a.good_challenge })
              pruned.minted;
      }

  pub in_hand_at :
      (s : Node) (i : ℕ) (r : AuthRequest)
      → NodeAdmitted urlparse cfg s
      → get_elem? s.waiting i ≡ some r
      → AdmittedRequest urlparse cfg s.clients r
  in_hand_at s i r n e = at_index s.waiting i n.in_hand e
    where
      at_index :
          (rs : List AuthRequest) (j : ℕ)
          → All (AdmittedRequest urlparse cfg s.clients) rs
          → get_elem? rs j ≡ some r
          → AdmittedRequest urlparse cfg s.clients r
      at_index [] j h f = absurd (cc)
      at_index (q ∷ rs) zero h f =
          let same : q ≡ r = cc in subst (AdmittedRequest urlparse cfg s.clients) same h.0
      at_index (q ∷ rs) (suc j) h f = at_index rs j h.1 f
