-- ===== src/OAuth/Registering.antt =====
-- What is held of a process, and that a registration keeps it: it takes nothing from another client.
use agience_origin.Base.{
  ℕ, inl, inr, Bool, not, ◌&&◌, Option, none, some, List, [], ◌∷◌, ◌++◌, Text, ◌==◌, text_eq,
  if-branches, All, All-map, first-append, any,
}
use agience_origin.OAuth.Exchange.{code_stamp}
use agience_origin.OAuth.Redirect.{Url}
use agience_origin.OAuth.Clients.{OAuthClient, is_client, get_by_client_id, create_client}
use agience_origin.OAuth.Metadata.{
  Metadata, Checked, accepted, refused, uncaught, invalid_redirect_uri, invalid_client_metadata,
  is_nothing, validated,
}
use agience_origin.OAuth.Register.{
  register_client, register_body, store_client, inserted, RegisterReply,
}
use agience_origin.OAuth.Flow.{request_stamp, Flow, AuthConfig}
use agience_origin.OAuth.Admitted.{IsAdmitted, AdmittedRequest, FlowAdmitted}
use agience_origin.OAuth.Steps.{Node}

module _ (urlparse : Text → Option Url) (cfg : AuthConfig) where
  pub record NodeAdmitted (s : Node) : Type 0 where
    pub in_caches : FlowAdmitted urlparse cfg s.clients s.flow
    pub in_hand : All (AdmittedRequest urlparse cfg s.clients) s.waiting

  abbrev pub Admitted : Node → Flow → Type 0
  Admitted s flow = FlowAdmitted urlparse cfg s.clients flow

  pub with_flow :
      (s : Node) (flow : Flow)
      → NodeAdmitted s
      → Admitted s flow
      → NodeAdmitted (record s { flow = flow })
  with_flow s flow n f = record { in_caches = f; in_hand = n.in_hand }

  -- A registration takes nothing from another client.
  grown :
      (clients : List OAuthClient) (c : OAuthClient) (client_id redirect_uri : Text)
      (challenge method : Option Text)
      → IsAdmitted urlparse cfg clients client_id redirect_uri challenge method
      → IsAdmitted urlparse cfg (clients ++ c ∷ []) client_id redirect_uri challenge method
  unfolding get_by_client_id
  grown clients c client_id redirect_uri challenge method a = record {
    allowed = a.allowed;
    known = elim a.known [
      | inl own ↦ inl own
      | inr (r, found, matched) ↦
          inr (r, first-append (is_client client_id) r clients (c ∷ []) found, matched)
    ];
    good_challenge = a.good_challenge;
  }

  grown-Node :
      (s : Node) (c : OAuthClient)
      → NodeAdmitted s
      → NodeAdmitted (record s { clients = s.clients ++ c ∷ [] })
  grown-Node s c n = record {
    in_caches = record {
      requests =
          All-map _ _ s.flow.pkce_challenges (λ e a. grown s.clients c _ _ _ _ a)
            n.in_caches.requests;
      minted =
          All-map _ _ s.flow.authorization_codes (λ e a. grown s.clients c _ _ _ _ a)
            n.in_caches.minted;
    };
    in_hand = All-map _ _ s.waiting (λ r a. grown s.clients c _ _ _ _ a) n.in_hand;
  }

  abbrev NodeWith : Node → List OAuthClient × RegisterReply → Type 0
  NodeWith s out = NodeAdmitted (record s { clients = out.0 })

  store-Node :
      (s : Node) (o : Checked OAuthClient)
      → NodeAdmitted s
      → NodeWith s (store_client urlparse cfg.redirects s.clients o)
  unfolding create_client
  store-Node s (refused uncaught) n = n
  store-Node s (refused invalid_redirect_uri) n = n
  store-Node s (refused invalid_client_metadata) n = n
  store-Node s (accepted c) n =
      if-branches
        (λ (o : Option (List OAuthClient)).
          NodeWith s (inserted urlparse cfg.redirects s.clients c o))
        (any (is_client c.client_id) s.clients) (λ taken. n) (λ free. grown-Node s c n)

  body-Node :
      (s : Node) (body : Option Metadata) (token : Text) (now : ℕ)
      → NodeAdmitted s
      → NodeWith s (register_body urlparse cfg.redirects s.clients body token now)
  body-Node s none token now n = n
  body-Node s (some body) token now n =
      store-Node s (validated urlparse cfg.redirects body token now) n

  pub register-Node :
      (s : Node) (enabled : Bool) (gate_token presented : Text) (body : Option Metadata)
      (token : Text) (now : ℕ)
      → NodeAdmitted s
      → NodeWith s (
          register_client urlparse cfg.redirects s.clients enabled gate_token presented body token
            now)
  unfolding register_client
  register-Node s enabled gate_token presented body token now n =
      if-branches (NodeWith s) (not enabled) (λ _. n)
        (λ _.
          if-branches (NodeWith s) (not (is_nothing gate_token) && not (presented == gate_token))
            (λ _. n) (λ _. body-Node s body token now n))
