-- ===== src/OAuth/Registered.antt =====
-- What a registration promises: every address in it is one that the authorize route will honour.
use agience_origin.Base.{
  ℕ, ◌≡◌, refl, subst, Bool, true, false, not, ◌&&◌, Option, none, some, List, [], ◌∷◌, ◌++◌, Text,
  ◌==◌, text_eq, eq_iff, eq_refl, arith, if-branches, Bool-cases, ◌⊎◌, inl, inr, any,
  first-append_none, In, In-All,
}
use agience_origin.OAuth.Redirect.{
  Url, RedirectConfig, is_allowed_parsed, is_client_redirect_allowed,
  redirect_uri_matches_registered,
}
use agience_origin.OAuth.Matching.{exactly, redirect_uri_matches_registered_iff}
use agience_origin.OAuth.Clients.{OAuthClient, is_client, get_by_client_id, create_client}
use agience_origin.OAuth.Register.{
  RegisterReply, registered, inserted, store_client, register_body, register_client,
}
use agience_origin.OAuth.Metadata.{
  Checked, accepted, refused, invalid_redirect_uri, invalid_client_metadata, uncaught, is_nothing,
  Metadata, validated,
}
use agience_origin.OAuth.Validated.{Accepts, IsDeliverable, Deliverable, validated-Accepts}

module _ (urlparse : Text → Option Url) (cfg : RedirectConfig) where
  -- The registration is in the table, and each of its addresses passes both tests of the authorize
  -- route.
  pub record Honoured (gate_token presented : Text) (enabled : Bool) (clients : List OAuthClient)
      (c : OAuthClient) : Type 0 where
    pub is_enabled : enabled ≡ true
    pub opened : (is_nothing gate_token ≡ true) ⊎ (presented ≡ gate_token)
    pub found : get_by_client_id clients c.client_id ≡ some c
    pub allowed :
        (uri : Text) → In uri c.redirect_uris → is_client_redirect_allowed urlparse cfg uri ≡ true
    pub matched :
        (uri : Text)
        → In uri c.redirect_uris
        → redirect_uri_matches_registered urlparse uri c.redirect_uris ≡ true

  -- An address that is allowed can be read.
  allowed_read :
      (uri : Text)
      → is_client_redirect_allowed urlparse cfg uri ≡ true
      → (u : Url) × (urlparse uri ≡ some u)
  unfolding is_client_redirect_allowed
  allowed_read uri = go (urlparse uri) refl
    where
      go :
          (o : Option Url)
          → urlparse uri ≡ o
          → is_allowed_parsed urlparse cfg o ≡ true
          → (u : Url) × (urlparse uri ≡ some u)
      go none e h = absurd (cc)
      go (some u) e h = (u, e)

  listed_matches :
      (uri : Text) (uris : List Text)
      → IsDeliverable urlparse cfg uri
      → In uri uris
      → redirect_uri_matches_registered urlparse uri uris ≡ true
  listed_matches uri uris good m =
      let (u, e) = allowed_read uri good.1 in
      (redirect_uri_matches_registered_iff urlparse uri u uris e).1
        (record { entry = uri; listed = m; nonempty = good.0; same = exactly refl })

  module _ (clients : List OAuthClient) (enabled : Bool) (gate_token presented : Text) where
    abbrev HonouredBy : List OAuthClient × RegisterReply → Type 0
    HonouredBy out =
        (c : OAuthClient) → out.1 ≡ registered c → Honoured gate_token presented enabled out.0 c

    module _ (on : enabled ≡ true)
        (opened : (is_nothing gate_token ≡ true) ⊎ (presented ≡ gate_token)) where
      inserted-Honoured :
          (c : OAuthClient)
          → Deliverable urlparse cfg c
          → HonouredBy (inserted urlparse cfg clients c (create_client clients c))
      unfolding create_client get_by_client_id
      inserted-Honoured c good =
          if-branches
            (λ (o : Option (List OAuthClient)). HonouredBy (inserted urlparse cfg clients c o))
            (any (is_client c.client_id) clients) (λ taken d e. absurd (cc))
            (λ free d e.
              let same : c ≡ d = cc in
              subst (λ x. Honoured gate_token presented enabled (clients ++ c ∷ []) x) same
                (record {
                  is_enabled = on;
                  opened = opened;
                  found =
                      first-append_none (is_client c.client_id) c clients free
                        (eq_refl c.client_id);
                  allowed =
                      λ uri m. (In-All (IsDeliverable urlparse cfg) uri c.redirect_uris good m).1;
                  matched = λ uri m.
                      listed_matches uri c.redirect_uris
                        (In-All (IsDeliverable urlparse cfg) uri c.redirect_uris good m) m;
                }))

      store-Honoured :
          (o : Checked OAuthClient)
          → Accepts (Deliverable urlparse cfg) o
          → HonouredBy (store_client urlparse cfg clients o)
      store-Honoured (accepted c) a d e = inserted-Honoured c a.held d e
      store-Honoured (refused uncaught) a d e = absurd (cc)
      store-Honoured (refused invalid_redirect_uri) a d e = absurd (cc)
      store-Honoured (refused invalid_client_metadata) a d e = absurd (cc)

      body-Honoured :
          (body : Option Metadata) (token : Text) (now : ℕ)
          → HonouredBy (register_body urlparse cfg clients body token now)
      body-Honoured none token now d e = absurd (cc)
      body-Honoured (some body) token now d e =
          store-Honoured (validated urlparse cfg body token now)
            (validated-Accepts urlparse cfg body token now) d e

    gate_opened :
        (not (is_nothing gate_token) && not (presented == gate_token)) ≡ false
        → (is_nothing gate_token ≡ true) ⊎ (presented ≡ gate_token)
    gate_opened h = elim (Bool-cases (is_nothing gate_token)) [
      | inl e ↦ inl e
      | inr e ↦ inr ((eq_iff presented gate_token).0 (ground arith))
    ]

    -- A registration that is answered with a client was open, or the caller presented the gate's
    -- token; the client stands in the table under its id; and every address in it passes both
    -- tests of the authorize route, the allow-list and the match with the registration.
    pub register_client-Honoured :
        (body : Option Metadata) (token : Text) (now : ℕ) (c : OAuthClient)
        → let out =
            register_client urlparse cfg clients enabled gate_token presented body token now in
          out.1 ≡ registered c → Honoured gate_token presented enabled out.0 c
    unfolding register_client
    register_client-Honoured body token now =
        if-branches HonouredBy (not enabled) (λ off d e. absurd (cc))
          (λ on.
            if-branches HonouredBy (not (is_nothing gate_token) && not (presented == gate_token))
              (λ shut d e. absurd (cc))
              (λ past. body-Honoured (ground arith) (gate_opened past) body token now))
