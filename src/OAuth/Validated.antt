-- ===== src/OAuth/Validated.antt =====
-- What a registration is checked for: each address is one that the authorize route delivers to.
use agience_origin.Base.{
  ℕ, ◌≡◌, refl, true, false, ◌&&◌, Option, none, some, List, [], ◌∷◌, Text, text_eq, arith,
  if-branches, All, strip,
}
use agience_origin.OAuth.Exchange.{is_set}
use agience_origin.OAuth.Redirect.{Url, RedirectConfig, is_client_redirect_allowed}
use agience_origin.OAuth.Clients.{OAuthClient}
use agience_origin.OAuth.Metadata.{
  Field, texts, absent, other_shape, one_text, Checked, accepted, refused, after_check, is_nothing,
  is_absolute, validated_parsed, validated_entry, validated_entries, validated_redirect_uris,
  Metadata, agree, validated,
}

abbrev AcceptedIs : {A : Type 0} → (A → Type 0) → Checked A → Type 0
AcceptedIs P (accepted a) = P a
AcceptedIs P (refused r) = Unit

-- What holds of what was accepted.
pub record Accepts {A : Type 0} (P : A → Type 0) (c : Checked A) : Type 0 where
  pub held : AcceptedIs P c

bind-Accepts :
    {A B : Type 0} (P : A → Type 0) (Q : B → Type 0) (c : Checked A) (f : A → Checked B)
    → Accepts P c
    → ((a : A) → P a → Accepts Q (f a))
    → Accepts Q (after_check c f)
unfolding after_check
bind-Accepts P Q (accepted a) f h k = k a h.held
bind-Accepts P Q (refused r) f h k = record { held = tt }

any_Accepts : {A : Type 0} (c : Checked A) → Accepts (λ a. Unit {0}) c
any_Accepts (accepted a) = record { held = tt }
any_Accepts (refused r) = record { held = tt }

module _ (urlparse : Text → Option Url) (cfg : RedirectConfig) where
  -- An address that the authorize route delivers to.
  abbrev pub IsDeliverable : Text → Type 0
  IsDeliverable uri =
      (is_set (some uri) ≡ true) × (is_client_redirect_allowed urlparse cfg uri ≡ true)

  is_set-uri : (uri : Text) → is_nothing uri ≡ false → is_set (some uri) ≡ true
  is_set-uri [] h = absurd (cc)
  is_set-uri (c ∷ s) h = refl

  validated_parsed-Accepts :
      (uri : Text) (o : Option Url)
      → is_nothing uri ≡ false
      → Accepts IsDeliverable (validated_parsed urlparse cfg uri o)
  validated_parsed-Accepts uri none n = record { held = tt }
  validated_parsed-Accepts uri (some u) n =
      if-branches (Accepts IsDeliverable)
        (is_absolute urlparse cfg u
          && (is_nothing u.fragment && is_client_redirect_allowed urlparse cfg uri))
        (λ good. record { held = (is_set-uri uri n, ground arith) }) (λ bad. record { held = tt })

  validated_entry-Accepts :
      (entry : Option Text) → Accepts IsDeliverable (validated_entry urlparse cfg entry)
  validated_entry-Accepts none = record { held = tt }
  validated_entry-Accepts (some entry) =
      if-branches (Accepts IsDeliverable) (is_nothing (strip entry)) (λ blank. record { held = tt })
        (λ present. validated_parsed-Accepts (strip entry) (urlparse (strip entry)) present)

  validated_entries-Accepts :
      (entries : List (Option Text))
      → Accepts (All IsDeliverable) (validated_entries urlparse cfg entries)
  unfolding validated_entries
  validated_entries-Accepts [] = record { held = tt }
  validated_entries-Accepts (entry ∷ entries) =
      bind-Accepts IsDeliverable (All IsDeliverable) (validated_entry urlparse cfg entry)
        (λ uri.
          after_check (validated_entries urlparse cfg entries) (λ uris. accepted (uri ∷ uris)))
        (validated_entry-Accepts entry)
        (λ uri good.
          bind-Accepts (All IsDeliverable) (All IsDeliverable)
            (validated_entries urlparse cfg entries) (λ uris. accepted (uri ∷ uris))
            (validated_entries-Accepts entries) (λ uris rest. record { held = (good, rest) }))

  validated_redirect_uris-Accepts :
      (field : Field) → Accepts (All IsDeliverable) (validated_redirect_uris urlparse cfg field)
  validated_redirect_uris-Accepts (texts (entry ∷ entries)) =
      validated_entries-Accepts (entry ∷ entries)
  validated_redirect_uris-Accepts (texts []) = record { held = tt }
  validated_redirect_uris-Accepts absent = record { held = tt }
  validated_redirect_uris-Accepts other_shape = record { held = tt }
  validated_redirect_uris-Accepts (one_text s) = record { held = tt }

  abbrev pub Deliverable : OAuthClient → Type 0
  Deliverable c = All IsDeliverable c.redirect_uris

  pub validated-Accepts :
      (body : Metadata) (token : Text) (now : ℕ)
      → Accepts Deliverable (validated urlparse cfg body token now)
  unfolding validated
  validated-Accepts body token now =
      bind-Accepts (All IsDeliverable) Deliverable
        (validated_redirect_uris urlparse cfg body.redirect_uris) _
        (validated_redirect_uris-Accepts body.redirect_uris)
        (λ uris good.
          bind-Accepts (λ x. Unit {0}) Deliverable _ _ (any_Accepts _)
            (λ grants _.
              bind-Accepts (λ x. Unit {0}) Deliverable _ _ (any_Accepts _)
                (λ responses _.
                  if-branches (Accepts Deliverable) (agree grants responses)
                    (λ _.
                      bind-Accepts (λ x. Unit {0}) Deliverable _ _ (any_Accepts _)
                        (λ method _.
                          bind-Accepts (λ x. Unit {0}) Deliverable _ _ (any_Accepts _)
                            (λ name _. record { held = good })))
                    (λ _. record { held = tt }))))
