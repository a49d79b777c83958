-- ===== src/OAuth/Metadata.antt =====
-- routers/auth_router.py: the checks on what a client says of itself when it registers. The request's
-- body is read: a field is absent, of another shape, or a list or a text. Texts are ASCII.
use agience_origin.Base.{
  ℕ, Bool, true, false, not, ◌&&◌, ◌||◌, Option, none, some, List, [], ◌∷◌, ◌++◌, Text, codes, ◌==◌,
  text_eq, nat_eq, ltb, if◌then◌else◌, all, length, strip,
}
use agience_origin.OAuth.Redirect.{Url, RedirectConfig, is_client_redirect_allowed, is_member}
use agience_origin.OAuth.Clients.{OAuthClient}

-- A field of the body: a text entry is some, an entry of another type is none.
pub data Field : Type 0 where
  absent : Field
  other_shape : Field
  texts : List (Option Text) → Field
  one_text : Text → Field

pub data Refusal : Type 0 where
  invalid_redirect_uri invalid_client_metadata : Refusal
  -- an exception that nothing catches
  uncaught : Refusal

pub data Checked (A : Type 0) : Type 0 where
  accepted : A → Checked A
  refused : Refusal → Checked A

unfoldable pub after_check : {A B : Type 0} → Checked A → (A → Checked B) → Checked B
after_check (accepted a) f = f a
after_check (refused r) f = refused r

abbrev pub is_nothing : {A : Type 0} → List A → Bool
is_nothing [] = true
is_nothing (a ∷ as') = false

module _ (urlparse : Text → Option Url) (cfg : RedirectConfig) where
  abbrev pub is_absolute : Url → Bool
  is_absolute u = not (is_nothing u.scheme) && not (is_nothing u.netloc)

  abbrev pub validated_parsed : Text → Option Url → Checked Text
  validated_parsed uri none = refused uncaught
  validated_parsed uri (some u) =
      if is_absolute u && (is_nothing u.fragment && is_client_redirect_allowed urlparse cfg uri)
      then accepted uri
      else refused invalid_redirect_uri

  abbrev pub validated_entry : Option Text → Checked Text
  validated_entry none = refused invalid_redirect_uri
  validated_entry (some entry) =
      let uri = strip entry in
      if is_nothing uri then refused invalid_redirect_uri else validated_parsed uri (urlparse uri)

  unfoldable pub validated_entries : List (Option Text) → Checked (List Text)
  validated_entries [] = accepted []
  validated_entries (entry ∷ entries) =
      let rest = validated_entries entries in
      after_check (validated_entry entry) (λ uri. after_check rest (λ uris. accepted (uri ∷ uris)))

  abbrev pub validated_redirect_uris : Field → Checked (List Text)
  validated_redirect_uris (texts (entry ∷ entries)) = validated_entries (entry ∷ entries)
  validated_redirect_uris _ = refused invalid_redirect_uri

abbrev pub text_ltb : Text → Text → Bool
text_ltb [] [] = false
text_ltb [] (b ∷ t) = true
text_ltb (a ∷ s) [] = false
text_ltb (a ∷ s) (b ∷ t) = ltb a b || (a == b && text_ltb s t)

-- sorted(set(xs))
abbrev pub insert_sorted : Text → List Text → List Text
insert_sorted x [] = x ∷ []
insert_sorted x (y ∷ ys) =
    let rest = insert_sorted x ys in
    if x == y then y ∷ ys else if text_ltb x y then x ∷ y ∷ ys else y ∷ rest

abbrev pub sorted_set : List Text → List Text
sorted_set [] = []
sorted_set (x ∷ xs) = insert_sorted x (sorted_set xs)

-- The entries, where all of them are texts.
abbrev pub all_texts : List (Option Text) → Option (List Text)
all_texts [] = some []
all_texts (none ∷ entries) = none
all_texts (some s ∷ entries) = elim (all_texts entries) [ none ↦ none | some ss ↦ some (s ∷ ss) ]

abbrev pub validated_texts : List Text → Option (List Text) → Checked (List Text)
validated_texts permitted none = refused invalid_client_metadata
validated_texts permitted (some values) =
    if all (is_member permitted) values
    then accepted (sorted_set values)
    else refused invalid_client_metadata

unfoldable pub validated_string_list : Field → List Text → List Text → Checked (List Text)
validated_string_list absent permitted default = accepted default
validated_string_list (texts (entry ∷ entries)) permitted default =
    validated_texts permitted (all_texts (entry ∷ entries))
validated_string_list _ permitted default = refused invalid_client_metadata

unfoldable pub validated_client_name : Field → Checked (Option Text)
validated_client_name absent = accepted none
validated_client_name (one_text raw) =
    let name = strip raw in
    if is_nothing name
    then accepted none
    else if ltb 256 (length name)
    then refused invalid_client_metadata
    else accepted (some name)
validated_client_name _ = refused invalid_client_metadata

abbrev pub validated_auth_method : Field → Checked Text
validated_auth_method absent = accepted (codes "none")
validated_auth_method (one_text m) =
    if m == codes "none" then accepted (codes "none") else refused invalid_client_metadata
validated_auth_method _ = refused invalid_client_metadata

pub record Metadata : Type 0 where
  pub redirect_uris : Field
  pub grant_types : Field
  pub response_types : Field
  pub token_endpoint_auth_method : Field
  pub client_name : Field

abbrev pub registrable_grant_types : List Text
registrable_grant_types = codes "authorization_code" ∷ codes "refresh_token" ∷ []

abbrev pub registrable_response_types : List Text
registrable_response_types = codes "code" ∷ []

abbrev pub same_truth : Bool → Bool → Bool
same_truth true b = b
same_truth false b = not b

-- The code grant and the code response type go together.
abbrev pub agree : List Text → List Text → Bool
agree grants responses =
    same_truth (is_member grants (codes "authorization_code")) (is_member responses (codes "code"))

abbrev pub dcr_client_id_prefix : Text
dcr_client_id_prefix = codes "dcr_"

module _ (urlparse : Text → Option Url) (cfg : RedirectConfig) where
  -- The row of a client, without its id and its time.
  unfoldable pub validated : Metadata → Text → ℕ → Checked OAuthClient
  validated body token now =
      after_check (validated_redirect_uris urlparse cfg body.redirect_uris) (λ uris.
        after_check
          (validated_string_list body.grant_types registrable_grant_types
            (codes "authorization_code" ∷ []))
          (λ grants.
            after_check
              (validated_string_list body.response_types registrable_response_types
                (codes "code" ∷ []))
              (λ responses.
                if agree grants responses
                then after_check (validated_auth_method body.token_endpoint_auth_method) (λ method.
                  after_check (validated_client_name body.client_name) (λ name. accepted (record {
                    client_id = dcr_client_id_prefix ++ token;
                    client_name = name;
                    redirect_uris = uris;
                    grant_types = grants;
                    response_types = responses;
                    token_endpoint_auth_method = method;
                    client_id_issued_at = now;
                  })))
                else refused invalid_client_metadata)))
