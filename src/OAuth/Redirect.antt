-- ===== src/OAuth/Redirect.antt =====
-- services/auth_service.py: where a code may be delivered at all, and where that of one client may.
-- urlparse is a parameter: the parts of an address, or nothing where it raises. The settings hold lists.
use agience_origin.Base.{
  ℕ, Bool, true, false, not, ◌&&◌, ◌||◌, Option, none, some, List, [], ◌∷◌, ◌++◌, Text, codes, ◌==◌,
  text_eq, nat_eq, leb, if◌then◌else◌, any, lower,
}
use agience_origin.Settings.Keys.{starts_with}
use agience_origin.OAuth.Exchange.{is_set, text_of}

pub record Url : Type 0 where
  pub scheme : Text
  pub netloc : Text
  pub hostname : Option Text
  pub path : Text
  pub query : Text
  pub fragment : Text
  pub username : Option Text

pub record RedirectConfig : Type 0 where
  pub facet_uri : Text
  pub origin_uri : Text
  pub facet_uris : List Text

abbrev pub loopback_redirect_hosts : List Text
loopback_redirect_hosts = codes "127.0.0.1" ∷ codes "localhost" ∷ []

abbrev pub is_member : List Text → Text → Bool
is_member names s = any (λ x. x == s) names

abbrev pub is_loopback : Text → Bool
is_loopback host = is_member loopback_redirect_hosts host

-- uri.rstrip("/")
abbrev pub without_slashes : Text → Text
without_slashes [] = []
without_slashes (c ∷ s) =
    let rest = without_slashes s in
    if c == 47 then elim rest [ [] ↦ [] | d ∷ r ↦ c ∷ d ∷ r ] else c ∷ rest

abbrev pub extra_bases : List Text → List Text
extra_bases [] = []
extra_bases (u ∷ us) = elim u [
  | [] ↦ extra_bases us
  | c ∷ s ↦ without_slashes (c ∷ s) ∷ extra_bases us
]

abbrev pub allowed_bases : RedirectConfig → List Text
allowed_bases cfg = cfg.facet_uri ∷ cfg.origin_uri ∷ extra_bases cfg.facet_uris

abbrev pub always_allowed : List Text
always_allowed = codes "https://vscode.dev" ∷ codes "https://oauth.pstmn.io" ∷ []

abbrev pub is_local_uri : Text → Bool
is_local_uri uri =
    starts_with (codes "http://localhost") uri || starts_with (codes "http://127.0.0.1") uri

abbrev pub is_digit_from : ℕ → ℕ → Bool
is_digit_from low c = leb low c && leb c 57

-- The ports 3000 to 8999.
abbrev pub is_development_port : Text → Bool
is_development_port (a ∷ b ∷ c ∷ d ∷ []) =
    leb 51 a && (leb a 56 && (is_digit_from 48 b && (is_digit_from 48 c && is_digit_from 48 d)))
is_development_port _ = false

-- base in ["http://localhost:3000", …]
abbrev pub after_prefix : Text → Text → Option Text
after_prefix [] s = some s
after_prefix (a ∷ p) [] = none
after_prefix (a ∷ p) (b ∷ s) = if a == b then after_prefix p s else none

abbrev pub is_development_base : Text → Bool
is_development_base base = elim (after_prefix (codes "http://localhost:") base) [
  | none ↦ false
  | some port ↦ is_development_port port
]

abbrev pub base_url : Url → Text
base_url u = u.scheme ++ codes "://" ++ u.netloc

abbrev pub is_web : Url → Bool
is_web u = u.scheme == codes "http" || u.scheme == codes "https"

abbrev pub is_allowed_url : RedirectConfig → Url → Bool
is_allowed_url cfg u =
    is_web u
    && (is_member (allowed_bases cfg) (base_url u)
        || ((is_local_uri cfg.origin_uri || is_local_uri cfg.facet_uri)
              && is_development_base (base_url u)
            || (is_member always_allowed (base_url u)
                || (u.scheme == codes "http"
                    && elim u.hostname [ none ↦ false | some h ↦ is_loopback h ]))))

module _ (urlparse : Text → Option Url) where
  abbrev pub is_allowed_parsed : RedirectConfig → Option Url → Bool
  is_allowed_parsed cfg none = false
  is_allowed_parsed cfg (some u) = is_allowed_url cfg u

  unfoldable pub is_client_redirect_allowed : RedirectConfig → Text → Bool
  is_client_redirect_allowed cfg uri = is_allowed_parsed cfg (urlparse uri)

  -- The same address but for the port of a loopback host.
  abbrev pub same_loopback : Url → Url → Bool
  same_loopback want have =
      is_loopback (lower (text_of have.hostname))
      && (want.scheme == have.scheme
          && (lower (text_of want.hostname) == lower (text_of have.hostname)
              && (want.path == have.path
                  && (want.query == have.query
                      && (not (is_set want.username) && not (is_set have.username))))))

  abbrev pub parsed_loopback : Url → Option Url → Bool
  parsed_loopback want none = false
  parsed_loopback want (some have) = same_loopback want have

  abbrev pub matches_entry : Text → Url → Text → Bool
  matches_entry requested want [] = false
  matches_entry requested want (c ∷ s) =
      if c ∷ s == requested then true else parsed_loopback want (urlparse (c ∷ s))

  -- The first entry that matches ends the loop.
  abbrev pub matches_some : Text → Url → List Text → Bool
  matches_some requested want [] = false
  matches_some requested want (entry ∷ entries) =
      if matches_entry requested want entry then true else matches_some requested want entries

  abbrev pub matches_parsed : Text → Option Url → List Text → Bool
  matches_parsed requested none registered = false
  matches_parsed requested (some want) registered = matches_some requested want registered

  unfoldable pub redirect_uri_matches_registered : Text → List Text → Bool
  redirect_uri_matches_registered requested registered =
      matches_parsed requested (urlparse requested) registered
