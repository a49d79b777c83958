-- ===== src/OAuth/Exchange.antt =====
-- `_prune_auth_cache` and `_grant_authorization_code`, up to the point where the code is spent and
-- the person is looked up, in microseconds. Nothing is awaited on the way, so no other request runs in
-- between. The S256 transform of a verifier is a parameter; texts are ASCII.
use agience_origin.Base.{
  ℕ, ◌+◌, Bool, true, false, not, Option, none, some, List, [], ◌∷◌, Text, codes, ◌==◌, text_eq,
  ltb, if◌then◌else◌, length, get, pop, is_some,
}

pub record AuthData : Type 0 where
  pub provider : Text
  pub sub : Text
  pub email : Text
  pub name : Text
  pub picture : Option Text
  pub email_verified : Bool
  pub client_id : Text
  pub redirect_uri : Text
  pub scope : Text
  pub code_challenge : Option Text
  pub code_challenge_method : Option Text
  pub timestamp : ℕ
  pub setup_operator_token : Option Text

abbrev pub auth_cache_ttl : ℕ
auth_cache_ttl = 600000000

abbrev pub auth_cache_max_items : ℕ
auth_cache_max_items = 5000

-- An entry of the caches has the time it was made.
pub record Stamped (V : Type 0) : Type 0 where
  pub stamp : V → ℕ

instance abbrev pub code_stamp : Stamped AuthData
code_stamp = record { stamp = λ d. d.timestamp }

module _ {V : Type 0} ⦃stamped : Stamped V⦄ where
  abbrev pub is_expired : ℕ → V → Bool
  is_expired now d = ltb (stamped.stamp d + auth_cache_ttl) now

  -- The entries that are not past the cutoff.
  unfoldable pub fresh : ℕ → List (Text × V) → List (Text × V)
  fresh now [] = []
  fresh now ((k, d) ∷ m) = if is_expired now d then fresh now m else (k, d) ∷ fresh now m

  -- The oldest go while there are too many.
  unfoldable pub trim : List (Text × V) → List (Text × V)
  trim [] = []
  trim ((k, d) ∷ m) = if ltb auth_cache_max_items (length m + 1) then trim m else (k, d) ∷ m

  abbrev pub prune_auth_cache : ℕ → List (Text × V) → List (Text × V)
  prune_auth_cache now cache = trim (fresh now cache)

-- A status, the KeyError of a `del` that finds no key, or what the code stood for.
pub data Grant : Type 0 where
  http_error : ℕ → Grant
  key_error : Grant
  granted : AuthData → Grant

-- del authorization_codes[code], and what comes after it
abbrev pub del_code : List (Text × AuthData) → Text → Grant → List (Text × AuthData) × Grant
del_code cache code next =
    if is_some (get code cache) then (pop code cache, next) else (cache, key_error)

abbrev pub is_set : Option Text → Bool
is_set none = false
is_set (some []) = false
is_set (some (c ∷ s)) = true

abbrev pub text_of : Option Text → Text
text_of none = []
text_of (some s) = s

abbrev pub is_s256 : Option Text → Bool
is_s256 none = false
is_s256 (some m) = m == codes "S256"

module _ (s256 : Text → Text) where
  abbrev pub verifier_challenge : AuthData → Text → Text
  verifier_challenge d verifier =
      if is_s256 d.code_challenge_method then s256 verifier else verifier

  abbrev pub spend_code :
      List (Text × AuthData) → AuthData → Text → Option Text → List (Text × AuthData) × Grant
  spend_code cache d code verifier =
      if is_set d.code_challenge
      then (if not (is_set verifier)
          then (cache, http_error 400)
          else if not (verifier_challenge d (text_of verifier) == text_of d.code_challenge)
          then (cache, http_error 400)
          else del_code cache code (granted d))
      else del_code cache code (granted d)

  abbrev pub grant_found :
      List (Text × AuthData)
      → Option AuthData
      → Text
      → Text
      → Text
      → Option Text
      → ℕ
      → ℕ
      → List (Text × AuthData) × Grant
  grant_found cache none code redirect_uri client_id verifier now later = (cache, http_error 400)
  grant_found cache (some d) code redirect_uri client_id verifier now later =
      let left = prune_auth_cache now cache in
      if not (client_id == d.client_id)
      then (left, http_error 400)
      else if not (redirect_uri == d.redirect_uri)
      then (left, http_error 400)
      else if is_expired later d
      then del_code left code (http_error 400)
      else spend_code left d code verifier

  -- The clock is read at the pruning and again at the test of the expiry.
  unfoldable pub grant_authorization_code :
      List (Text × AuthData)
      → Text
      → Text
      → Text
      → Option Text
      → ℕ
      → ℕ
      → List (Text × AuthData) × Grant
  grant_authorization_code cache code redirect_uri client_id verifier now later =
      grant_found cache (get code cache) code redirect_uri client_id verifier now later
