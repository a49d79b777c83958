-- ===== src/Settings/Keys.antt =====
-- services/platform_settings_service.py. Which keys are reserved and which are secret: decided from the key alone.
use agience_origin.Base.{
  Bool, true, false, ◌&&◌, ◌||◌, List, [], ◌∷◌, Text, codes, ◌==◌, nat_eq, text_eq, if◌then◌else◌,
  any, lower,
}

abbrev pub starts_with : Text → Text → Bool
starts_with [] s = true
starts_with (a ∷ p) [] = false
starts_with (a ∷ p) (b ∷ s) = a == b && starts_with p s

-- `p in s`
abbrev pub is_substring : Text → Text → Bool
is_substring p [] = starts_with p []
is_substring p (b ∷ s) = starts_with p (b ∷ s) || is_substring p s

abbrev pub reserved_prefix : Text
reserved_prefix = codes "custody."

abbrev pub secret_key_substrings : List Text
secret_key_substrings =
    codes "password"
    ∷ codes "secret"
    ∷ codes "api_key"
    ∷ codes "apikey"
    ∷ codes "token"
    ∷ codes "private_key"
    ∷ codes "credential"
    ∷ []

abbrev pub non_secret_keys : List Text
non_secret_keys =
    codes "auth.password.enabled"
    ∷ codes "auth.password.min_length"
    ∷ codes "auth.password.pbkdf2_iters"
    ∷ codes "platform.setup_complete"
    ∷ []

abbrev pub defaults : List (Text × Text)
defaults =
    (codes "platform.setup_complete", codes "false")
    ∷ (codes "branding.facet_uri", codes "http://localhost:5173")
    ∷ (codes "branding.title", codes "Agience")
    ∷ (codes "auth.password.enabled", codes "true")
    ∷ (codes "auth.password.min_length", codes "12")
    ∷ (codes "auth.password.pbkdf2_iters", codes "600000")
    ∷ (codes "auth.invite_only", codes "false")
    ∷ (codes "platform.log_level", codes "info")
    ∷ (codes "email.provider", [])
    ∷ (codes "email.from_address", [])
    ∷ (codes "email.from_name", codes "Agience")
    ∷ []

unfoldable pub is_reserved_key : Text → Bool
is_reserved_key key = starts_with reserved_prefix (lower key)

unfoldable pub is_secret_key : Text → Bool
is_secret_key key =
    if is_reserved_key key
    then true
    else if any (λ k. k == key) non_secret_keys
    then false
    else any (λ token. is_substring token (lower key)) secret_key_substrings
