-- ===== src/OAuth/Examples.antt =====
-- The theorems on the exchange of codes at concrete data.
use agience_origin.Base.{
  ◌+◌, ◌≤◌, ◌<◌, ◌≡◌, refl, true, none, some, List, [], ◌∷◌, Text, codes, text_eq, text_beq, arith,
  get, pop, Distinct,
}
use agience_origin.OAuth.Exchange.{
  AuthData, code_stamp, auth_cache_ttl, key_error, granted, fresh, trim, grant_authorization_code,
}
use agience_origin.OAuth.Granted.{Rightful, grant_authorization_code-Rightful}
use agience_origin.OAuth.Expired.{expired_code_raises}

-- A transform that marks its argument.
abbrev marked : Text → Text
marked verifier = 42 ∷ verifier

abbrev entry : AuthData
entry = record {
  provider = codes "google";
  sub = codes "g-1";
  email = codes "ann@example.com";
  name = codes "Ann";
  picture = none;
  email_verified = true;
  client_id = codes "chorus";
  redirect_uri = codes "https://chorus.example/cb";
  scope = codes "read";
  code_challenge = some (marked (codes "verifier"));
  code_challenge_method = some (codes "S256");
  timestamp = 1000000;
  setup_operator_token = none;
}

abbrev cache : List (Text × AuthData)
cache = (codes "code-1", entry) ∷ []

exchanged :
    (grant_authorization_code marked cache
      (codes "code-1")
      (codes "https://chorus.example/cb")
      (codes "chorus")
      (some (codes "verifier"))
      5000000
      5000001).1
    ≡ granted entry
unfolding grant_authorization_code get fresh trim pop text_beq
exchanged = refl

grant_authorization_code-Rightful_example :
    (get (codes "code-1") cache ≡ some entry)
    × (get
          (codes "code-1")
          (grant_authorization_code marked cache
            (codes "code-1")
            (codes "https://chorus.example/cb")
            (codes "chorus")
            (some (codes "verifier"))
            5000000
            5000001).0
        ≡ none)
    × Rightful marked entry
        (codes "https://chorus.example/cb")
        (codes "chorus")
        (some (codes "verifier"))
        5000001
grant_authorization_code-Rightful_example =
    grant_authorization_code-Rightful marked cache (codes "code-1")
      (codes "https://chorus.example/cb") (codes "chorus") (some (codes "verifier")) 5000000 5000001
      entry exchanged

cache-Distinct : Distinct cache
unfolding get
cache-Distinct = (refl, tt)

code_found : get (codes "code-1") cache ≡ some entry
unfolding get text_beq
code_found = refl

long_past : 1000000 + auth_cache_ttl < 700000000
long_past = omega arith

no_earlier : 700000000 ≤ 700000001
no_earlier = omega arith

expired_code_raises_example :
    (grant_authorization_code marked cache
      (codes "code-1")
      entry.redirect_uri
      entry.client_id
      (some (codes "verifier"))
      700000000
      700000001).1
    ≡ key_error
expired_code_raises_example =
    expired_code_raises marked cache (codes "code-1") entry (some (codes "verifier")) 700000000
      700000001 cache-Distinct code_found long_past no_earlier
