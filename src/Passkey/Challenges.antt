-- ===== src/Passkey/Challenges.antt =====
-- db/passkey_challenges.py and models/passkey_challenge.py, in seconds.
use agience_origin.Base.{
  ℕ, ◌+◌, Bool, true, false, not, ◌&&◌, ◌||◌, Option, none, some, List, [], ◌∷◌, ◌++◌, Text, ◌==◌,
  text_eq, ltb, leb, if◌then◌else◌, any, first, update_where, delete_where,
}

pub record PasskeyChallenge : Type 0 where
  pub challenge : Text
  pub purpose : Text
  pub person_id : Option Text
  pub expires_at : ℕ
  pub used : Bool

abbrev pub default_ttl_seconds : ℕ
default_ttl_seconds = 300

abbrev pub is_challenge : Text → PasskeyChallenge → Bool
is_challenge challenge r = r.challenge == challenge

-- The unique column holds one row for each challenge: nothing if it is there already.
unfoldable pub create :
    List PasskeyChallenge → Text → Text → Option Text → ℕ → Option (List PasskeyChallenge)
create rows challenge purpose person_id now =
    if any (is_challenge challenge) rows
    then none
    else some (
        rows
        ++ record {
          challenge = challenge;
          purpose = purpose;
          person_id = person_id;
          expires_at = now + default_ttl_seconds;
          used = false;
        }
          ∷ [])

abbrev pub is_live : Text → Text → ℕ → PasskeyChallenge → Bool
is_live challenge purpose now r =
    is_challenge challenge r && (r.purpose == purpose && (not r.used && ltb now r.expires_at))

abbrev pub mark_consumed : PasskeyChallenge → PasskeyChallenge
mark_consumed r = record r { used = true }

unfoldable pub consume :
    List PasskeyChallenge → Text → Text → ℕ → List PasskeyChallenge × Option PasskeyChallenge
consume rows challenge purpose now =
    let rows' = update_where (is_live challenge purpose now) mark_consumed rows in
    if any (is_live challenge purpose now) rows
    then (rows', first (is_challenge challenge) rows')
    else (rows', none)

abbrev pub is_over : ℕ → PasskeyChallenge → Bool
is_over now r = r.used || leb (r.expires_at + 3600) now

unfoldable pub delete_expired : List PasskeyChallenge → ℕ → List PasskeyChallenge
delete_expired rows now = delete_where (is_over now) rows
