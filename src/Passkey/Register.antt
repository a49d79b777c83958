-- ===== src/Passkey/Register.antt =====
-- The registration ceremony and the rest of db/passkey_credentials.py. What the webauthn package
-- reads from an attestation that it accepts is a parameter.
use agience_origin.Base.{
  ℕ, Bool, true, false, not, Option, none, some, List, [], ◌∷◌, ◌++◌, Text, codes, ◌==◌, text_eq,
  if◌then◌else◌, any, select_where, delete_where,
}
use agience_origin.Passkey.Challenges.{PasskeyChallenge, consume}
use agience_origin.Passkey.Login.{PasskeyCredential, Passkeys, is_of}

pub record Attested : Type 0 where
  pub credential_id : Text
  pub credential_public_key : Text
  pub sign_count : ℕ

pub data Registration : Type 0 where
  value_error not_verified integrity_error : Registration
  registered : Text → Registration

unfoldable pub list_for_person : List PasskeyCredential → Text → List PasskeyCredential
list_for_person rows person_id = select_where (λ c. c.person_id == person_id) rows

abbrev pub has_id : Text → PasskeyCredential → Bool
has_id id c = c.id == id

-- The primary key holds one row for each id.
unfoldable pub create_credential :
    List PasskeyCredential → PasskeyCredential → Option (List PasskeyCredential)
create_credential rows c = if any (has_id c.id) rows then none else some (rows ++ c ∷ [])

unfoldable pub delete_for_person :
    List PasskeyCredential → Text → Text → List PasskeyCredential × Bool
delete_for_person rows credential_id person_id =
    if any (is_of credential_id person_id) rows
    then (delete_where (is_of credential_id person_id) rows, true)
    else (rows, false)

abbrev pub is_bound_elsewhere : Option Text → Text → Bool
is_bound_elsewhere none user_id = false
is_bound_elsewhere (some p) user_id = not (p == user_id)

abbrev pub new_credential : Text → Attested → PasskeyCredential
new_credential user_id a = record {
  id = a.credential_id;
  person_id = user_id;
  public_key = a.credential_public_key;
  sign_count = a.sign_count;
  last_used_at = none;
}

abbrev pub enrolled : Passkeys → Text → Option (List PasskeyCredential) → Passkeys × Registration
enrolled s id none = (s, integrity_error)
enrolled s id (some rows) = (record s { credentials = rows }, registered id)

abbrev pub enrol : Passkeys → Text → Option Attested → Passkeys × Registration
enrol s user_id none = (s, not_verified)
enrol s user_id (some a) =
    enrolled s a.credential_id (create_credential s.credentials (new_credential user_id a))

module _ (Credential : Type 0) (attest : Credential → Text → Option Attested) where
  abbrev pub register_claimed :
      Passkeys → Text → Credential → Option PasskeyChallenge → Passkeys × Registration
  register_claimed s user_id credential none = (s, value_error)
  register_claimed s user_id credential (some claimed) =
      if is_bound_elsewhere claimed.person_id user_id
      then (s, value_error)
      else enrol s user_id (attest credential claimed.challenge)

  unfoldable pub verify_registration :
      Passkeys → Text → Credential → Text → ℕ → Passkeys × Registration
  verify_registration s user_id credential challenge now =
      let out = consume s.challenges challenge (codes "register") now in
      register_claimed (record s { challenges = out.0 }) user_id credential out.1
