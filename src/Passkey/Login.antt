-- ===== src/Passkey/Login.antt =====
-- db/passkey_credentials.py and `verify_authentication` of services/passkey_service.py. What the
-- webauthn package says of a credential is a parameter: the id in it, and the new count of
-- signatures if it is good for a challenge and a stored key.
use agience_origin.Base.{
  ℕ, Bool, ◌&&◌, Option, none, some, List, Text, codes, ◌==◌, text_eq, first, update_where,
}
use agience_origin.Passkey.Challenges.{PasskeyChallenge, consume}

pub record PasskeyCredential : Type 0 where
  pub id : Text
  pub person_id : Text
  pub public_key : Text
  pub sign_count : ℕ
  pub last_used_at : Option ℕ

pub record Passkeys : Type 0 where
  pub challenges : List PasskeyChallenge
  pub credentials : List PasskeyCredential

abbrev pub is_of : Text → Text → PasskeyCredential → Bool
is_of credential_id person_id c = c.id == credential_id && c.person_id == person_id

unfoldable pub get_by_id_and_person :
    List PasskeyCredential → Text → Text → Option PasskeyCredential
get_by_id_and_person rows credential_id person_id = first (is_of credential_id person_id) rows

unfoldable pub update_sign_count : List PasskeyCredential → Text → ℕ → ℕ → List PasskeyCredential
update_sign_count rows credential_id sign_count now =
    update_where (λ c. c.id == credential_id)
      (λ c. record c { sign_count = sign_count; last_used_at = some now }) rows

module _ (Credential : Type 0) (raw_id : Credential → Text)
    (verify : Credential → Text → PasskeyCredential → Option ℕ) where
  abbrev pub finish_verified :
      Passkeys → Credential → PasskeyCredential → Option ℕ → ℕ → Passkeys × Option Text
  finish_verified s credential stored none now = (s, none)
  finish_verified s credential stored (some count) now = (
    record s { credentials = update_sign_count s.credentials (raw_id credential) count now },
    some stored.person_id,
  )

  abbrev pub finish_stored :
      Passkeys → Credential → Text → Option PasskeyCredential → ℕ → Passkeys × Option Text
  finish_stored s credential challenge none now = (s, none)
  finish_stored s credential challenge (some stored) now =
      finish_verified s credential stored (verify credential challenge stored) now

  abbrev pub finish_subject :
      Passkeys → Credential → Text → Option Text → ℕ → Passkeys × Option Text
  finish_subject s credential challenge none now = (s, none)
  finish_subject s credential challenge (some person_id) now =
      finish_stored s credential challenge
        (get_by_id_and_person s.credentials (raw_id credential) person_id) now

  abbrev pub finish_claimed :
      Passkeys → Credential → Option PasskeyChallenge → ℕ → Passkeys × Option Text
  finish_claimed s credential none now = (s, none)
  finish_claimed s credential (some claimed) now =
      finish_subject s credential claimed.challenge claimed.person_id now

  unfoldable pub verify_authentication : Passkeys → Credential → Text → ℕ → Passkeys × Option Text
  verify_authentication s credential challenge now =
      let out = consume s.challenges challenge (codes "login") now in
      finish_claimed (record s { challenges = out.0 }) credential out.1 now
