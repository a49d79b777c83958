-- ===== src/Passkey/Examples.antt =====
-- The theorems on passkeys at concrete data.
use agience_origin.Base.{
  ℕ, ◌≡◌, refl, true, false, Option, none, some, List, [], ◌∷◌, Text, codes, text_eq, text_beq, All,
  In, inl, inr, sym, ◌∙◌,
}
use agience_origin.Passkey.Challenges.{PasskeyChallenge, create, consume}
use agience_origin.Passkey.Login.{
  PasskeyCredential, Passkeys, get_by_id_and_person, verify_authentication,
}
use agience_origin.Passkey.Register.{Attested, registered, create_credential, verify_registration}
use agience_origin.Passkey.Enrolment.{Enrolled, verify_registration-Enrolled}
use agience_origin.Passkey.Once.{Act, issue, take, sweep, act, act_all, spares, consume_once}
use agience_origin.Passkey.Sound.{IsKeyed, Claimed, Proof, verify_authentication-Proof}

abbrev issued : List Act
issued = issue (codes "ch-1") (codes "login") (some (codes "p1")) 1000 ∷ []

abbrev later_acts : List Act
later_acts = sweep 1100 ∷ issue (codes "ch-2") (codes "login") (some (codes "p2")) 1150 ∷ []

abbrev won : PasskeyChallenge
won = record {
  challenge = codes "ch-1";
  purpose = codes "login";
  person_id = some (codes "p1");
  expires_at = 1300;
  used = true;
}

first_win : (consume (act_all [] issued) (codes "ch-1") (codes "login") 1010).1 ≡ some won
unfolding consume act_all act create text_beq
first_win = refl

spared : All (λ a. spares (codes "ch-1") a ≡ true) later_acts
unfolding text_beq
spared = (refl, (refl, tt))

consume_once_example :
    (consume
      (act_all (act (act_all [] issued) (take (codes "ch-1") (codes "login") 1010)) later_acts)
      (codes "ch-1")
      (codes "login")
      1200).1
    ≡ none
consume_once_example =
    consume_once (codes "ch-1") issued later_acts (codes "login") (codes "login") 1010 1200 won
      first_win spared

-- A credential is its id here, and is good for every challenge.
abbrev id_of : Text → Text
id_of c = c

abbrev accept : Text → Text → PasskeyCredential → Option ℕ
accept c challenge stored = some 8

abbrev passkeys : Passkeys
passkeys = record {
  challenges =
      record {
        challenge = codes "ch-1";
        purpose = codes "login";
        person_id = some (codes "p1");
        expires_at = 1300;
        used = false;
      }
      ∷ [];
  credentials =
      record {
        id = codes "key-1";
        person_id = codes "p1";
        public_key = codes "pk";
        sign_count = 7;
        last_used_at = none;
      }
      ∷ [];
}

signed_in :
    (verify_authentication Text id_of accept passkeys (codes "key-1") (codes "ch-1") 1010).1
    ≡ some (codes "p1")
unfolding verify_authentication consume get_by_id_and_person text_beq
signed_in = refl

only_challenge :
    (q r : PasskeyChallenge) (c : PasskeyChallenge) → In q (c ∷ []) → In r (c ∷ []) → q ≡ r
only_challenge q r c (inl a) (inl b) = sym a ∙ b
only_challenge q r c (inl a) (inr b) = absurd b
only_challenge q r c (inr a) k = absurd a

passkeys-IsKeyed : IsKeyed passkeys.challenges
passkeys-IsKeyed q r m k e = only_challenge q r _ m k

verify_authentication-Proof_example :
    Claimed passkeys.challenges (codes "ch-1") (codes "p1") 1010
    × Proof id_of accept passkeys.credentials (codes "key-1") (codes "ch-1") (codes "p1")
verify_authentication-Proof_example =
    verify_authentication-Proof id_of accept passkeys (codes "key-1") (codes "ch-1") 1010
      (codes "p1") passkeys-IsKeyed signed_in

abbrev read_key : Text → Text → Option Attested
read_key c challenge =
    some (record { credential_id = c; credential_public_key = codes "pk-2"; sign_count = 0 })

abbrev to_register : Passkeys
to_register = record passkeys {
  challenges =
      record {
        challenge = codes "ch-9";
        purpose = codes "register";
        person_id = some (codes "p1");
        expires_at = 1300;
        used = false;
      }
      ∷ [];
}

key_registered :
    (verify_registration Text read_key to_register
      (codes "p1")
      (codes "key-2")
      (codes "ch-9")
      1010).1
    ≡ registered (codes "key-2")
unfolding verify_registration consume create_credential text_beq
key_registered = refl

verify_registration-Enrolled_example :
    Enrolled read_key to_register.challenges
      (codes "p1")
      (codes "key-2")
      (codes "ch-9")
      (codes "key-2")
      1010
      (verify_registration Text read_key to_register
        (codes "p1")
        (codes "key-2")
        (codes "ch-9")
        1010).0.credentials
verify_registration-Enrolled_example =
    verify_registration-Enrolled read_key to_register (codes "p1") (codes "key-2") (codes "ch-9")
      1010 (codes "key-2") key_registered
