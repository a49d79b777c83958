-- ===== src/Password/SignIn.antt =====
-- routers/auth_router.py: password_login and authorize_local_password, with
-- _spend_password_attempt and _upgrade_password_hash_if_stale, and spend_password_attempt and
-- clear_password_failures of services/guess_budget.py. bcrypt's check and the test of a hash's cost
-- are parameters, the new hash is an argument. Each route has its own copy of the code, and so has
-- the model. The person is read again after the derivation: the session was rolled back and has
-- forgotten it. A route runs here without another one in between.
use agience_origin.Base.{
  ℕ, Bool, not, ◌&&◌, ◌||◌, Option, none, some, Text, ◌==◌, text_eq, nat_eq, if◌then◌else◌, any,
  strip, lower, normalize,
}
use agience_origin.GuessBudget.Ledger.{Ledger, drop}
use agience_origin.GuessBudget.Draws.{password_window, password_window_cap}
use agience_origin.GuessBudget.Attempts.{spend}
use agience_origin.Person.Store.{
  Person, Db, get_by_id, get_by_email, get_by_username, replace_password_hash,
}
use agience_origin.Reset.Links.{is_deactivated}
use agience_origin.OAuth.Exchange.{is_set, text_of}
use agience_origin.OAuth.Flow.{AuthRequest, Flow, FlowReply, http_error}
use agience_origin.OAuth.SignIn.{pop_local_auth_request, complete_local_signin}

pub record SignInState : Type 0 where
  pub failures : Ledger
  pub db : Db

pub data Verdict : Type 0 where
  refused : ℕ → Verdict
  proven : Person → Verdict

-- What is read before the derivation.
pub record Held : Type 0 where
  pub person_id : Text
  pub stored_hash : Text

abbrev pub has_at_sign : Text → Bool
has_at_sign s = any (λ c. c == 64) s

unfoldable pub spend_password_attempt : (ℕ → ℕ) → Ledger → Text → ℕ → Ledger × Bool
spend_password_attempt rng failures identifier now =
    spend rng failures (normalize identifier) password_window password_window_cap now

unfoldable pub clear_password_failures : Ledger → Text → Ledger
clear_password_failures failures identifier = drop failures (normalize identifier)

unfoldable pub find_user : Db → Text → Option Person
find_user db identifier =
    if has_at_sign identifier
    then get_by_email db (lower identifier)
    else get_by_username db identifier

-- Nobody, or an account without a password, has nothing to check against.
abbrev pub held_user : Option Person → Option Held
held_user none = none
held_user (some p) =
    if is_set p.password_hash
    then some (record { person_id = p.id; stored_hash = text_of p.password_hash })
    else none

unfoldable pub find_person : Db → Text → Option Person
find_person db identifier =
    if has_at_sign identifier
    then get_by_email db (lower identifier)
    else get_by_username db identifier

abbrev pub held_person : Option Person → Option Held
held_person none = none
held_person (some p) =
    if is_set p.password_hash
    then some (record { person_id = p.id; stored_hash = text_of p.password_hash })
    else none

module _ (verify_password : Text → Text → Bool) (is_current : Text → Bool)
    (email_verification_required : Option Text → Bool) where
  unfoldable pub upgrade_if_stale : Db → Held → Text → Db
  upgrade_if_stale db held new_hash =
      if is_current held.stored_hash
      then db
      else (replace_password_hash db held.person_id held.stored_hash new_hash).0

  -- /auth/password/login: whoever is proven gets an access and a refresh token.
  unfoldable pub login_gate : Option Person → Verdict
  login_gate none = refused 500
  login_gate (some p) =
      if is_deactivated p
      then refused 403
      else if not p.email_verified && email_verification_required p.email
      then refused 403
      else proven p

  abbrev pub login_checked : SignInState → Text → Text → Text → Option Held → SignInState × Verdict
  login_checked s identifier password new_hash none = (s, refused 401)
  login_checked s identifier password new_hash (some held) =
      if verify_password password held.stored_hash
      then (
        record {
          failures = clear_password_failures s.failures identifier;
          db = upgrade_if_stale s.db held new_hash;
        },
        login_gate (get_by_id (upgrade_if_stale s.db held new_hash) held.person_id),
      )
      else (s, refused 401)

  abbrev pub login_attempted :
      SignInState → Text → Text → Text → Ledger × Bool → SignInState × Verdict
  login_attempted s identifier password new_hash (failures, admitted) =
      let charged : SignInState = record s { failures = failures } in
      if admitted
      then login_checked charged identifier password new_hash
          (held_user (find_user s.db identifier))
      else (charged, refused 429)

  unfoldable pub password_login :
      SignInState → Bool → Text → Text → (ℕ → ℕ) → ℕ → Text → SignInState × Verdict
  password_login s enabled typed password rng now new_hash =
      let identifier = strip typed in
      if not enabled
      then (s, refused 404)
      else if not (is_set (some identifier)) || not (is_set (some password))
      then (s, refused 400)
      else login_attempted s identifier password new_hash
          (spend_password_attempt rng s.failures identifier now)

  -- /authorize/password, up to the allow-list: the same credential, proved by code of its own.
  unfoldable pub local_gate : Option Person → Verdict
  local_gate none = refused 500
  local_gate (some p) =
      if is_deactivated p
      then refused 403
      else if not p.email_verified && email_verification_required p.email
      then refused 403
      else proven p

  abbrev pub local_checked : SignInState → Text → Text → Text → Option Held → SignInState × Verdict
  local_checked s identifier password new_hash none = (s, refused 401)
  local_checked s identifier password new_hash (some held) =
      if verify_password password held.stored_hash
      then (
        record {
          failures = clear_password_failures s.failures identifier;
          db = upgrade_if_stale s.db held new_hash;
        },
        local_gate (get_by_id (upgrade_if_stale s.db held new_hash) held.person_id),
      )
      else (s, refused 401)

  abbrev pub local_attempted :
      SignInState → Text → Text → Text → Ledger × Bool → SignInState × Verdict
  local_attempted s identifier password new_hash (failures, admitted) =
      let charged : SignInState = record s { failures = failures } in
      if admitted
      then local_checked charged identifier password new_hash
          (held_person (find_person s.db identifier))
      else (charged, refused 429)

  unfoldable pub local_proven :
      SignInState → Bool → Text → Text → (ℕ → ℕ) → ℕ → Text → SignInState × Verdict
  local_proven s enabled typed password rng now new_hash =
      let identifier = strip typed in
      if not enabled
      then (s, refused 404)
      else if not (is_set (some identifier)) || not (is_set (some password))
      then (s, refused 400)
      else local_attempted s identifier password new_hash
          (spend_password_attempt rng s.failures identifier now)

  module _ (is_person_allowed : Option Text → Text → Bool) where
    abbrev pub coded :
        SignInState
        → Flow
        → Text
        → AuthRequest
        → Verdict
        → ℕ
        → Text
        → SignInState × Flow × FlowReply
    coded s flow oauth_state r (refused status) now code = (s, flow, http_error status)
    coded s flow oauth_state r (proven p) now code =
        if not (is_person_allowed none (text_of p.email))
        then (s, flow, http_error 403)
        else let out = complete_local_signin s.db flow oauth_state r p now code in
          (record s { db = out.0 }, out.1, out.2)

    -- /authorize/password
    abbrev pub authorized :
        SignInState
        → Flow
        → Text
        → Option AuthRequest
        → Bool
        → Text
        → Text
        → (ℕ → ℕ)
        → ℕ
        → Text
        → Text
        → SignInState × Flow × FlowReply
    authorized s flow oauth_state none enabled typed password rng now new_hash code =
        (s, flow, http_error 400)
    authorized s flow oauth_state (some r) enabled typed password rng now new_hash code =
        let out = local_proven s enabled typed password rng now new_hash in
        coded out.0 flow oauth_state r out.1 now code

    unfoldable pub authorize_local_password :
        SignInState
        → Flow
        → Text
        → Bool
        → Text
        → Text
        → (ℕ → ℕ)
        → ℕ
        → Text
        → Text
        → SignInState × Flow × FlowReply
    authorize_local_password s flow oauth_state enabled typed password rng now new_hash code =
        authorized s flow oauth_state (pop_local_auth_request flow oauth_state) enabled typed
          password rng now new_hash code
