-- ===== src/Password/Examples.antt =====
-- The theorems on password sign-in at concrete data: a hash is the password itself.
use agience_origin.Base.{
  ℕ, ◌≡◌, refl, ◌↔◌, Bool, true, false, Option, none, some, [], ◌∷◌, Text, codes, ◌==◌, text_eq,
  text_beq, get, put, pop, last?, init, normalize, space, nocase, strip,
}
use agience_origin.GuessBudget.Ledger.{empty, drop, make_room, spent, charge}
use agience_origin.GuessBudget.Attempts.{spend}
use agience_origin.GuessBudget.Draws.{password_window_cap}
use agience_origin.Person.Store.{Person, get_by_id, get_by_username}
use agience_origin.OAuth.Exchange.{text_of}
use agience_origin.OAuth.Flow.{AuthRequest, Flow, with_code, local_provider}
use agience_origin.OAuth.SignIn.{pop_local_auth_request}
use agience_origin.Password.SignIn.{
  SignInState, proven, find_user, login_gate, upgrade_if_stale, spend_password_attempt,
  password_login, password_login, authorize_local_password,
}
use agience_origin.Password.Proven.{Proven, password_login-Proven}
use agience_origin.Password.Routes.{authorize_local_password_iff}

abbrev ann : Person
ann = record {
  id = codes "p1";
  email = some (codes "ann@example.com");
  username = some (codes "ann");
  name = codes "Ann";
  picture = none;
  password_hash = some (codes "battery");
  email_verified = true;
  preferences = [];
  deactivated_at = none;
  deactivated_reason = none;
}

abbrev accounts : SignInState
accounts = record { failures = empty; db = record { persons = ann ∷ []; identities = [] } }

abbrev same_text : Text → Text → Bool
same_text password stored = password == stored

abbrev all_current : Text → Bool
all_current stored = true

abbrev unconfirmed_ok : Option Text → Bool
unconfirmed_ok email = false

abbrev no_draws : ℕ → ℕ
no_draws n = 0

ann_proven :
    (password_login same_text all_current unconfirmed_ok accounts true
      (codes " ann ")
      (codes "battery")
      no_draws
      5
      (codes "new")).1
    ≡ proven ann
unfolding password_login spend_password_attempt spend spent charge make_room drop get put pop last?
    init normalize space strip text_beq find_user get_by_username get_by_id login_gate
    upgrade_if_stale password_window_cap nocase
ann_proven = refl

password_login-Proven_example :
    Proven same_text all_current unconfirmed_ok accounts
      (password_login same_text all_current unconfirmed_ok accounts true
        (codes " ann ")
        (codes "battery")
        no_draws
        5
        (codes "new")).0
      true
      (codes " ann ")
      (codes "battery")
      no_draws
      5
      ann
password_login-Proven_example =
    password_login-Proven same_text all_current unconfirmed_ok accounts true (codes " ann ")
      (codes "battery") no_draws 5 (codes "new") ann ann_proven

abbrev request : AuthRequest
request = record {
  client_id = codes "tool";
  redirect_uri = codes "https://tool.test/cb";
  provider = local_provider;
  scope = codes "read";
  state = none;
  code_challenge = none;
  code_challenge_method = none;
  expected_iss = none;
  timestamp = 4;
  setup_operator_token = none;
}

abbrev flow : Flow
flow = record { pkce_challenges = (codes "st", request) ∷ []; authorization_codes = [] }

abbrev only_bob : Option Text → Text → Bool
only_bob google_id email = email == codes "bob@example.com"

authorize_local_password_iff_example :
    let local =
      authorize_local_password same_text all_current unconfirmed_ok only_bob accounts flow
        (codes "st")
        true
        (codes " ann ")
        (codes "battery")
        no_draws
        5
        (codes "new")
        (codes "cd") in
    let login =
      password_login same_text all_current unconfirmed_ok accounts true
        (codes " ann ")
        (codes "battery")
        no_draws
        5
        (codes "new") in
    (local.0.failures ≡ login.0.failures)
    × ((local.2 ≡ with_code request.redirect_uri (codes "cd"))
        ↔ ((p : Person) × (login.1 ≡ proven p) × (only_bob none (text_of p.email) ≡ true)))
unfolding pop_local_auth_request get text_beq
authorize_local_password_iff_example =
    authorize_local_password_iff same_text all_current unconfirmed_ok only_bob accounts flow
      (codes "st") request true (codes " ann ") (codes "battery") no_draws 5 (codes "new")
      (codes "cd") refl
