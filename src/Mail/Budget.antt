-- ===== src/Mail/Budget.antt =====
-- services/guess_budget.py: mail_sends_exhausted and record_mail_send with their keys and caps, and
-- routers/auth_router.py: _mail_send_admitted. How a client address is read is a parameter. The routes
-- that call it await nothing between the test and the charges.
use agience_origin.Base.{
  ℕ, ◌*◌, Bool, true, false, not, ◌&&◌, Option, none, some, [], ◌∷◌, ◌++◌, Text, codes, ◌==◌,
  text_eq, nat_eq, if◌then◌else◌, any, normalize,
}
use agience_origin.GuessBudget.Ledger.{Ledger, spent, charge}
use agience_origin.Otp.Service.{issue_window, otp_window_cap}

abbrev pub mail_send_window : ℕ
mail_send_window = issue_window

abbrev pub mail_send_cap : ℕ
mail_send_cap = otp_window_cap

abbrev pub mail_send_clients : ℕ
mail_send_clients = 4

unfoldable pub mail_send_address_cap : ℕ
mail_send_address_cap = mail_send_cap * mail_send_clients

abbrev pub mail_send_people_per_client : ℕ
mail_send_people_per_client = 20

unfoldable pub mail_send_client_cap : ℕ
mail_send_client_cap = mail_send_cap * mail_send_people_per_client

unfoldable pub address_key : Text → Text
address_key email = codes "a|" ++ normalize email

-- `partition("@")`
abbrev pub before_at : Text → Text
before_at [] = []
before_at (c ∷ s) = let rest = before_at s in if c == 64 then [] else c ∷ rest

abbrev pub past_at : Text → Text
past_at [] = []
past_at (c ∷ s) = let rest = past_at s in if c == 64 then s else rest

abbrev pub is_missing : Text → Bool
is_missing [] = true
is_missing (c ∷ s) = false

-- An address, as far as the budget cares.
unfoldable pub is_address : Text → Bool
is_address email =
    let domain = past_at email in
    not (is_missing (before_at email)) && not (is_missing domain) && not (any (λ c. c == 64) domain)

abbrev pub client_host : Option Text → Text
client_host none = codes "unknown"
client_host (some []) = codes "unknown"
client_host (some (c ∷ s)) = c ∷ s

-- A call of `_mail_send_admitted`, at a time, with the random numbers that each charge may draw.
pub record Request : Type 0 where
  pub email : Text
  pub client : Option Text
  pub draws : ℕ → ℕ → ℕ
  pub now : ℕ

abbrev pub charge_address : Ledger → Text → (ℕ → ℕ) → ℕ → Ledger
charge_address s email rng now =
    charge rng s (address_key email) mail_send_window mail_send_address_cap now

module _ (client_network : Text → Text) where
  unfoldable pub pair_key : Text → Text → Text
  pair_key email client = codes "c|" ++ normalize email ++ codes "|" ++ client_network client

  unfoldable pub client_key : Text → Text
  client_key client = codes "k|" ++ client_network client

  abbrev pub charge_pair : Ledger → Text → Text → (ℕ → ℕ) → ℕ → Ledger
  charge_pair s email client rng now =
      charge rng s (pair_key email client) mail_send_window mail_send_cap now

module _ (client_network : Text → Text) (is_shared_client_network : Text → Bool) where
  unfoldable pub client_exhausted : Ledger → Text → ℕ → Ledger × Bool
  client_exhausted s client now =
      if is_shared_client_network client
      then (s, false)
      else spent s (client_key client_network client) mail_send_window mail_send_client_cap now

  unfoldable pub address_exhausted : Ledger → Text → Text → ℕ → Ledger × Bool
  address_exhausted s email client now =
      let (read, full) = spent s (address_key email) mail_send_window mail_send_address_cap now in
      if full then (read, true) else client_exhausted read client now

  unfoldable pub mail_sends_exhausted : Ledger → Text → Text → ℕ → Ledger × Bool
  mail_sends_exhausted s email client now =
      let (read, full) =
        spent s (pair_key client_network email client) mail_send_window mail_send_cap now in
      if full then (read, true) else address_exhausted read email client now

  unfoldable pub charge_client : Ledger → Text → (ℕ → ℕ) → ℕ → Ledger
  charge_client s client rng now =
      if is_shared_client_network client
      then s
      else charge rng s (client_key client_network client) mail_send_window mail_send_client_cap now

  unfoldable pub record_mail_send : Ledger → Text → Text → (ℕ → ℕ → ℕ) → ℕ → Ledger
  record_mail_send s email client draws now =
      let paired = charge_pair client_network s email client (draws 0) now in
      let addressed = charge_address paired email (draws 1) now in
      charge_client addressed client (draws 2) now

  -- Whether the mail may be sent.
  unfoldable pub mail_send_admitted : Ledger → Request → Ledger × Bool
  mail_send_admitted s r =
      let client = client_host r.client in
      if not (is_address r.email)
      then (s, false)
      else let (read, exhausted) = mail_sends_exhausted s r.email client r.now in
        if exhausted
        then (read, false)
        else (record_mail_send read r.email client r.draws r.now, true)
