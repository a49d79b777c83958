-- ===== src/Mail/Inbox.antt =====
-- What one address is mailed.
use agience_origin.Base.{
  ℕ, ◌≤◌, ◌≡◌, Bool, true, not, ◌&&◌, ◌||◌, List, [], ◌∷◌, Text, text_eq, if◌then◌else◌,
  if-branches, arith, length,
}
use agience_origin.GuessBudget.Ledger.{Ledger, empty, live}
use agience_origin.GuessBudget.Attempts.Limit.{within_later, empty-Counts}
use agience_origin.Mail.Budget.{
  Request, mail_send_window, mail_send_address_cap, address_key, client_host, is_address,
  mail_sends_exhausted, mail_send_admitted,
}
use agience_origin.Mail.Counted.{
  cap_pos, Counted, kept_send, with_send, mail_sends_exhausted-Tested, record_mail_send-Counted,
}

-- The requests come in the order of their times, from `now` on.
abbrev pub InOrder : ℕ → List Request → Type 0
InOrder now [] = Unit {0}
InOrder now (r ∷ rs) = (now ≤ r.now) × InOrder r.now rs

abbrev pub last_time : ℕ → List Request → ℕ
last_time now [] = now
last_time now (r ∷ rs) = last_time r.now rs

module _ (client_network : Text → Text) (is_shared_client_network : Text → Bool) where
  -- The times of the mails that the address of `a` is sent.
  unfoldable pub sends_step : Text → Ledger → List ℕ → Request → List ℕ
  sends_step a s log r =
      if (mail_send_admitted client_network is_shared_client_network s r).1
      then with_send log a r.email r.now
      else log

  unfoldable pub sends : Text → Ledger → List ℕ → List Request → List ℕ
  sends a s log [] = log
  sends a s log (r ∷ rs) =
      sends a (mail_send_admitted client_network is_shared_client_network s r).0
        (sends_step a s log r) rs

  -- A request that is let through does not drop the address of `a` inside its window.
  unfoldable pub kept_step : Text → Ledger → Request → Bool
  kept_step a s r =
      let client = client_host r.client in
      let out =
        mail_sends_exhausted client_network is_shared_client_network s r.email client r.now in
      not (is_address r.email)
      || out.1
      || kept_send client_network is_shared_client_network (address_key a) out.0 r.email client
          r.draws r.now

  unfoldable pub kept : Text → Ledger → List Request → Bool
  kept a s [] = true
  kept a s (r ∷ rs) =
      kept_step a s r
      && kept a (mail_send_admitted client_network is_shared_client_network s r).0 rs

  later-Counted :
      (a : Text) (s : Ledger) (log : List ℕ) (now t : ℕ)
      → now ≤ t
      → Counted (address_key a) log now s
      → Counted (address_key a) log t s
  later-Counted a s log now t h c = record {
    held = λ u g. c.held u (omega arith);
    within = within_later mail_send_window mail_send_address_cap cap_pos log now t h c.within;
  }

  admitted-Counted :
      (a : Text) (s : Ledger) (log : List ℕ) (r : Request)
      → kept_step a s r ≡ true
      → Counted (address_key a) log r.now s
      → Counted
          (address_key a)
          (sends_step a s log r)
          r.now
          (mail_send_admitted client_network is_shared_client_network s r).0
  unfolding kept_step sends_step mail_send_admitted
  admitted-Counted a s log r kept c =
      let client = client_host r.client in
      let out =
        mail_sends_exhausted client_network is_shared_client_network s r.email client r.now in
      let (tested, room) =
        mail_sends_exhausted-Tested client_network is_shared_client_network log a r.email client
          r.now s c in
      let Logged = λ (o : Ledger × Bool).
        Counted (address_key a) (if o.1 then with_send log a r.email r.now else log) r.now o.0 in
      if-branches Logged (not (is_address r.email)) (λ _. c)
        (λ address.
          if-branches Logged out.1 (λ _. tested)
            (λ free.
              record_mail_send-Counted client_network is_shared_client_network log a r.email client
                r.now r.draws out.0 tested (room free) (ground arith)))

  history-within :
      (a : Text) (rs : List Request) (s : Ledger) (log : List ℕ) (now : ℕ)
      → InOrder now rs
      → kept a s rs ≡ true
      → Counted (address_key a) log now s
      → length (live (sends a s log rs) (last_time now rs) mail_send_window) ≤ mail_send_address_cap
  unfolding sends kept
  history-within a [] s log now o keeps c = c.within
  history-within a (r ∷ rs) s log now o keeps c =
      history-within a rs _ _ r.now o.1 (ground arith)
        (admitted-Counted a s log r (ground arith) (later-Counted a s log now r.now o.0 c))

  -- Whoever asks for mail to whatever addresses, from whatever clients, at times in order: at
  -- any later time the mails that were let through to one address inside the window number at
  -- most the address's cap, however its case and the spaces around it are written, provided that
  -- no charge made room by dropping the address inside its window.
  pub sends-le-cap :
      (a : Text) (rs : List Request) (t : ℕ)
      → InOrder 0 rs
      → kept a empty rs ≡ true
      → last_time 0 rs ≤ t
      → length (live (sends a empty [] rs) t mail_send_window) ≤ mail_send_address_cap
  sends-le-cap a rs t o keeps h =
      within_later mail_send_window mail_send_address_cap cap_pos (sends a empty [] rs)
        (last_time 0 rs) t h
        (history-within a rs empty [] 0 o keeps
          (empty-Counts mail_send_window mail_send_address_cap cap_pos (address_key a)))
