-- ===== src/Mail/Counted.antt =====
-- Histories of requests for mail, and what they leave in the ledger under one address.
use agience_origin.Base.{
  ℕ, ◌<◌, ◌≡◌, refl, inl, inr, Bool, true, false, ◌&&◌, ◌||◌, List, [], ◌∷◌, ◌++◌, Text, ◌==◌,
  eq_iff, text_eq, text_beq, if◌then◌else◌, if-branches, arith, length, get, Bool-cases, is_some,
}
use agience_origin.GuessBudget.Ledger.{Ledger, spent, charge, live, is_empty, or_empty}
use agience_origin.GuessBudget.Ledger.Upkeep.{get-spent, spent-answer, get-charge_ne}
use agience_origin.GuessBudget.Attempts.Limit.{Counts, live-pruned, charge-Counts, empty_later}
use agience_origin.Otp.Service.{otp_window_cap}
use agience_origin.Mail.Budget.{
  mail_send_window, mail_send_cap, mail_send_address_cap, mail_send_client_cap, address_key,
  pair_key, client_key, client_exhausted, address_exhausted, mail_sends_exhausted, charge_pair,
  charge_address, charge_client, record_mail_send,
}

-- A charge under another key did not make room by dropping `k` inside its window.
unfoldable pub keeps : Text → ℕ → Ledger → Ledger → Bool
keeps k now before after =
    is_some (get k after.entries)
    || is_empty (live (or_empty (get k before.entries)) now mail_send_window)

pub cap_pos : 0 < mail_send_address_cap
unfolding mail_send_address_cap otp_window_cap
cap_pos = omega arith

module _ (k : Text) (log : List ℕ) (t : ℕ) where
  abbrev pub Counted : Ledger → Type 0
  Counted s = Counts mail_send_window mail_send_address_cap cap_pos k s log t

  -- A read under any key.
  spent-Counted :
      (s : Ledger) (j : Text) (cap : ℕ) → Counted s → Counted (spent s j mail_send_window cap t).0
  spent-Counted s j cap c = record {
    held = λ u g. ground (
      arith,
      get-spent s j mail_send_window cap t k,
      eq_iff j k,
      live-pruned mail_send_window mail_send_address_cap cap_pos (get k s.entries) t u g,
      c.held u g,
    );
    within = c.within;
  }

  -- A charge under another key.
  charge-Counted :
      (rng : ℕ → ℕ) (s : Ledger) (j : Text) (cap : ℕ)
      → (j == k) ≡ false
      → keeps k t s (charge rng s j mail_send_window cap t) ≡ true
      → Counted s
      → Counted (charge rng s j mail_send_window cap t)
  unfolding keeps
  charge-Counted rng s j cap ne kept c = record {
    held = λ u g. ground (
      arith,
      get-charge_ne rng s j mail_send_window cap t k ne,
      empty_later mail_send_window mail_send_address_cap cap_pos (or_empty (get k s.entries)) t u g,
      c.held u g,
    );
    within = c.within;
  }

-- The times of the mails to the address of `a`, with one more mail that is sent.
abbrev pub with_send : List ℕ → Text → Text → ℕ → List ℕ
with_send log a email t = if address_key email == address_key a then log ++ t ∷ [] else log

module _ (client_network : Text → Text) (is_shared_client_network : Text → Bool) where
  -- No charge of one mail drops `k` inside its window.
  unfoldable pub kept_send : Text → Ledger → Text → Text → (ℕ → ℕ → ℕ) → ℕ → Bool
  kept_send k s email client draws now =
      let paired = charge_pair client_network s email client (draws 0) now in
      let addressed = charge_address paired email (draws 1) now in
      let done =
        charge_client client_network is_shared_client_network addressed client (draws 2) now in
      keeps k now s paired && keeps k now paired addressed && keeps k now addressed done

  pair_ne :
      (email client a : Text) → (pair_key client_network email client == address_key a) ≡ false
  unfolding pair_key address_key text_beq
  pair_ne email client a = refl

  client_ne : (client a : Text) → (client_key client_network client == address_key a) ≡ false
  unfolding client_key address_key text_beq
  client_ne client a = refl

  charge_client-Counted :
      (log : List ℕ) (a client : Text) (t : ℕ) (rng : ℕ → ℕ) (s : Ledger)
      → Counted (address_key a) log t s
      → keeps
          (address_key a)
          t
          s
          (charge_client client_network is_shared_client_network s client rng t)
        ≡ true
      → Counted
          (address_key a)
          log
          t
          (charge_client client_network is_shared_client_network s client rng t)
  unfolding charge_client
  charge_client-Counted log a client t rng s c =
      if-branches
        (λ (out : Ledger). keeps (address_key a) t s out ≡ true → Counted (address_key a) log t out)
        (is_shared_client_network client) (λ _ _. c)
        (λ _ kept.
          charge-Counted (address_key a) log t rng s (client_key client_network client)
            mail_send_client_cap (client_ne client a) kept c)

  module _ (log : List ℕ) (a email client : Text) (t : ℕ) where
    abbrev pub Room : Type 0
    Room =
        (address_key email == address_key a) ≡ true
        → length (live log t mail_send_window) < mail_send_address_cap

    -- After the test: the count is as it was, and an address that is let through has room.
    abbrev pub Tested : Ledger × Bool → Type 0
    Tested out = Counted (address_key a) log t out.0 × (out.1 ≡ false → Room)

    client_exhausted-Tested :
        (s : Ledger)
        → Counted (address_key a) log t s
        → Room
        → Tested (client_exhausted client_network is_shared_client_network s client t)
    unfolding client_exhausted
    client_exhausted-Tested s c room =
        if-branches Tested (is_shared_client_network client) (λ _. (c, λ _. room))
          (λ _. (spent-Counted (address_key a) log t s _ _ c, λ _. room))

    room_of :
        (s : Ledger)
        → Counted (address_key a) log t s
        → (spent s (address_key email) mail_send_window mail_send_address_cap t).1 ≡ false
        → Room
    room_of s c free same =
        let e : address_key email ≡ address_key a =
          (eq_iff (address_key email) (address_key a)).0 same in
        ground (
          arith,
          spent-answer s (address_key email) mail_send_window mail_send_address_cap t cap_pos,
          c.held t,
          e,
        )

    address_exhausted-Tested :
        (s : Ledger)
        → Counted (address_key a) log t s
        → Tested (address_exhausted client_network is_shared_client_network s email client t)
    unfolding address_exhausted
    address_exhausted-Tested s c =
        let read =
          spent-Counted (address_key a) log t s (address_key email) mail_send_address_cap c in
        if-branches Tested (spent s (address_key email) mail_send_window mail_send_address_cap t).1
          (λ _. (read, λ h. absurd (cc)))
          (λ free. client_exhausted-Tested _ read (room_of s c free))

    pub mail_sends_exhausted-Tested :
        (s : Ledger)
        → Counted (address_key a) log t s
        → Tested (mail_sends_exhausted client_network is_shared_client_network s email client t)
    unfolding mail_sends_exhausted
    mail_sends_exhausted-Tested s c =
        let read =
          spent-Counted (address_key a) log t s (pair_key client_network email client) mail_send_cap
            c in
        if-branches Tested
          (spent s (pair_key client_network email client) mail_send_window mail_send_cap t).1
          (λ _. (read, λ h. absurd (cc))) (λ free. address_exhausted-Tested _ read)

    charge_address-Counted :
        (rng : ℕ → ℕ) (s : Ledger)
        → Counted (address_key a) log t s
        → Room
        → keeps (address_key a) t s (charge_address s email rng t) ≡ true
        → Counted (address_key a) (with_send log a email t) t (charge_address s email rng t)
    charge_address-Counted rng s c room kept =
        elim (Bool-cases (address_key email == address_key a)) [
          | inl same ↦
              rw (same, (eq_iff (address_key email) (address_key a)).0 same)
                (charge-Counts mail_send_window mail_send_address_cap cap_pos rng (address_key a) s
                  log t (room same) c)
          | inr other ↦
              rw other
                (charge-Counted (address_key a) log t rng s (address_key email) _ other kept c)
        ]

    pub record_mail_send-Counted :
        (draws : ℕ → ℕ → ℕ) (s : Ledger)
        → Counted (address_key a) log t s
        → Room
        → kept_send (address_key a) s email client draws t ≡ true
        → Counted
            (address_key a)
            (with_send log a email t)
            t
            (record_mail_send client_network is_shared_client_network s email client draws t)
    unfolding record_mail_send kept_send
    record_mail_send-Counted draws s c room kept =
        let paired =
          charge-Counted (address_key a) log t (draws 0) s (pair_key client_network email client)
            mail_send_cap (pair_ne email client a) (ground arith) c in
        let addressed = charge_address-Counted (draws 1) _ paired room (ground arith) in
        charge_client-Counted (with_send log a email t) a client t (draws 2) _ addressed
          (ground arith)
