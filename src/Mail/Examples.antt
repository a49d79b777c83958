-- ===== src/Mail/Examples.antt =====
-- The budget at concrete requests: a client is its own network, and none is shared.
use agience_origin.Base.{
  ℕ, ◌≤◌, ◌≡◌, refl, Bool, true, false, some, List, [], ◌∷◌, Text, codes, text_eq, text_beq, arith,
  length, get, put, pop, last?, init, normalize, space,
}
use agience_origin.GuessBudget.Ledger.{empty, live, drop, make_room, spent, charge}
use agience_origin.Otp.Service.{otp_window_cap}
use agience_origin.Mail.Budget.{
  Request, mail_send_window, mail_send_address_cap, mail_send_client_cap, address_key, pair_key,
  client_key, is_address, client_exhausted, address_exhausted, mail_sends_exhausted, charge_client,
  record_mail_send, mail_send_admitted,
}
use agience_origin.Mail.Counted.{keeps, kept_send}
use agience_origin.Mail.Inbox.{sends_step, sends, kept_step, kept, sends-le-cap}

abbrev own_network : Text → Text
own_network client = client

abbrev none_shared : Text → Bool
none_shared client = false

abbrev ask : Text → Text → ℕ → Request
ask email client now = record {
  email = email;
  client = some client;
  draws = λ charge n. 0;
  now = now;
}

abbrev ann : Text
ann = codes "a@b"

-- The sixth request of one client is one too many, another client still has its own.
abbrev requests : List Request
requests =
    ask ann (codes "x") 1
    ∷ ask ann (codes "x") 2
    ∷ ask ann (codes "x") 3
    ∷ ask (codes "A@b ") (codes "x") 4
    ∷ ask ann (codes "x") 5
    ∷ ask ann (codes "x") 6
    ∷ ask (codes "ab") (codes "x") 7
    ∷ ask ann (codes "y") 8
    ∷ []

requests-sends : sends own_network none_shared ann empty [] requests ≡ 1 ∷ 2 ∷ 3 ∷ 4 ∷ 5 ∷ 8 ∷ []
unfolding sends sends_step mail_send_admitted mail_sends_exhausted address_exhausted
    client_exhausted record_mail_send charge_client is_address address_key pair_key client_key
    mail_send_address_cap mail_send_client_cap otp_window_cap spent charge make_room drop get put
    pop text_beq last? init normalize space
requests-sends = refl

requests-kept : kept own_network none_shared ann empty requests ≡ true
unfolding kept kept_step kept_send keeps mail_send_admitted mail_sends_exhausted address_exhausted
    client_exhausted record_mail_send charge_client is_address address_key pair_key client_key
    mail_send_address_cap mail_send_client_cap otp_window_cap spent charge make_room drop get put
    pop text_beq last? init normalize space
requests-kept = refl

sends-le-cap_example :
    length (live (sends own_network none_shared ann empty [] requests) 9 mail_send_window)
    ≤ mail_send_address_cap
sends-le-cap_example =
    sends-le-cap own_network none_shared ann requests 9
      (
        omega arith,
        (
          omega arith,
          (
            omega arith,
            (omega arith, (omega arith, (omega arith, (omega arith, (omega arith, tt))))),
          ),
        ),
      )
      requests-kept (omega arith)
