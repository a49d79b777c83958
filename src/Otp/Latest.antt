-- ===== src/Otp/Latest.antt =====
-- `get_latest_valid_for_email` returns a row of the table that is live for the address.
use agience_origin.Base.{
  ℕ, ◌≡◌, inl, inr, true, some, List, [], ◌∷◌, Text, leb, Bool-cases, In, In-select,
}
use agience_origin.Otp.Codes.{
  OtpCode, Store, is_valid, insert_newest, newest_first, head?, get_latest_valid_for_email,
}

In-insert_newest : (q r : OtpCode) (rs : List OtpCode) → In q (insert_newest r rs) → In q (r ∷ rs)
unfolding insert_newest
In-insert_newest q r [] m = m
In-insert_newest q r (p ∷ rs) m = elim (Bool-cases (leb p.created_time r.created_time)) [
  | inl e ↦ rw (insert_newest, e) at m
  | inr e ↦ past q r p rs (In-insert_newest q r rs) (rw (insert_newest, e) at m)
]
  where
    past :
        (q r p : OtpCode) (rs : List OtpCode)
        → (In q (insert_newest r rs) → In q (r ∷ rs))
        → In q (p ∷ insert_newest r rs)
        → In q (r ∷ p ∷ rs)
    past q r p rs deeper (inl e) = inr (inl e)
    past q r p rs deeper (inr m) = elim (deeper m) [ inl e ↦ inl e | inr k ↦ inr (inr k) ]

In-newest_first : (q : OtpCode) (rs : List OtpCode) → In q (newest_first rs) → In q rs
unfolding newest_first
In-newest_first q [] m = m
In-newest_first q (r ∷ rs) m = elim (In-insert_newest q r (newest_first rs) m) [
  | inl e ↦ inl e
  | inr e ↦ inr (In-newest_first q rs e)
]

In-head? : (q : OtpCode) (rs : List OtpCode) → head? rs ≡ some q → In q rs
In-head? q [] h = absurd (cc)
In-head? q (r ∷ rs) h = inl (cc)

pub latest-In :
    (s : Store) (email : Text) (max_attempts now : ℕ) (otp : OtpCode)
    → get_latest_valid_for_email s email max_attempts now ≡ some otp
    → In otp s.codes × (is_valid email max_attempts now otp ≡ true)
unfolding get_latest_valid_for_email
latest-In s email max_attempts now otp h =
    In-select (is_valid email max_attempts now) otp s.codes
      (In-newest_first otp _ (In-head? otp _ h))
