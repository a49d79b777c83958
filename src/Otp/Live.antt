-- ===== src/Otp/Live.antt =====
-- One code at a time: the query for the latest live code has one candidate at most.
use agience_origin.Base.{
  ℕ, ◌≤◌, inl, inr, Option, none, some, List, [], ◌∷◌, Text, nat_eq, arith, nocase, nocase_left,
  Bool-cases, update_where, count_where, count_where-append, count_where-update_le,
  count_where-delete_le, count_where_mono, count_where_zero, All-update_where,
}
use agience_origin.Otp.Codes.{
  OtpCode, Store, empty, is_valid, is_superseded, mark_used, is_claimable, add_attempt, is_usable,
  is_stale, create, supersede_live_for_email, claim_attempt, claim_use, delete_expired,
}
use agience_origin.Otp.Service.{
  max_attempts_per_code, limit_reached, issue_commit, claim_found, verify_claim,
}
use agience_origin.Otp.History.{
  Step, issue, guess, use_code, cleanup, time, step, run, InOrder, last_time,
}

-- At most one code of an address is unused and unexpired.
abbrev Single : Store → ℕ → Type 0
Single s now = (email : Text) → count_where (is_superseded email now) s.codes ≤ 1

Single-later : (s : Store) (now t : ℕ) → now ≤ t → Single s now → Single s t
Single-later s now t h v email = omega (
  arith,
  count_where_mono (is_superseded email t) (is_superseded email now) s.codes (λ r e. ground arith),
  v email,
)

issue-Single :
    (s : Store) (email hash : Text) (now : ℕ)
    → Single s now
    → Single (issue_commit s email hash now).0 now
unfolding issue_commit create supersede_live_for_email
issue-Single s email hash now v other = elim (Bool-cases (limit_reached s email now)) [
  | inl full ↦ rw full (v other)
  | inr free ↦
      rw
        (
          free,
          count_where-append (is_superseded other now)
              (update_where (is_superseded email now) mark_used s.codes),
        )
        (elim (Bool-cases (nocase email other)) [
          | inl same ↦ ground (
            arith,
            count_where_zero (is_superseded other now)
                (update_where (is_superseded email now) mark_used s.codes)
                (All-update_where _ (is_superseded email now) mark_used s.codes
                  (λ r. ground (arith, nocase_left email other r.email same))),
          )
          | inr differs ↦ ground (
            arith,
            count_where-update_le (is_superseded other now) (is_superseded email now) mark_used
                s.codes (λ r e k. ground arith),
            v other,
          )
        ])
]

claim_found-Single :
    (s : Store) (o : Option OtpCode) (now : ℕ) → Single s now → Single (claim_found s o now).0 now
unfolding claim_attempt
claim_found-Single s none now v = v
claim_found-Single s (some otp) now v = λ email. omega (
  arith,
  count_where-update_le (is_superseded email now) (is_claimable otp.id max_attempts_per_code now)
      add_attempt s.codes (λ r e k. k),
  v email,
)

step-Single :
    (s : Store) (e : Step) (now : ℕ) → now ≤ time e → Single s now → Single (step s e) (time e)
unfolding step verify_claim claim_use delete_expired
step-Single s (issue email hash t) now h v = issue-Single s email hash t (Single-later s now t h v)
step-Single s (guess email t) now h v = claim_found-Single s _ t (Single-later s now t h v)
step-Single s (use_code id t) now h v = λ email. omega (
  arith,
  count_where-update_le (is_superseded email t) (is_usable id) mark_used s.codes
      (λ r e k. ground arith),
  Single-later s now t h v email,
)
step-Single s (cleanup t) now h v = λ email. omega (
  arith,
  count_where-delete_le (is_superseded email t) (is_stale t) s.codes,
  Single-later s now t h v email,
)

run-Single :
    (es : List Step) (s : Store) (now : ℕ)
    → InOrder now es
    → Single s now
    → Single (run s es) (last_time now es)
unfolding run
run-Single [] s now o v = v
run-Single (e ∷ es) s now o v = run-Single es (step s e) (time e) o.1 (step-Single s e now o.0 v)

-- After any steps of any requests, at most one code is live for an address, so the query that
-- takes the latest one takes the only one.
pub live-le-one :
    (es : List Step) (email : Text) (t : ℕ)
    → InOrder 0 es
    → last_time 0 es ≤ t
    → count_where (is_valid email max_attempts_per_code t) (run empty es).codes ≤ 1
live-le-one es email t o h = omega (
  arith,
  count_where_mono (is_valid email max_attempts_per_code t) (is_superseded email t)
      (run empty es).codes (λ r e. ground arith),
  Single-later (run empty es) (last_time 0 es) t h (run-Single es empty 0 o (λ e. omega arith))
      email,
)
