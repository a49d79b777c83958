-- ===== src/Otp/Single.antt =====
-- Each code once: a code that was used stays used, and its id is not given out again.
use agience_origin.Base.{
  ℕ, ◌<◌, ◌≡◌, refl, inl, inr, true, false, Option, none, some, List, [], ◌∷◌, nat_eq, arith,
  Bool-cases, All, update_where, count_where_zero, count_where-In, All-update_where, All-append,
  All-map, update_where-All, delete_where-All, In-All,
}
use agience_origin.Otp.Codes.{
  OtpCode, Store, empty, is_superseded, mark_used, is_claimable, add_attempt, is_usable, is_stale,
  create, supersede_live_for_email, claim_attempt, claim_use, delete_expired,
}
use agience_origin.Otp.Service.{
  max_attempts_per_code, limit_reached, issue_commit, claim_found, verify_claim,
}
use agience_origin.Otp.History.{Step, issue, guess, use_code, cleanup, step, run}

-- Ids are given out once.
abbrev pub Numbered : Store → Type 0
Numbered s = All (λ r. r.id < s.next_id) s.codes

-- Every row of a code that was used is used, and its id is not given out again.
abbrev IsUsed : ℕ → Store → Type 0
IsUsed id s = (id < s.next_id) × All (λ r. r.id ≡ id → r.used ≡ true) s.codes

claim_found-IsUsed :
    (id : ℕ) (s : Store) (o : Option OtpCode) (now : ℕ)
    → IsUsed id s
    → IsUsed id (claim_found s o now).0
unfolding claim_attempt
claim_found-IsUsed id s none now u = u
claim_found-IsUsed id s (some otp) now u = (
  u.0,
  update_where-All _ (is_claimable otp.id max_attempts_per_code now) add_attempt s.codes
      (λ r e k. k) u.1,
)

step-IsUsed : (id : ℕ) (s : Store) (e : Step) → IsUsed id s → IsUsed id (step s e)
unfolding step issue_commit create supersede_live_for_email verify_claim claim_use delete_expired
step-IsUsed id s (issue email hash t) u = elim (Bool-cases (limit_reached s email t)) [
  | inl full ↦ rw (step, issue_commit, full) u
  | inr free ↦
      rw (step, issue_commit, free)
        (
          omega (arith, u.0),
          All-append _ (update_where (is_superseded email t) mark_used s.codes) _
              (update_where-All _ (is_superseded email t) mark_used s.codes (λ r e k _. refl) u.1)
              ((λ h. absurd (omega (arith, u.0))), tt),
        )
]
step-IsUsed id s (guess email t) u = claim_found-IsUsed id s _ t u
step-IsUsed id s (use_code i t) u =
    (u.0, update_where-All _ (is_usable i) mark_used s.codes (λ r e k _. refl) u.1)
step-IsUsed id s (cleanup t) u = (u.0, delete_where-All _ (is_stale t) s.codes u.1)

run-IsUsed : (es : List Step) (id : ℕ) (s : Store) → IsUsed id s → IsUsed id (run s es)
unfolding run
run-IsUsed [] id s u = u
run-IsUsed (e ∷ es) id s u = run-IsUsed es id (step s e) (step-IsUsed id s e u)

claim_found-Numbered :
    (s : Store) (o : Option OtpCode) (now : ℕ) → Numbered s → Numbered (claim_found s o now).0
unfolding claim_attempt
claim_found-Numbered s none now v = v
claim_found-Numbered s (some otp) now v =
    update_where-All _ (is_claimable otp.id max_attempts_per_code now) add_attempt s.codes
      (λ r e k. k) v

step-Numbered : (s : Store) (e : Step) → Numbered s → Numbered (step s e)
unfolding step issue_commit create supersede_live_for_email verify_claim claim_use delete_expired
step-Numbered s (issue email hash t) v = elim (Bool-cases (limit_reached s email t)) [
  | inl full ↦ rw (step, issue_commit, full) v
  | inr free ↦
      rw (step, issue_commit, free)
        (All-append _ (update_where (is_superseded email t) mark_used s.codes) _
          (update_where-All _ (is_superseded email t) mark_used s.codes (λ r e k. k)
            (All-map _ _ s.codes (λ r k. omega (arith, k)) v))
          (omega arith, tt))
]
step-Numbered s (guess email t) v = claim_found-Numbered s _ t v
step-Numbered s (use_code i t) v = update_where-All _ (is_usable i) mark_used s.codes (λ r e k. k) v
step-Numbered s (cleanup t) v = delete_where-All _ (is_stale t) s.codes v

pub run-Numbered : (es : List Step) (s : Store) → Numbered s → Numbered (run s es)
unfolding run
run-Numbered [] s v = v
run-Numbered (e ∷ es) s v = run-Numbered es (step s e) (step-Numbered s e v)

IsUsed-once :
    (s : Store) (id : ℕ) → Numbered s → (claim_use s id).1 ≡ true → IsUsed id (claim_use s id).0
unfolding claim_use
IsUsed-once s id v won =
    let (r, m, e) = count_where-In (is_usable id) s.codes (ground arith) in
    (
      ground (arith, In-All (λ r. r.id < s.next_id) r s.codes v m),
      All-update_where _ (is_usable id) mark_used s.codes (λ r. ground arith),
    )

IsUsed-claim_use : (s : Store) (id : ℕ) → IsUsed id s → (claim_use s id).1 ≡ false
unfolding claim_use
IsUsed-claim_use s id u = ground (
  arith,
  count_where_zero (is_usable id) s.codes (All-map _ _ s.codes (λ r k. ground (arith, k)) u.1),
)

-- Of all the verifications of one code, one at most wins it: after one did, whatever runs in
-- between, cleanups and new codes included, no other does.
pub claim_use_once :
    (before after : List Step) (id : ℕ)
    → (claim_use (run empty before) id).1 ≡ true
    → (claim_use (run (claim_use (run empty before) id).0 after) id).1 ≡ false
claim_use_once before after id won =
    IsUsed-claim_use _ id
      (run-IsUsed after id _ (IsUsed-once (run empty before) id (run-Numbered before empty tt) won))
