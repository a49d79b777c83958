-- ===== src/Otp/Draws.antt =====
-- The guess rate: however requests interleave, the codes that an address was issued inside a window
-- are guessed at no more often than the stated tolerance buys.
use agience_origin.Base.{ℕ, ◌≤◌, List, [], ◌∷◌, Text, nat_eq, arith, count_where, sum_of_mono}
use agience_origin.Otp.Share.{Inv, share, later, guess-Inv, use-Inv, cleanup-Inv, issue-Inv}
use agience_origin.Otp.Codes.{OtpCode, Store, miss_share, empty}
use agience_origin.Otp.Service.{issue_window, max_draws_per_window}
use agience_origin.Otp.History.{
  Step, issue, guess, use_code, cleanup, time, step, run, InOrder, last_time, log_step, guesses,
  is_recent,
}

step-Inv :
    (s : Store) (log : List OtpCode) (e : Step) (now : ℕ)
    → now ≤ time e
    → Inv s log now
    → Inv (step s e) (log_step s log e) (time e)
unfolding step log_step
step-Inv s log (issue email hash t) now h v = issue-Inv s log email hash t (later h v)
step-Inv s log (guess email t) now h v = guess-Inv s log email t (later h v)
step-Inv s log (use_code id t) now h v = use-Inv s log id t (later h v)
step-Inv s log (cleanup t) now h v = cleanup-Inv s log t (later h v)

run-Inv :
    (es : List Step) (s : Store) (log : List OtpCode) (now : ℕ)
    → InOrder now es
    → Inv s log now
    → Inv (run s es) (guesses s log es) (last_time now es)
unfolding run guesses
run-Inv [] s log now o v = v
run-Inv (e ∷ es) s log now o v =
    run-Inv es (step s e) (log_step s log e) (time e) o.1 (step-Inv s log e now o.0 v)

empty-Inv : Inv empty [] 0
empty-Inv = record { bounded = λ email. omega arith; counted = λ email t h. omega arith; aged = tt }

-- Whatever steps run, of whatever requests and in whatever order, at any time after them the
-- guesses that were compared with codes issued to an address inside the window are at most
-- `max_draws_per_window`, also when old rows have been deleted in between.
pub guesses-le-draws :
    (es : List Step) (email : Text) (t : ℕ)
    → InOrder 0 es
    → last_time 0 es ≤ t
    → count_where (is_recent email issue_window t) (guesses empty [] es) ≤ max_draws_per_window
guesses-le-draws es email t o h =
    let v = run-Inv es empty [] 0 o empty-Inv in
    omega (
      arith,
      v.counted email t h,
      (later h v).bounded email,
      sum_of_mono (miss_share email issue_window t) (share email t) (run empty es).codes
          (λ r. omega arith),
    )
