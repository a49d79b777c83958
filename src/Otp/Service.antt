-- ===== src/Otp/Service.antt =====
-- services/otp_service.py. A request runs in steps, between which other requests may run: each
-- `await` is a step's end. The hash, its comparison and the sign-in of the person are parameters:
-- bcrypt is a library, and `get_or_create_user_by_email` is a component of its own.
use agience_origin.Base.{
  ℕ, ◌+◌, Bool, true, false, Option, none, some, Text, ltb, if◌then◌else◌, normalize,
}
use agience_origin.GuessBudget.Draws.{
  Float, draws_per_window, window_cap, times, nearest, rounded, excess,
}
use agience_origin.Otp.Codes.{
  OtpCode, Store, minutes, create, get_latest_valid_for_email, count_recent_misses,
  supersede_live_for_email, claim_attempt, claim_use, delete_expired,
}

abbrev pub expiry : ℕ
expiry = minutes 10

abbrev pub issue_window : ℕ
issue_window = minutes 15

abbrev pub code_space : ℕ
code_space = 1000000

abbrev pub max_attempts_per_code : ℕ
max_attempts_per_code = 3

-- 1.5e-5 as a double, over a space of a million
abbrev pub max_guess_probability : Float
max_guess_probability = record { mantissa = 8854437155380585; scale = 69 }

unfoldable pub max_draws_per_window : ℕ
unfolding draws_per_window times nearest rounded excess
max_draws_per_window = draws_per_window max_guess_probability code_space

unfoldable pub otp_window_cap : ℕ
unfolding window_cap draws_per_window times nearest rounded excess
otp_window_cap = window_cap max_guess_probability code_space max_attempts_per_code

-- Whether another code for the address is refused now ("guess-rate").
unfoldable pub limit_reached : Store → Text → ℕ → Bool
limit_reached s email now =
    ltb max_draws_per_window (count_recent_misses s email issue_window now + max_attempts_per_code)

-- `issue_otp` after the hash: the limits are checked again, and the code is recorded.
unfoldable pub issue_commit : Store → Text → Text → ℕ → Store × Bool
issue_commit s email code_hash now =
    if limit_reached s email now
    then (s, false)
    else (create (supersede_live_for_email s email now).0 email code_hash (now + expiry) now, true)

-- The whole of `issue_otp`: `first` is the store at the first check, `second` the store once the
-- hash is there. The result says whether the code goes out.
unfoldable pub issue_otp : Store → ℕ → Store → ℕ → Text → Text → Store × Bool
issue_otp first started second now email code_hash =
    if limit_reached first (normalize email) started
    then (second, false)
    else issue_commit second (normalize email) code_hash now

-- `verify_otp` up to its first commit: one attempt is spent on the live code.
abbrev pub claim_found : Store → Option OtpCode → ℕ → Store × Option OtpCode
claim_found s none now = (s, none)
claim_found s (some otp) now =
    let (spent, claimed) = claim_attempt s otp.id max_attempts_per_code now in
    (spent, if claimed then some otp else none)

unfoldable pub verify_claim : Store → Text → ℕ → Store × Option OtpCode
verify_claim s email now =
    claim_found s (get_latest_valid_for_email s email max_attempts_per_code now) now

-- `verify_otp` after the comparison: the code is marked used, and the person is signed in. A person
-- who is refused rolls the mark back.
module _ (compare_hash : Text → Text → Bool) (sign_in : Text → Option Text) where
  abbrev pub signed_in : Store → Store × Bool → Option Text → Store × Option Text
  signed_in before (after, false) person = (before, none)
  signed_in before (after, true) none = (before, none)
  signed_in before (after, true) (some id) = (after, some id)

  unfoldable pub verify_finish : Store → Option OtpCode → Text → Text → Store × Option Text
  verify_finish s none email code = (s, none)
  verify_finish s (some otp) email code =
      if compare_hash code otp.code_hash
      then signed_in s (claim_use s otp.id) (sign_in email)
      else (s, none)

  -- A verification that no other request interrupts.
  unfoldable pub verify_otp : Store → Text → Text → ℕ → Store × Option Text
  verify_otp s email code now =
      let (spent, claimed) = verify_claim s (normalize email) now in
      verify_finish spent claimed (normalize email) code

unfoldable pub cleanup_expired : Store → ℕ → Store × ℕ
cleanup_expired s now = delete_expired s now
