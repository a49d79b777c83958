-- ===== src/Otp/Examples.antt =====
-- Tests of the one-time codes, and the theorems at concrete inputs. The hash is the identity here.
use agience_origin.Base.{
  ◌+◌, ◌≤◌, ◌≡◌, refl, Bool, true, false, Option, some, List, [], ◌∷◌, Text, codes, text_beq,
  nat_eq, text_eq, ◌==◌, arith, count_where, In, normalize, space, nocase, lower_char,
}
use agience_origin.GuessBudget.Draws.{draws_per_window}
use agience_origin.Otp.Codes.{
  OtpCode, Store, empty, is_valid, create, get_latest_valid_for_email, count_recent_misses,
  supersede_live_for_email, claim_attempt, claim_use, delete_expired,
}
use agience_origin.Otp.Service.{
  expiry, issue_window, max_attempts_per_code, max_draws_per_window, limit_reached, issue_commit,
  issue_otp, verify_claim, verify_finish, verify_otp,
}
use agience_origin.Otp.History.{
  Step, issue, guess, use_code, cleanup, step, run, log_step, guesses, is_recent,
}
use agience_origin.Otp.Draws.{guesses-le-draws}
use agience_origin.Otp.Live.{live-le-one}
use agience_origin.Otp.Single.{claim_use_once}
use agience_origin.Otp.Verify.{verify_otp_sound, issued_code_verifies}

abbrev address : Text
address = codes "a@x.org"

abbrev same : Text → Text → Bool
same code hash = code == hash

abbrev sign_in : Text → Option Text
sign_in email = some (codes "p1")

-- A code, two guesses, a new code and a guess at that.
abbrev script : List Step
script =
    issue address (codes "111111") 100
    ∷ guess address 200
    ∷ guess address 300
    ∷ issue address (codes "222222") 400
    ∷ guess address 500
    ∷ use_code 1 600
    ∷ cleanup 700
    ∷ []

script-guesses : count_where (is_recent address issue_window 800) (guesses empty [] script) ≡ 3
unfolding guesses log_step step verify_claim issue_commit limit_reached max_draws_per_window
    draws_per_window count_recent_misses create supersede_live_for_email get_latest_valid_for_email
    claim_attempt claim_use delete_expired nocase text_beq lower_char
script-guesses = refl

guesses-le-draws_example :
    count_where (is_recent address issue_window 800) (guesses empty [] script)
    ≤ max_draws_per_window
guesses-le-draws_example = guesses-le-draws script address 800 (omega arith) (omega arith)

live-le-one_example : count_where (is_valid address 3 800) (run empty script).codes ≤ 1
live-le-one_example = live-le-one script address 800 (omega arith) (omega arith)

abbrev issued : List Step
issued = issue address (codes "111111") 100 ∷ []

issued_wins : (claim_use (run empty issued) 0).1 ≡ true
unfolding run step issue_commit limit_reached max_draws_per_window draws_per_window
    count_recent_misses create supersede_live_for_email claim_use
issued_wins = refl

claim_use_once_example :
    (claim_use (run (claim_use (run empty issued) 0).0 (guess address 200 ∷ [])) 0).1 ≡ false
claim_use_once_example = claim_use_once issued (guess address 200 ∷ []) 0 issued_wins

abbrev one_code : Store
one_code = record {
  codes =
      record {
        id = 0;
        email = address;
        code_hash = codes "111111";
        expires_at = 100 + expiry;
        attempts = 0;
        used = false;
        created_time = 100;
      }
      ∷ [];
  next_id = 1;
}

one_code_verifies :
    (verify_otp same sign_in one_code (codes " A@x.org") (codes "111111") 200).1 ≡ some (codes "p1")
unfolding verify_otp verify_claim verify_finish get_latest_valid_for_email claim_attempt claim_use
    nocase normalize space text_beq lower_char
one_code_verifies = refl

verify_otp_sound_example :
    (otp : OtpCode) × In otp one_code.codes
    × (is_valid (normalize (codes " A@x.org")) max_attempts_per_code 200 otp ≡ true)
    × (same (codes "111111") otp.code_hash ≡ true)
    × (sign_in (normalize (codes " A@x.org")) ≡ some (codes "p1"))
verify_otp_sound_example =
    verify_otp_sound same sign_in one_code (codes " A@x.org") (codes "111111") 200 (codes "p1")
      one_code_verifies

empty_issues : issue_otp empty 50 empty 100 address (codes "111111") ≡ (one_code, true)
unfolding issue_otp issue_commit limit_reached max_draws_per_window draws_per_window
    count_recent_misses create supersede_live_for_email normalize space lower_char
empty_issues = refl

same_code : same (codes "111111") (codes "111111") ≡ true
unfolding text_beq
same_code = refl

issued_code_verifies_example :
    (verify_otp same sign_in one_code address (codes "111111") 200).1 ≡ some (codes "p1")
issued_code_verifies_example =
    issued_code_verifies same sign_in empty 50 empty one_code address (codes "111111")
      (codes "111111") 100 200 (codes "p1") tt empty_issues (omega arith) (omega arith) same_code
      refl
