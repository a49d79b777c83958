-- ===== src/Otp/History.antt =====
-- Histories of the steps that touch the table, in any interleaving of requests, and the guesses
-- that they take.
use agience_origin.Base.{
  ℕ, ◌+◌, ◌≤◌, Bool, ◌&&◌, Option, none, some, List, [], ◌∷◌, ◌++◌, Text, leb, nocase,
}
use agience_origin.Otp.Codes.{OtpCode, Store, claim_use, delete_expired}
use agience_origin.Otp.Service.{issue_commit, verify_claim}

-- Each step with its reading of the clock.
pub data Step : Type 0 where
  issue : Text → Text → ℕ → Step
  guess : Text → ℕ → Step
  use_code : ℕ → ℕ → Step
  cleanup : ℕ → Step

abbrev pub time : Step → ℕ
time (issue email hash t) = t
time (guess email t) = t
time (use_code id t) = t
time (cleanup t) = t

unfoldable pub step : Store → Step → Store
step s (issue email hash t) = (issue_commit s email hash t).0
step s (guess email t) = (verify_claim s email t).0
step s (use_code id t) = (claim_use s id).0
step s (cleanup t) = (delete_expired s t).0

unfoldable pub run : Store → List Step → Store
run s [] = s
run s (e ∷ es) = run (step s e) es

abbrev pub InOrder : ℕ → List Step → Type 0
InOrder now [] = Unit {0}
InOrder now (e ∷ es) = (now ≤ time e) × InOrder (time e) es

abbrev pub last_time : ℕ → List Step → ℕ
last_time now [] = now
last_time now (e ∷ es) = last_time (time e) es

-- A guess that reached a comparison, by the code it was tested against.
abbrev pub guessed : List OtpCode → Option OtpCode → List OtpCode
guessed log none = log
guessed log (some otp) = log ++ otp ∷ []

unfoldable pub log_step : Store → List OtpCode → Step → List OtpCode
log_step s log (guess email t) = guessed log (verify_claim s email t).1
log_step s log e = log

unfoldable pub guesses : Store → List OtpCode → List Step → List OtpCode
guesses s log [] = log
guesses s log (e ∷ es) = guesses (step s e) (log_step s log e) es

-- A guess at the address's codes that were issued inside the window.
abbrev pub is_recent : Text → ℕ → ℕ → OtpCode → Bool
is_recent email window now r = nocase r.email email && leb now (r.created_time + window)
