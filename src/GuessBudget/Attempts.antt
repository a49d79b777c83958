-- ===== src/GuessBudget/Attempts.antt =====
-- `spend_password_attempt`, `spend_confirmation_attempt` and the two `clear_…` functions, over the
-- ledger that each of them counts in, and histories of such calls.
pub mod Limit
pub mod Upkeep
use agience_origin.Base.{
  ℕ, ◌≤◌, Bool, true, false, ◌&&◌, ◌||◌, List, [], ◌∷◌, ◌++◌, Text, ◌==◌, text_eq, if◌then◌else◌,
  is_some, get,
}
use agience_origin.GuessBudget.Ledger.{Ledger, drop, spent, charge, live, is_empty, or_empty}

-- The check and the charge are one step, under the lock.
unfoldable pub spend : (ℕ → ℕ) → Ledger → Text → ℕ → ℕ → ℕ → Ledger × Bool
spend rng s key window cap now =
    let (read, full) = spent s key window cap now in
    if full then (read, false) else (charge rng read key window cap now, true)

-- An attempt under a key at a time, with the random numbers that it may draw, or a credential
-- that proved correct.
pub data Event : Type 0 where
  attempt : (ℕ → ℕ) → Text → ℕ → Event
  correct : Text → Event

-- The times of the attempts are in order, from `now` on.
abbrev pub InOrder : ℕ → List Event → Type 0
InOrder now [] = Unit {0}
InOrder now (attempt rng key t ∷ es) = (now ≤ t) × InOrder t es
InOrder now (correct key ∷ es) = InOrder now es

abbrev pub last_time : ℕ → List Event → ℕ
last_time now [] = now
last_time now (attempt rng key t ∷ es) = last_time t es
last_time now (correct key ∷ es) = last_time now es

module _ (window cap : ℕ) where
  unfoldable pub step : Ledger → Event → Ledger
  step s (attempt rng key t) = (spend rng s key window cap t).0
  step s (correct key) = drop s key

  -- The times at which attempts under `k` were admitted since its credential last proved correct.
  unfoldable pub log_step : Text → Ledger → List ℕ → Event → List ℕ
  log_step k s log (attempt rng key t) =
      if key == k && (spend rng s key window cap t).1 then log ++ t ∷ [] else log
  log_step k s log (correct key) = if key == k then [] else log

  unfoldable pub admitted : Text → Ledger → List ℕ → List Event → List ℕ
  admitted k s log [] = log
  admitted k s log (e ∷ es) = admitted k (step s e) (log_step k s log e) es

  -- No attempt under another key made room by dropping `k` inside its window.
  unfoldable pub kept_step : Text → Ledger → Event → Bool
  kept_step k s (attempt rng key t) =
      is_some (get k (step s (attempt rng key t)).entries)
      || is_empty (live (or_empty (get k s.entries)) t window)
  kept_step k s (correct key) = true

  unfoldable pub kept : Text → Ledger → List Event → Bool
  kept k s [] = true
  kept k s (e ∷ es) = kept_step k s e && kept k (step s e) es

  unfoldable pub run : Ledger → List Event → Ledger
  run s [] = s
  run s (e ∷ es) = run (step s e) es
