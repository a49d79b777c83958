-- ===== src/GuessBudget/Examples.antt =====
-- Tests of the guess budget, and its theorems at concrete inputs.
use agience_origin.Base.{
  ℕ, ◌+◌, ◌-◌, ◌*◌, ◌^◌, ◌⊎◌, max, ◌≤◌, ◌<◌, ◌≡◌, refl, true, List, [], ◌∷◌, Text, codes, text_beq,
  arith, length, get, put, pop, last?, init, normalize, normalize_idem, space,
}
use agience_origin.GuessBudget.Draws.{
  Float, times, nearest, rounded, excess, draws_per_window, window_cap,
}
use agience_origin.GuessBudget.Draws.Bounds.{window_cap_bounds}
use agience_origin.GuessBudget.Ledger.{
  empty, live, drop, make_room, spent, charge, max_tracked_identifiers,
}
use agience_origin.GuessBudget.Ledger.Wf.{empty-IsWf}
use agience_origin.GuessBudget.Ledger.Room.{make_room_bound}
use agience_origin.GuessBudget.Attempts.{
  Event, attempt, correct, spend, step, log_step, admitted, kept_step, kept, run,
}
use agience_origin.GuessBudget.Attempts.Limit.{admitted-le-cap}
use agience_origin.GuessBudget.Attempts.Upkeep.{IsSound, history-IsSound}

abbrev alice : Text
alice = codes "alice"

abbrev bob : Text
bob = codes "bob"

abbrev no_draws : ℕ → ℕ
no_draws n = 0

-- Two attempts are admitted, the third is not, and the window passes.
abbrev tries : List Event
tries =
    attempt no_draws alice 5
    ∷ attempt no_draws alice 6
    ∷ attempt no_draws bob 7
    ∷ attempt no_draws alice 8
    ∷ correct bob
    ∷ attempt no_draws alice 16
    ∷ []

tries-kept : kept 10 2 alice empty tries ≡ true
unfolding kept kept_step step spend spent charge make_room drop get put pop text_beq last? init
tries-kept = refl

tries-admitted : admitted 10 2 alice empty [] tries ≡ 5 ∷ 6 ∷ 16 ∷ []
unfolding admitted log_step step spend spent charge make_room drop get put pop text_beq last? init
tries-admitted = refl

admitted-le-cap_example : length (live (admitted 10 2 alice empty [] tries) 16 10) ≤ 2
admitted-le-cap_example =
    admitted-le-cap 10 2 (omega arith) alice tries 16 (omega arith) tries-kept (omega arith)

history-IsSound_example : IsSound (run 10 2 empty tries)
history-IsSound_example = history-IsSound 10 2 tries

make_room_bound_example :
    length (make_room 1 no_draws empty 10 20).entries < max_tracked_identifiers
make_room_bound_example = make_room_bound no_draws 10 20 1 empty empty-IsWf (omega arith)

-- 0.29, whose product with 100 is just below 29.
abbrev low_probability : Float
low_probability = record { mantissa = 5224175567749775; scale = 54 }

low_draws : draws_per_window low_probability 100 ≡ 28
unfolding draws_per_window times nearest rounded excess
low_draws = refl

window_cap_bounds_example :
    let draws = draws_per_window low_probability 100 in
    let cap = window_cap low_probability 100 3 in
    (1 ≤ draws)
    × ((draws ≡ 1) ⊎ (draws * 2 ^ 54 * 2 ^ 53 ≤ 5224175567749775 * 100 * (2 ^ 53 + 1)))
    × (5224175567749775 * 100 * (2 ^ 53 - 1) < (draws + 1) * 2 ^ 54 * 2 ^ 53)
    × (1 ≤ cap)
    × ((cap * 3 ≤ draws) ⊎ ((draws < 3) × (cap ≡ 1)))
    × (draws < (cap + 1) * max 1 3)
window_cap_bounds_example = window_cap_bounds low_probability 100 3 (omega arith)

normalize_test : normalize (codes "  Alice@Example.COM ") ≡ codes "alice@example.com"
unfolding normalize space
normalize_test = refl

normalize_idem_example : normalize (normalize (codes " Bob ")) ≡ normalize (codes " Bob ")
normalize_idem_example = normalize_idem (codes " Bob ")
