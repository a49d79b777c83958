-- ===== src/GuessBudget/Attempts/Upkeep.antt =====
-- The ledger over a history: well formed and within its bound after any attempts.
use agience_origin.Base.{
  ℕ, ◌≤◌, List, [], ◌∷◌, arith, length, Text, Bool-cases, length-pop, pop_absent, Option-cases, get,
  text_eq, inl, inr, ap, is_some,
}
use agience_origin.GuessBudget.Ledger.{Ledger, empty, drop, spent, max_tracked_identifiers}
use agience_origin.GuessBudget.Ledger.Wf.{IsWf, empty-IsWf, drop-IsWf, entries-drop}
use agience_origin.GuessBudget.Ledger.Upkeep.{
  spent-IsWf, charge-IsWf, length-spent-le, length-charge-le,
}
use agience_origin.GuessBudget.Attempts.{Event, attempt, correct, spend, step, run}

pub record IsSound (s : Ledger) : Type 0 where
  pub wf : IsWf s
  pub bounded : length s.entries ≤ max_tracked_identifiers

length-drop-le : (s : Ledger) (key : Text) → IsWf s → length (drop s key).entries ≤ length s.entries
length-drop-le s key w = rw entries-drop (elim (Option-cases (get key s.entries)) [
  | inl e ↦ rw (pop_absent key s.entries e) (omega arith)
  | inr (v, e) ↦ omega (arith, length-pop key s.entries w.distinct (ap is_some e))
])

spend-IsSound :
    (rng : ℕ → ℕ) (s : Ledger) (key : Text) (window cap now : ℕ)
    → IsSound s
    → IsSound (spend rng s key window cap now).0
unfolding spend
spend-IsSound rng s key window cap now v =
    let read : IsSound (spent s key window cap now).0 = record {
      wf = spent-IsWf s key window cap now v.wf;
      bounded = omega (arith, length-spent-le s key window cap now v.wf, v.bounded);
    } in
    elim (Bool-cases (spent s key window cap now).1) [
      | inl full ↦ rw (spend, full) read
      | inr free ↦
          rw (spend, free)
            (record {
              wf = charge-IsWf rng (spent s key window cap now).0 key window cap now read.wf;
              bounded =
                  length-charge-le rng (spent s key window cap now).0 key window cap now read.wf
                    read.bounded;
            })
    ]

step-IsSound : (window cap : ℕ) (s : Ledger) (e : Event) → IsSound s → IsSound (step window cap s e)
unfolding step
step-IsSound window cap s (attempt rng key t) v = spend-IsSound rng s key window cap t v
step-IsSound window cap s (correct key) v = record {
  wf = drop-IsWf s v.wf key;
  bounded = omega (arith, length-drop-le s key v.wf, v.bounded);
}

run-IsSound :
    (window cap : ℕ) (es : List Event) (s : Ledger) → IsSound s → IsSound (run window cap s es)
unfolding run
run-IsSound window cap [] s v = v
run-IsSound window cap (e ∷ es) s v =
    run-IsSound window cap es (step window cap s e) (step-IsSound window cap s e v)

-- After any attempts and any proofs of credentials, whatever the random draws: the keys of the
-- ledger are distinct, slots and slot index are inverse to one another on exactly those keys, and
-- there are at most `max_tracked_identifiers` of them.
pub history-IsSound : (window cap : ℕ) (es : List Event) → IsSound (run window cap empty es)
history-IsSound window cap es =
    run-IsSound window cap es empty (record { wf = empty-IsWf; bounded = omega arith })
