-- ===== src/GuessBudget/Attempts/Limit.antt =====
-- The limit: inside any window no key is admitted more often than its cap.
use agience_origin.Base.{
  ℕ, ◌≤◌, ◌<◌, ◌≡◌, refl, sym, ap, subst, inl, inr, true, false, Option, none, some, List, [], ◌∷◌,
  ◌++◌, Text, ◌==◌, eq_iff, eq_refl, text_eq, nat_eq, arith, length, last_n, get, get-pop,
  keep-keep, keep-append, length-keep-le, length-append, last_n_of_length-le, Bool-cases,
}
use agience_origin.GuessBudget.Ledger.{
  Ledger, empty, live, is_live, is_empty, spent, charge, or_empty,
}
use agience_origin.GuessBudget.Ledger.Wf.{entries-drop}
use agience_origin.GuessBudget.Ledger.Room.{Left}
use agience_origin.GuessBudget.Ledger.Upkeep.{
  pruned, get-spent, spent-answer, get-charge_self, get-charge_ne,
}
use agience_origin.GuessBudget.Attempts.{
  Event, attempt, correct, InOrder, last_time, spend, step, log_step, admitted, kept_step, kept,
}

module _ (window cap : ℕ) (pos : 0 < cap) where
  -- What was live later was live before.
  live-live :
      (stamps : List ℕ) (now t : ℕ)
      → now ≤ t
      → live (live stamps now window) t window ≡ live stamps t window
  live-live stamps now t h =
      keep-keep (is_live t window) (is_live now window) stamps (λ s e. ground arith)

  pub live-pruned :
      (o : Option (List ℕ)) (now t : ℕ)
      → now ≤ t
      → live (or_empty (pruned o window now)) t window ≡ live (or_empty o) t window
  live-pruned none now t h = refl
  live-pruned (some held) now t h = ground (arith, live-live held now t h)

  -- What the ledger holds under `k` are the admitted attempts, as far as a window can see them.
  pub record Counts (k : Text) (s : Ledger) (log : List ℕ) (now : ℕ) : Type 0 where
    pub held : (t : ℕ) → now ≤ t → live (or_empty (get k s.entries)) t window ≡ live log t window
    pub within : length (live log now window) ≤ cap

  -- Time passes: fewer of the admitted attempts are inside the window.
  pub within_later :
      (log : List ℕ) (now t : ℕ)
      → now ≤ t
      → length (live log now window) ≤ cap
      → length (live log t window) ≤ cap
  within_later log now t h w = omega (
    arith,
    ap length (live-live log now t h),
    length-keep-le (is_live t window) (live log now window),
  )

  -- An admitted attempt, on a ledger that counts the log.
  admit-live :
      (log : List ℕ) (now t : ℕ)
      → now ≤ t
      → length (live log now window) < cap
      → live (last_n cap (live log now window ++ now ∷ [])) t window
        ≡ live (log ++ now ∷ []) t window
  admit-live log now t h room =
      rw
        (last_n_of_length-le cap (live log now window ++ now ∷ [])
          (omega (arith, length-append (live log now window) (now ∷ []))))
        (simp (keep-append (is_live t window)) (rw (live-live log now t h) refl))

  admit-within :
      (log : List ℕ) (now : ℕ)
      → length (live log now window) < cap
      → length (live (log ++ now ∷ []) now window) ≤ cap
  admit-within log now room = rw (keep-append (is_live now window) log (now ∷ [])) (
      omega (
        arith,
        length-append (live log now window) (live (now ∷ []) now window),
        length-keep-le (is_live now window) (now ∷ []),
      ))

  -- After a read of `k`.
  read-Counts :
      (k : Text) (s : Ledger) (log : List ℕ) (now t : ℕ)
      → now ≤ t
      → Counts k s log now
      → Counts k (spent s k window cap t).0 log t
  read-Counts k s log now t h c = record {
    held = λ u g. ground (
      arith,
      get-spent s k window cap t k,
      eq_refl k,
      live-pruned (get k s.entries) t u g,
      c.held u (omega arith),
    );
    within = within_later log now t h c.within;
  }

  pub charge-Counts :
      (rng : ℕ → ℕ) (k : Text) (s : Ledger) (log : List ℕ) (t : ℕ)
      → length (live log t window) < cap
      → Counts k s log t
      → Counts k (charge rng s k window cap t) (log ++ t ∷ []) t
  charge-Counts rng k s log t room c = record {
    held = λ u g.
        rw (get-charge_self rng s k window cap t, c.held t (omega arith))
          (admit-live log t u g room);
    within = admit-within log t room;
  }

  spend_self-Counts :
      (rng : ℕ → ℕ) (k : Text) (s : Ledger) (log : List ℕ) (now t : ℕ)
      → now ≤ t
      → Counts k s log now
      → Counts k
          (step window cap s (attempt rng k t))
          (log_step window cap k s log (attempt rng k t))
          t
  unfolding step log_step spend
  spend_self-Counts rng k s log now t h c = elim (Bool-cases (spent s k window cap t).1) [
    | inl full ↦ rw (step, log_step, spend, full, eq_refl k) (read-Counts k s log now t h c)
    | inr free ↦
        rw (step, log_step, spend, free, eq_refl k)
          (charge-Counts rng k _ log t
            (ground (arith, spent-answer s k window cap t pos, c.held t h))
            (read-Counts k s log now t h c))
  ]

  other_step-Left :
      (rng : ℕ → ℕ) (k j : Text) (s : Ledger) (t : ℕ)
      → (j == k) ≡ false
      → Left k s (step window cap s (attempt rng j t))
  unfolding step spend
  other_step-Left rng k j s t ne = ground (
    arith,
    get-spent s j window cap t k,
    get-charge_ne rng (spent s j window cap t).0 j window cap t k ne,
  )

  log_step_ne :
      (k j : Text) (s : Ledger) (log : List ℕ) (rng : ℕ → ℕ) (t : ℕ)
      → (j == k) ≡ false
      → log_step window cap k s log (attempt rng j t) ≡ log
  unfolding log_step
  log_step_ne k j s log rng t ne = rw ne refl

  pub empty_later :
      (stamps : List ℕ) (t u : ℕ)
      → t ≤ u
      → is_empty (live stamps t window) ≡ true
      → live stamps u window ≡ []
  empty_later stamps t u h e = ground (arith, live-live stamps t u h)

  spend_other-Counts :
      (rng : ℕ → ℕ) (k j : Text) (s : Ledger) (log : List ℕ) (now t : ℕ)
      → now ≤ t
      → (j == k) ≡ false
      → kept_step window cap k s (attempt rng j t) ≡ true
      → Counts k s log now
      → Counts k (step window cap s (attempt rng j t)) log t
  unfolding kept_step
  spend_other-Counts rng k j s log now t h ne keeps c = record {
    held = λ u g. ground (
      arith,
      other_step-Left rng k j s t ne,
      empty_later (or_empty (get k s.entries)) t u g,
      c.held u (omega arith),
    );
    within = within_later log now t h c.within;
  }

  correct-Counts :
      (k j : Text) (s : Ledger) (log : List ℕ) (now : ℕ)
      → Counts k s log now
      → Counts k (step window cap s (correct j)) (log_step window cap k s log (correct j)) now
  unfolding step log_step
  correct-Counts k j s log now c = elim (Bool-cases (j == k)) [
    | inl e ↦
        rw (log_step, e)
          (record {
            held = λ u g. ground (arith, entries-drop s j, get-pop j k s.entries);
            within = omega arith;
          })
    | inr e ↦
        rw (log_step, e)
          (record {
            held = λ u g. ground (arith, entries-drop s j, get-pop j k s.entries, c.held u g);
            within = c.within;
          })
  ]

  attempt-Counts :
      (rng : ℕ → ℕ) (k j : Text) (s : Ledger) (log : List ℕ) (now t : ℕ)
      → now ≤ t
      → kept_step window cap k s (attempt rng j t) ≡ true
      → Counts k s log now
      → Counts k
          (step window cap s (attempt rng j t))
          (log_step window cap k s log (attempt rng j t))
          t
  attempt-Counts rng k j s log now t h keeps c = elim (Bool-cases (j == k)) [
    | inl e ↦
        subst
          (λ i.
            Counts k (step window cap s (attempt rng i t))
              (log_step window cap k s log (attempt rng i t)) t)
          (sym ((eq_iff j k).0 e)) (spend_self-Counts rng k s log now t h c)
    | inr e ↦
        rw (log_step_ne k j s log rng t e) (spend_other-Counts rng k j s log now t h e keeps c)
  ]

  -- The limit, from any ledger that counts the attempts so far.
  pub history-within :
      (k : Text) (es : List Event) (s : Ledger) (log : List ℕ) (now : ℕ)
      → InOrder now es
      → kept window cap k s es ≡ true
      → Counts k s log now
      → length (live (admitted window cap k s log es) (last_time now es) window) ≤ cap
  unfolding admitted kept
  history-within k [] s log now o keeps c = c.within
  history-within k (attempt rng j t ∷ es) s log now o keeps c =
      history-within k es _ _ t o.1 (ground arith)
        (attempt-Counts rng k j s log now t o.0 (ground arith) c)
  history-within k (correct j ∷ es) s log now o keeps c =
      history-within k es _ _ now o (ground arith) (correct-Counts k j s log now c)

  pub empty-Counts : (k : Text) → Counts k empty [] 0
  unfolding get
  empty-Counts k = record { held = λ u g. refl; within = omega arith }

  -- Whatever is tried, under whatever keys and in whatever order, at any later time at most `cap`
  -- of the attempts admitted under `k` since its credential last proved correct are inside the
  -- window, provided that no other key's attempt made room by dropping `k` inside its window.
  pub admitted-le-cap :
      (k : Text) (es : List Event) (t : ℕ)
      → InOrder 0 es
      → kept window cap k empty es ≡ true
      → last_time 0 es ≤ t
      → length (live (admitted window cap k empty [] es) t window) ≤ cap
  admitted-le-cap k es t o keeps h =
      within_later (admitted window cap k empty [] es) (last_time 0 es) t h
        (history-within k es empty [] 0 o keeps (empty-Counts k))
