-- ===== src/Passkey/Once.antt =====
-- Histories of the table of challenges, and that a challenge is consumed once.
use agience_origin.Base.{
  ℕ, ◌≤◌, ◌≡◌, refl, Bool, true, false, not, ◌&&◌, Option, none, some, List, [], ◌∷◌, Text, ◌==◌,
  text_eq, eq_iff, inl, inr, arith, if-branches, any, All, update_where, count_where,
  count_where-append, count_where-update_le, count_where-delete_le, count_where_mono, Bool-cases,
  subst, count_where_mono, Bool-cases, subst,
}
use agience_origin.Passkey.Challenges.{
  PasskeyChallenge, create, is_challenge, is_live, mark_consumed, consume, is_over, delete_expired,
}

pub data Act : Type 0 where
  issue : Text → Text → Option Text → ℕ → Act
  take : Text → Text → ℕ → Act
  sweep : ℕ → Act

-- A challenge that is refused is rolled back.
abbrev pub created_or :
    List PasskeyChallenge → Option (List PasskeyChallenge) → List PasskeyChallenge
created_or rows none = rows
created_or rows (some rows') = rows'

unfoldable pub act : List PasskeyChallenge → Act → List PasskeyChallenge
act rows (issue challenge purpose person_id now) =
    created_or rows (create rows challenge purpose person_id now)
act rows (take challenge purpose now) = (consume rows challenge purpose now).0
act rows (sweep now) = delete_expired rows now

unfoldable pub act_all : List PasskeyChallenge → List Act → List PasskeyChallenge
act_all rows [] = rows
act_all rows (a ∷ acts) = act_all (act rows a) acts

-- The act does not issue the challenge anew.
abbrev pub spares : Text → Act → Bool
spares c (issue challenge purpose person_id now) = not (challenge == c)
spares c (take challenge purpose now) = true
spares c (sweep now) = true

module _ (c : Text) where
  abbrev is_unused : PasskeyChallenge → Bool
  is_unused r = is_challenge c r && not r.used

  count_none :
      (rows : List PasskeyChallenge)
      → any (is_challenge c) rows ≡ false
      → count_where (is_challenge c) rows ≡ 0
  count_none [] h = refl
  count_none (r ∷ rows) h = ground (arith, count_none rows)

  count-create :
      (rows : List PasskeyChallenge) (challenge purpose : Text) (person_id : Option Text) (now : ℕ)
      → count_where (is_challenge c) rows ≤ 1
      → count_where (is_challenge c) (created_or rows (create rows challenge purpose person_id now))
        ≤ 1
  unfolding create
  count-create rows challenge purpose person_id now h =
      if-branches (λ o. count_where (is_challenge c) (created_or rows o) ≤ 1)
        (any (is_challenge challenge) rows) (λ _. h)
        (λ free.
          rw (count_where-append (is_challenge c) rows _) (elim (Bool-cases (challenge == c)) [
            | inl e ↦
                let empty = count_none rows (
                  subst (λ x. any (is_challenge x) rows ≡ false) ((eq_iff challenge c).0 e) free) in
                rw e (omega (arith, empty))
            | inr e ↦ rw e (omega arith)
          ]))

  act-Single :
      (rows : List PasskeyChallenge) (a : Act)
      → count_where (is_challenge c) rows ≤ 1
      → count_where (is_challenge c) (act rows a) ≤ 1
  unfolding act consume delete_expired
  act-Single rows (issue challenge purpose person_id now) h =
      count-create rows challenge purpose person_id now h
  act-Single rows (take challenge purpose now) h =
      if-branches
        (λ (out : List PasskeyChallenge × Option PasskeyChallenge).
          count_where (is_challenge c) out.0 ≤ 1)
        (any (is_live challenge purpose now) rows) (λ _. kept) (λ _. kept)
    where
      kept :
          count_where
            (is_challenge c)
            (update_where (is_live challenge purpose now) mark_consumed rows)
          ≤ 1
      kept = omega (
        arith,
        count_where-update_le (is_challenge c) (is_live challenge purpose now) mark_consumed rows
            (λ r _ k. k),
      )
  act-Single rows (sweep now) h =
      omega (arith, count_where-delete_le (is_challenge c) (is_over now) rows)

  all-Single :
      (rows : List PasskeyChallenge) (acts : List Act)
      → count_where (is_challenge c) rows ≤ 1
      → count_where (is_challenge c) (act_all rows acts) ≤ 1
  unfolding act_all
  all-Single rows [] h = h
  all-Single rows (a ∷ acts) h = all-Single (act rows a) acts (act-Single rows a h)

  -- Of one row at most, the one that is consumed is the one that is unused.
  unused_of_count :
      (rows : List PasskeyChallenge)
      → count_where is_unused rows ≤ count_where (is_challenge c) rows
  unused_of_count rows = count_where_mono is_unused (is_challenge c) rows (λ r h. ground arith)

  live_counts :
      (rows : List PasskeyChallenge) (purpose : Text) (now : ℕ)
      → any (is_live c purpose now) rows ≡ true
      → 1 ≤ count_where (is_challenge c) rows
  live_counts [] purpose now k = absurd (ground arith)
  live_counts (r ∷ rows) purpose now k = ground (arith, live_counts rows purpose now)

  consumed_unused :
      (rows : List PasskeyChallenge) (purpose : Text) (now : ℕ)
      → count_where (is_challenge c) rows ≤ 1
      → any (is_live c purpose now) rows ≡ true
      → count_where is_unused (update_where (is_live c purpose now) mark_consumed rows) ≡ 0
  consumed_unused [] purpose now h k = absurd (ground arith)
  consumed_unused (r ∷ rows) purpose now h k = ground (
    arith,
    consumed_unused rows purpose now,
    live_counts rows purpose now,
    unused_of_count (update_where (is_live c purpose now) mark_consumed rows),
    count_where-update_le (is_challenge c) (is_live c purpose now) mark_consumed rows (λ q _ e. e),
  )

  act-unused :
      (rows : List PasskeyChallenge) (a : Act)
      → spares c a ≡ true
      → count_where is_unused rows ≡ 0
      → count_where is_unused (act rows a) ≡ 0
  unfolding act consume delete_expired create
  act-unused rows (issue challenge purpose person_id now) s h =
      if-branches (λ o. count_where is_unused (created_or rows o) ≡ 0)
        (any (is_challenge challenge) rows) (λ _. h)
        (λ _. rw (count_where-append is_unused rows _) (ground arith))
  act-unused rows (take challenge purpose now) s h =
      if-branches
        (λ (out : List PasskeyChallenge × Option PasskeyChallenge). count_where is_unused out.0 ≡ 0)
        (any (is_live challenge purpose now) rows) (λ _. kept) (λ _. kept)
    where
      kept :
          count_where is_unused (update_where (is_live challenge purpose now) mark_consumed rows)
          ≡ 0
      kept = omega (
        arith,
        count_where-update_le is_unused (is_live challenge purpose now) mark_consumed rows
            (λ r _ k. ground arith),
      )
  act-unused rows (sweep now) s h =
      omega (arith, count_where-delete_le is_unused (is_over now) rows)

  All-unused :
      (rows : List PasskeyChallenge) (acts : List Act)
      → All (λ a. spares c a ≡ true) acts
      → count_where is_unused rows ≡ 0
      → count_where is_unused (act_all rows acts) ≡ 0
  unfolding act_all
  All-unused rows [] s h = h
  All-unused rows (a ∷ acts) s h = All-unused (act rows a) acts s.1 (act-unused rows a s.0 h)

  none_live :
      (rows : List PasskeyChallenge) (purpose : Text) (now : ℕ)
      → count_where is_unused rows ≡ 0
      → any (is_live c purpose now) rows ≡ false
  none_live [] purpose now h = refl
  none_live (r ∷ rows) purpose now h = ground (arith, none_live rows purpose now)

  won_live :
      (rows : List PasskeyChallenge) (purpose : Text) (now : ℕ) (won : PasskeyChallenge)
      → (consume rows c purpose now).1 ≡ some won
      → any (is_live c purpose now) rows ≡ true
  unfolding consume
  won_live rows purpose now won =
      if-branches
        (λ (out : List PasskeyChallenge × Option PasskeyChallenge).
          out.1 ≡ some won → any (is_live c purpose now) rows ≡ true)
        (any (is_live c purpose now) rows) (λ e _. e) (λ _ h. absurd (cc))

  lost_again :
      (rows : List PasskeyChallenge) (purpose : Text) (now : ℕ)
      → count_where is_unused rows ≡ 0
      → (consume rows c purpose now).1 ≡ none
  unfolding consume
  lost_again rows purpose now h = rw (none_live rows purpose now h) refl

  after_win :
      (rows : List PasskeyChallenge) (purpose : Text) (now : ℕ) (won : PasskeyChallenge)
      → count_where (is_challenge c) rows ≤ 1
      → (consume rows c purpose now).1 ≡ some won
      → count_where is_unused (act rows (take c purpose now)) ≡ 0
  unfolding act consume
  after_win rows purpose now won single h =
      let live = won_live rows purpose now won h in
      let gone = consumed_unused rows purpose now single live in
      if-branches
        (λ (out : List PasskeyChallenge × Option PasskeyChallenge). count_where is_unused out.0 ≡ 0)
        (any (is_live c purpose now) rows) (λ _. gone) (λ _. gone)

  -- A challenge that was consumed is not consumed again, for whatever purpose and at whatever
  -- time, whatever acts on the table come in between, provided that none of them issues the same
  -- challenge anew.
  pub consume_once :
      (before between : List Act) (purpose other_purpose : Text) (now later : ℕ)
      (won : PasskeyChallenge)
      → (consume (act_all [] before) c purpose now).1 ≡ some won
      → All (λ a. spares c a ≡ true) between
      → (consume
          (act_all (act (act_all [] before) (take c purpose now)) between)
          c
          other_purpose
          later).1
        ≡ none
  consume_once before between purpose other_purpose now later won h s =
      let rows = act_all [] before in
      lost_again (act_all (act rows (take c purpose now)) between) other_purpose later (
        All-unused (act rows (take c purpose now)) between s
          (after_win rows purpose now won (all-Single [] before (omega arith)) h))
