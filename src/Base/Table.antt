-- ===== src/Base/Table.antt =====
-- Tables of a relational store: rows in insertion order, and the statements over them.
use Prim.Native.Nat.{ℕ, ◌+◌, ◌≤◌}
use mathlib.Core.Bool.{Bool, true, false}
use mathlib.Core.List.{List, [], ◌∷◌, ◌++◌}
use mathlib.Core.Logic.{◌⊎◌, inl, inr}
use mathlib.Core.Path.{◌≡◌, refl, sym, subst}
use native.Mathlib.Omega.{arith}
use agience_origin.Base.Tests.{if◌then◌else◌, Bool-cases}
use agience_origin.Base.Lists.{All}

module _ {R : Type 0} where
  -- UPDATE … WHERE p SET f
  abbrev pub update_where : (R → Bool) → (R → R) → List R → List R
  update_where p f [] = []
  update_where p f (r ∷ rs) = (if p r then f r else r) ∷ update_where p f rs

  -- DELETE … WHERE p
  abbrev pub delete_where : (R → Bool) → List R → List R
  delete_where p [] = []
  delete_where p (r ∷ rs) = if p r then delete_where p rs else r ∷ delete_where p rs

  -- SELECT … WHERE p
  abbrev pub select_where : (R → Bool) → List R → List R
  select_where p [] = []
  select_where p (r ∷ rs) = if p r then r ∷ select_where p rs else select_where p rs

  -- The rows that a statement touches.
  abbrev pub count_where : (R → Bool) → List R → ℕ
  count_where p [] = 0
  count_where p (r ∷ rs) = (if p r then 1 else 0) + count_where p rs

  -- SELECT sum(f) …
  abbrev pub sum_of : (R → ℕ) → List R → ℕ
  sum_of f [] = 0
  sum_of f (r ∷ rs) = f r + sum_of f rs

  pub sum_of-append : (f : R → ℕ) (rs ss : List R) → sum_of f (rs ++ ss) ≡ sum_of f rs + sum_of f ss
  sum_of-append f [] ss = omega arith
  sum_of-append f (r ∷ rs) ss = omega (arith, sum_of-append f rs ss)

  pub count_where-append :
      (p : R → Bool) (rs ss : List R)
      → count_where p (rs ++ ss) ≡ count_where p rs + count_where p ss
  count_where-append p [] ss = omega arith
  count_where-append p (r ∷ rs) ss = omega (arith, count_where-append p rs ss)

  pub sum_of_mono : (f g : R → ℕ) (rs : List R) → ((r : R) → f r ≤ g r) → sum_of f rs ≤ sum_of g rs
  sum_of_mono f g [] h = omega arith
  sum_of_mono f g (r ∷ rs) h = omega (arith, sum_of_mono f g rs h, h r)

  -- A statement that raises no row's share raises no sum.
  pub sum_of-update_le :
      (f : R → ℕ) (p : R → Bool) (u : R → R) (rs : List R)
      → ((r : R) → p r ≡ true → f (u r) ≤ f r)
      → sum_of f (update_where p u rs) ≤ sum_of f rs
  sum_of-update_le f p u [] h = omega arith
  sum_of-update_le f p u (r ∷ rs) h = ground (arith, sum_of-update_le f p u rs h, h r)

  pub sum_of-update_eq :
      (f : R → ℕ) (p : R → Bool) (u : R → R) (rs : List R)
      → ((r : R) → p r ≡ true → f (u r) ≡ f r)
      → sum_of f (update_where p u rs) ≡ sum_of f rs
  sum_of-update_eq f p u [] h = omega arith
  sum_of-update_eq f p u (r ∷ rs) h = ground (arith, sum_of-update_eq f p u rs h, h r)

  pub sum_of-delete_le :
      (f : R → ℕ) (p : R → Bool) (rs : List R) → sum_of f (delete_where p rs) ≤ sum_of f rs
  sum_of-delete_le f p [] = omega arith
  sum_of-delete_le f p (r ∷ rs) = ground (arith, sum_of-delete_le f p rs)

  pub All-append : (P : R → Type 0) (rs ss : List R) → All P rs → All P ss → All P (rs ++ ss)
  All-append P [] ss h k = k
  All-append P (r ∷ rs) ss h k = (h.0, All-append P rs ss h.1 k)

  pub update_where-All :
      (P : R → Type 0) (p : R → Bool) (u : R → R) (rs : List R)
      → ((r : R) → p r ≡ true → P r → P (u r))
      → All P rs
      → All P (update_where p u rs)
  update_where-All P p u [] k h = tt
  update_where-All P p u (r ∷ rs) k h = (
    (elim (Bool-cases (p r)) [ inl e ↦ rw e (k r e h.0) | inr e ↦ rw e (h.0) ]),
    update_where-All P p u rs k h.1,
  )

  pub delete_where-All :
      (P : R → Type 0) (p : R → Bool) (rs : List R) → All P rs → All P (delete_where p rs)
  delete_where-All P p [] h = tt
  delete_where-All P p (r ∷ rs) h = elim (Bool-cases (p r)) [
    | inl e ↦ rw e (delete_where-All P p rs h.1)
    | inr e ↦ rw e (h.0, delete_where-All P p rs h.1)
  ]

  -- The row stands in the table.
  abbrev pub In : R → List R → Type 0
  In r [] = ⊥
  In r (q ∷ rs) = (q ≡ r) ⊎ In r rs

  In-select_hit :
      (p : R → Bool) (r q : R) (rs : List R)
      → p q ≡ true
      → (In r (select_where p rs) → In r rs × (p r ≡ true))
      → In r (q ∷ select_where p rs)
      → In r (q ∷ rs) × (p r ≡ true)
  In-select_hit p r q rs e deeper (inl same) = (inl same, subst (λ x. p x ≡ true) same e)
  In-select_hit p r q rs e deeper (inr m) = let (m', holds) = deeper m in (inr m', holds)

  pub In-select :
      (p : R → Bool) (r : R) (rs : List R) → In r (select_where p rs) → In r rs × (p r ≡ true)
  In-select p r [] m = absurd m
  In-select p r (q ∷ rs) m = elim (Bool-cases (p q)) [
    | inl e ↦ In-select_hit p r q rs e (In-select p r rs) (rw (e, select_where) at m)
    | inr e ↦
        let (deeper, holds) = In-select p r rs (rw (e, select_where) at m) in (inr deeper, holds)
  ]

  pub In-All : (P : R → Type 0) (r : R) (rs : List R) → All P rs → In r rs → P r
  In-All P r [] h m = absurd m
  In-All P r (q ∷ rs) h (inl e) = subst P e h.0
  In-All P r (q ∷ rs) h (inr m) = In-All P r rs h.1 m

  -- A statement that raises a row's share raises the sum by as much.
  pub sum_of-update_ge :
      (f : R → ℕ) (p : R → Bool) (u : R → R) (rs : List R)
      → ((q : R) → f q ≤ f (u q))
      → sum_of f rs ≤ sum_of f (update_where p u rs)
  sum_of-update_ge f p u [] h = omega arith
  sum_of-update_ge f p u (r ∷ rs) h = ground (arith, sum_of-update_ge f p u rs h, h r)

  pub sum_of-update_gain :
      (f : R → ℕ) (p : R → Bool) (u : R → R) (r : R) (k : ℕ) (rs : List R)
      → ((q : R) → f q ≤ f (u q))
      → p r ≡ true
      → f r + k ≤ f (u r)
      → In r rs
      → sum_of f rs + k ≤ sum_of f (update_where p u rs)
  sum_of-update_gain f p u r k [] h e g m = absurd m
  sum_of-update_gain f p u r k (q ∷ rs) h e g (inl at) =
      subst (λ x. sum_of f (x ∷ rs) + k ≤ sum_of f (update_where p u (x ∷ rs))) (sym at)
        (ground (arith, sum_of-update_ge f p u rs h))
  sum_of-update_gain f p u r k (q ∷ rs) h e g (inr m) =
      ground (arith, h q, sum_of-update_gain f p u r k rs h e g m)

  -- Rows without a share can go.
  pub sum_of-delete_eq :
      (f : R → ℕ) (p : R → Bool) (rs : List R)
      → All (λ r. p r ≡ true → f r ≡ 0) rs
      → sum_of f (delete_where p rs) ≡ sum_of f rs
  sum_of-delete_eq f p [] h = refl
  sum_of-delete_eq f p (r ∷ rs) h = elim (Bool-cases (p r)) [
    | inl e ↦ rw (e, delete_where) (omega (arith, h.0 e, sum_of-delete_eq f p rs h.1))
    | inr e ↦ rw (e, delete_where) (omega (arith, sum_of-delete_eq f p rs h.1))
  ]

  pub sum_of_zero : (f : R → ℕ) (rs : List R) → All (λ r. f r ≡ 0) rs → sum_of f rs ≡ 0
  sum_of_zero f [] h = refl
  sum_of_zero f (r ∷ rs) h = omega (arith, h.0, sum_of_zero f rs h.1)

  pub All-total : (P : R → Type 0) (rs : List R) → ((r : R) → P r) → All P rs
  All-total P [] h = tt
  All-total P (r ∷ rs) h = (h r, All-total P rs h)

  pub All-map : (P Q : R → Type 0) (rs : List R) → ((r : R) → P r → Q r) → All P rs → All Q rs
  All-map P Q [] h k = tt
  All-map P Q (r ∷ rs) h k = (h r k.0, All-map P Q rs h k.1)

  pub count_where-sum_of :
      (p : R → Bool) (rs : List R) → count_where p rs ≡ sum_of (λ r. if p r then 1 else 0) rs
  count_where-sum_of p [] = refl
  count_where-sum_of p (r ∷ rs) = omega (arith, count_where-sum_of p rs)

  -- A statement after which no touched row is left to touch.
  pub count_where-update_le :
      (p q : R → Bool) (u : R → R) (rs : List R)
      → ((r : R) → q r ≡ true → p (u r) ≡ true → p r ≡ true)
      → count_where p (update_where q u rs) ≤ count_where p rs
  count_where-update_le p q u [] h = omega arith
  count_where-update_le p q u (r ∷ rs) h = ground (arith, count_where-update_le p q u rs h, h r)

  pub count_where-delete_le :
      (p q : R → Bool) (rs : List R) → count_where p (delete_where q rs) ≤ count_where p rs
  count_where-delete_le p q [] = omega arith
  count_where-delete_le p q (r ∷ rs) = ground (arith, count_where-delete_le p q rs)

  pub count_where_mono :
      (p q : R → Bool) (rs : List R)
      → ((r : R) → p r ≡ true → q r ≡ true)
      → count_where p rs ≤ count_where q rs
  count_where_mono p q [] h = omega arith
  count_where_mono p q (r ∷ rs) h = ground (arith, count_where_mono p q rs h, h r)

  pub count_where_zero :
      (p : R → Bool) (rs : List R) → All (λ r. p r ≡ false) rs → count_where p rs ≡ 0
  count_where_zero p [] h = refl
  count_where_zero p (r ∷ rs) h = ground (arith, count_where_zero p rs h.1, h.0)

  pub count_where_none :
      (p : R → Bool) (rs : List R) → count_where p rs ≡ 0 → All (λ r. p r ≡ false) rs
  count_where_none p [] h = tt
  count_where_none p (r ∷ rs) h = (ground arith, count_where_none p rs (ground arith))

  pub select_where_none :
      (p : R → Bool) (rs : List R) → All (λ r. p r ≡ false) rs → select_where p rs ≡ []
  select_where_none p [] h = refl
  select_where_none p (r ∷ rs) h = ground (arith, select_where_none p rs h.1, h.0)

  pub select_where-append :
      (p : R → Bool) (rs ss : List R)
      → select_where p (rs ++ ss) ≡ select_where p rs ++ select_where p ss
  select_where-append p [] ss = refl
  select_where-append p (r ∷ rs) ss = ground (arith, select_where-append p rs ss)

  -- A row that was touched is there.
  pub count_where-In :
      (p : R → Bool) (rs : List R) → count_where p rs ≡ 1 → (r : R) × In r rs × (p r ≡ true)
  count_where-In p [] h = absurd (omega arith)
  count_where-In p (r ∷ rs) h = elim (Bool-cases (p r)) [
    | inl e ↦ (r, inl refl, e)
    | inr e ↦ let (q, m, k) = count_where-In p rs (ground arith) in (q, inr m, k)
  ]

  pub All-update_where :
      (P : R → Type 0) (p : R → Bool) (u : R → R) (rs : List R)
      → ((r : R) → P (if p r then u r else r))
      → All P (update_where p u rs)
  All-update_where P p u [] h = tt
  All-update_where P p u (r ∷ rs) h = (h r, All-update_where P p u rs h)

  pub update_where-append :
      (p : R → Bool) (u : R → R) (rs ss : List R)
      → update_where p u (rs ++ ss) ≡ update_where p u rs ++ update_where p u ss
  update_where-append p u [] ss = refl
  update_where-append p u (r ∷ rs) ss =
      λ i. (if p r then u r else r) ∷ update_where-append p u rs ss i
