-- ===== src/Base/Rows.antt =====
-- Which rows stand in a table after a statement, and which of them is found first.
use mathlib.Core.Bool.{Bool, true, false}
use mathlib.Core.List.{List, [], ◌∷◌, ◌++◌}
use mathlib.Core.Logic.{◌⊎◌, inl, inr}
use mathlib.Core.Option.{none, some}
use mathlib.Core.Path.{◌≡◌, refl, sym, ap, subst, ◌∙◌}
use native.Mathlib.Omega.{arith}
use agience_origin.Base.Tests.{if◌then◌else◌, Bool-cases, if-branches}
use agience_origin.Base.Lists.{any, first}
use agience_origin.Base.Table.{In, update_where, delete_where}

module _ {R : Type 0} where
  pub In-append : (r : R) (rs ss : List R) → In r (rs ++ ss) → In r rs ⊎ In r ss
  In-append r [] ss m = inr m
  In-append r (q ∷ rs) ss (inl e) = inl (inl e)
  In-append r (q ∷ rs) ss (inr m) = elim (In-append r rs ss m) [
    | inl k ↦ inl (inr k)
    | inr k ↦ inr k
  ]

  In-delete_miss :
      (p : R → Bool) (r q : R) (rs : List R)
      → p q ≡ false
      → (In r (delete_where p rs) → In r rs × (p r ≡ false))
      → In r (q ∷ delete_where p rs)
      → In r (q ∷ rs) × (p r ≡ false)
  In-delete_miss p r q rs e deeper (inl same) = (inl same, subst (λ x. p x ≡ false) same e)
  In-delete_miss p r q rs e deeper (inr m) = let (k, h) = deeper m in (inr k, h)

  pub In-delete :
      (p : R → Bool) (r : R) (rs : List R) → In r (delete_where p rs) → In r rs × (p r ≡ false)
  In-delete p r [] m = absurd m
  In-delete p r (q ∷ rs) m = elim (Bool-cases (p q)) [
    | inl e ↦ let (k, h) = In-delete p r rs (rw (e, delete_where) at m) in (inr k, h)
    | inr e ↦ In-delete_miss p r q rs e (In-delete p r rs) (rw (e, delete_where) at m)
  ]

  -- A row after an update is an updated row, or one that was not touched.
  pub In-update :
      (p : R → Bool) (u : R → R) (r : R) (rs : List R)
      → In r (update_where p u rs)
      → ((q : R) × In q rs × (p q ≡ true) × (u q ≡ r)) ⊎ (In r rs × (p r ≡ false))
  In-update p u r [] m = absurd m
  In-update p u r (q ∷ rs) (inl e) = elim (Bool-cases (p q)) [
    | inl hit ↦ inl (q, inl refl, hit, (rw hit at e))
    | inr miss ↦
        let same : q ≡ r = rw miss at e in inr (inl same, subst (λ x. p x ≡ false) same miss)
  ]
  In-update p u r (q ∷ rs) (inr m) = elim (In-update p u r rs m) [
    | inl (x, k, h, e) ↦ inl (x, inr k, h, e)
    | inr (k, h) ↦ inr (inr k, h)
  ]

  pub any-In : (p : R → Bool) (r : R) (rs : List R) → In r rs → any p rs ≡ false → p r ≡ false
  any-In p r [] m h = absurd m
  any-In p r (q ∷ rs) (inl e) h = subst (λ x. p x ≡ false) e (ground arith)
  any-In p r (q ∷ rs) (inr m) h = any-In p r rs m (ground arith)

  pub In-any : (p : R → Bool) (r : R) (rs : List R) → In r rs → p r ≡ true → any p rs ≡ true
  In-any p r [] m h = absurd m
  In-any p r (q ∷ rs) (inl e) h =
      let k : p q ≡ true = subst (λ x. p x ≡ true) (sym e) h in rw k refl
  In-any p r (q ∷ rs) (inr m) h = ground (arith, In-any p r rs m h)

  pub any-exists : (p : R → Bool) (rs : List R) → any p rs ≡ true → (r : R) × In r rs × (p r ≡ true)
  any-exists p [] h = absurd (cc)
  any-exists p (r ∷ rs) h = elim (Bool-cases (p r)) [
    | inl e ↦ (r, inl refl, e)
    | inr e ↦ let (q, m, hit) = any-exists p rs (ground arith) in (q, inr m, hit)
  ]

  pub any_none : (p : R → Bool) (rs : List R) → ((r : R) → In r rs → p r ≡ false) → any p rs ≡ false
  any_none p [] h = refl
  any_none p (q ∷ rs) h = rw (h q (inl refl)) (any_none p rs (λ r m. h r (inr m)))

  pub first-In : (p : R → Bool) (r : R) (rs : List R) → first p rs ≡ some r → In r rs × (p r ≡ true)
  first-In p r [] h = absurd (cc)
  first-In p r (q ∷ rs) h = elim (Bool-cases (p q)) [
    | inl e ↦ let same : q ≡ r = ground arith in (inl same, subst (λ x. p x ≡ true) same e)
    | inr e ↦ let (m, k) = first-In p r rs (ground arith) in (inr m, k)
  ]

  pub first-none : (p : R → Bool) (rs : List R) → any p rs ≡ false → first p rs ≡ none
  first-none p [] h = refl
  first-none p (q ∷ rs) h = ground (arith, first-none p rs)

  pub any-first : (p : R → Bool) (rs : List R) → first p rs ≡ none → any p rs ≡ false
  any-first p [] h = refl
  any-first p (q ∷ rs) h = ground (arith, any-first p rs)

  -- What was found first is found first after rows are added at the end.
  pub first-append :
      (p : R → Bool) (r : R) (rs ss : List R) → first p rs ≡ some r → first p (rs ++ ss) ≡ some r
  first-append p r [] ss h = absurd (cc)
  first-append p r (q ∷ rs) ss h = ground (arith, first-append p r rs ss)

  pub first-append_none :
      (p : R → Bool) (r : R) (rs : List R)
      → any p rs ≡ false
      → p r ≡ true
      → first p (rs ++ r ∷ []) ≡ some r
  first-append_none p r [] h k = rw k refl
  first-append_none p r (q ∷ rs) h k = ground (arith, first-append_none p r rs)

  -- The first row that is found, after an update that does not change what finds it.
  pub first-update :
      (p hit : R → Bool) (f : R → R) (r : R) (rs : List R)
      → ((q : R) → hit q ≡ true → p (f q) ≡ p q)
      → first p rs ≡ some r
      → first p (update_where hit f rs) ≡ some (if hit r then f r else r)
  first-update p hit f r [] h e = absurd (cc)
  first-update p hit f r (q ∷ rs) h e = elim (Bool-cases (p q)) [
    | inl found ↦
        let same : q ≡ r = ground arith in
        let still : p (if hit q then f q else q) ≡ true =
          if-branches (λ x. p x ≡ true) (hit q) (λ yes. h q yes ∙ found) (λ no. found) in
        rw still (ap (λ x. some (if hit x then f x else x)) same)
    | inr missed ↦
        let still : p (if hit q then f q else q) ≡ false =
          if-branches (λ x. p x ≡ false) (hit q) (λ yes. h q yes ∙ missed) (λ no. missed) in
        rw still (first-update p hit f r rs h (ground arith))
  ]

  -- An update that never touches what a test finds, nor makes another row pass it.
  pub first-update_other :
      (p hit : R → Bool) (f : R → R) (rs : List R)
      → ((q : R) → hit q ≡ true → (p q ≡ false) × (p (f q) ≡ false))
      → first p (update_where hit f rs) ≡ first p rs
  first-update_other p hit f [] h = refl
  first-update_other p hit f (q ∷ rs) h = elim (Bool-cases (hit q)) [
    | inl e ↦ rw (e, (h q e).0, (h q e).1) (first-update_other p hit f rs h)
    | inr e ↦ rw e (ap (λ t. if p q then some q else t) (first-update_other p hit f rs h))
  ]
