-- ===== src/GuessBudget/Draws/Bounds.antt =====
-- How near the derived budgets are to the probability that they are derived from, and how a window
-- is shared among units.
use native.Mathlib.Nat.{pow-suc, mul-le-mul_right}
use agience_origin.Base.{
  ℕ, zero, suc, ◌+◌, ◌-◌, ◌*◌, ◌/◌, ◌%◌, ◌^◌, ◌≤◌, ◌<◌, ◌≡◌, ◌⊎◌, refl, ap, ◌∙◌, inl, inr, ◌&&◌,
  ◌||◌, ◌==◌, nat_eq, eq_iff, ltb, if-branches, max, arith,
}
use agience_origin.GuessBudget.Draws.{
  Float, excess, rounded, nearest, times, draws_per_window, window_cap,
}

-- A quotient, and one where it is none.
at_least_one :
    (q d b : ℕ)
    → 1 ≤ d
    → q * b ≤ d
    → d < (q + 1) * b
    → ((max 1 q * b ≤ d) ⊎ ((d < b) × (max 1 q ≡ 1))) × (d < (max 1 q + 1) * b)
at_least_one zero d b some_draw low high = (inr (omega arith, refl), omega arith)
at_least_one (suc q) d b some_draw low high =
    let same : max 1 (suc q) ≡ suc q = omega arith in rw same (inl low, high)

quotient_bounds : (d b : ℕ) → 0 < b → (d / b * b ≤ d) × (d < (d / b + 1) * b)
quotient_bounds d b pos = (omega arith, omega arith)

unit_bounds :
    (d unit : ℕ)
    → 1 ≤ d
    → let cap = max 1 (d / max 1 unit) in
      ((cap * unit ≤ d) ⊎ ((d < unit) × (cap ≡ 1))) × (d < (cap + 1) * max 1 unit)
unit_bounds d zero some_draw =
    let (low, high) = quotient_bounds d 1 (omega arith) in
    (inl (omega arith), (at_least_one (d / 1) d 1 some_draw low high).1)
unit_bounds d (suc u) some_draw =
    let (low, high) = quotient_bounds d (suc u) (omega arith) in
    let same : max 1 (suc u) ≡ suc u = omega arith in
    rw same (at_least_one (d / suc u) d (suc u) some_draw low high)

pow_pos : (k : ℕ) → 0 < 2 ^ k
pow_pos zero = omega arith
pow_pos (suc k) = omega (arith, pow-suc 2 k, pow_pos k)

-- The halvings stop by their test: what is kept has 53 bits, and no bit is lost without need.
excess_enough : (fuel n : ℕ) → n < 2 ^ 53 * 2 ^ fuel → n < 2 ^ 53 * 2 ^ excess fuel n
unfolding excess
excess_enough zero n h = h
excess_enough (suc fuel) n h =
    let rest = excess fuel (n / 2) in
    if-branches (λ k. n < 2 ^ 53 * 2 ^ k) (ltb n (2 ^ 53)) (λ small. ground arith)
      (λ big.
        let deeper = excess_enough fuel (n / 2) (omega (arith, pow-suc 2 fuel, h)) in
        omega (arith, pow-suc 2 rest, deeper))

excess_needed : (fuel n : ℕ) → (excess fuel n ≡ 0) ⊎ (2 ^ 52 * 2 ^ excess fuel n ≤ n)
unfolding excess
excess_needed zero n = inl refl
excess_needed (suc fuel) n =
    if-branches (λ k. (k ≡ 0) ⊎ (2 ^ 52 * 2 ^ k ≤ n)) (ltb n (2 ^ 53)) (λ small. inl refl)
      (λ big. elim (excess_needed fuel (n / 2)) [
        | inl e ↦ inr (rw e (ground arith))
        | inr e ↦ inr (omega (arith, pow-suc 2 (excess fuel (n / 2)), e))
      ])

rounded_near : (k n : ℕ) → 2 * rounded k n ≤ 2 * n + 2 ^ k
unfolding rounded
rounded_near k n =
    let lost = n % 2 ^ k in
    if-branches (λ m. 2 * m ≤ 2 * n + 2 ^ k)
      (ltb (2 ^ k) (2 * lost) || (2 * lost == 2 ^ k && n / 2 ^ k % 2 == 1))
      (λ up.
        let half : 2 ^ k ≤ 2 * lost = grind (arith, eq_iff (2 * lost) (2 ^ k)) in
        omega (arith, half))
      (λ _. omega arith)

rounded_near_below : (k n : ℕ) → 2 * n ≤ 2 * rounded k n + 2 ^ k
unfolding rounded
rounded_near_below k n =
    let lost = n % 2 ^ k in
    let P = λ (m : ℕ). 2 * n ≤ 2 * m + 2 ^ k in
    if-branches P (ltb (2 ^ k) (2 * lost) || (2 * lost == 2 ^ k && n / 2 ^ k % 2 == 1))
      (λ _. omega (arith, (quotient_bounds n (2 ^ k) (pow_pos k)).1))
      (λ down. let half : 2 * lost ≤ 2 ^ k = ground arith in omega (arith, half))

rounded_none : (n : ℕ) → rounded 0 n ≡ n
unfolding rounded
rounded_none n =
    if-branches (λ m. m ≡ n) (ltb 1 (2 * (n % 1)) || (2 * (n % 1) == 1 && n / 1 % 2 == 1))
      (λ up. let whole : n % 1 ≡ 0 = omega arith in absurd (ground (arith, eq_iff (2 * (n % 1)) 1)))
      (λ _. omega arith)

excess_small : (fuel n : ℕ) → n < 2 ^ 53 → excess fuel n ≡ 0
unfolding excess
excess_small zero n h = refl
excess_small (suc fuel) n h =
    if-branches (λ k. k ≡ 0) (ltb n (2 ^ 53)) (λ _. refl) (λ big. absurd (ground arith))

nearest_small : (n : ℕ) → n < 2 ^ 53 → nearest n ≡ n
unfolding nearest
nearest_small n h = ap (λ k. rounded k n) (excess_small 64 n h) ∙ rounded_none n

-- A product is off by no more than one part in 2 ^ 53.
nearest_near : (n : ℕ) → nearest n * 2 ^ 53 ≤ n * (2 ^ 53 + 1)
unfolding nearest
nearest_near n = elim (excess_needed 64 n) [
  | inl e ↦ omega (arith, ap (λ k. rounded k n) e ∙ rounded_none n)
  | inr e ↦ omega (arith, rounded_near (excess 64 n) n, e)
]

nearest_near_below : (n : ℕ) → n * (2 ^ 53 - 1) ≤ nearest n * 2 ^ 53
unfolding nearest
nearest_near_below n = elim (excess_needed 64 n) [
  | inl e ↦ omega (arith, ap (λ k. rounded k n) e ∙ rounded_none n)
  | inr e ↦ omega (arith, rounded_near_below (excess 64 n) n, e)
]

times_near :
    (p : Float) (space : ℕ)
    → space < 2 ^ 53
    → times p space * 2 ^ p.scale * 2 ^ 53 ≤ p.mantissa * space * (2 ^ 53 + 1)
unfolding times
times_near p space h =
    let product = nearest (p.mantissa * space) in
    let cut : product / 2 ^ p.scale * 2 ^ p.scale ≤ product = omega arith in
    rw (nearest_small space h)
      (omega (arith, nearest_near (p.mantissa * space), mul-le-mul_right (2 ^ 53) cut))

times_near_below :
    (p : Float) (space : ℕ)
    → space < 2 ^ 53
    → p.mantissa * space * (2 ^ 53 - 1) < (times p space + 1) * 2 ^ p.scale * 2 ^ 53
unfolding times
times_near_below p space h =
    let product = nearest (p.mantissa * space) in
    let cut : product + 1 ≤ (product / 2 ^ p.scale + 1) * 2 ^ p.scale =
      omega (arith, (quotient_bounds product (2 ^ p.scale) (pow_pos p.scale)).1) in
    rw (nearest_small space h)
      (omega (arith, nearest_near_below (p.mantissa * space), mul-le-mul_right (2 ^ 53) cut))

draws_near :
    (p : Float) (space bought : ℕ)
    → bought * 2 ^ p.scale * 2 ^ 53 ≤ p.mantissa * space * (2 ^ 53 + 1)
    → (max 1 bought ≡ 1) ⊎ (max 1 bought * 2 ^ p.scale * 2 ^ 53 ≤ p.mantissa * space * (2 ^ 53 + 1))
draws_near p space zero h = inl refl
draws_near p space (suc n) h = let same : max 1 (suc n) ≡ suc n = omega arith in rw same (inr h)

draws_near_below :
    (p : Float) (space bought : ℕ)
    → p.mantissa * space * (2 ^ 53 - 1) < (bought + 1) * 2 ^ p.scale * 2 ^ 53
    → p.mantissa * space * (2 ^ 53 - 1) < (max 1 bought + 1) * 2 ^ p.scale * 2 ^ 53
draws_near_below p space zero h = omega (arith, h)
draws_near_below p space (suc n) h = let same : max 1 (suc n) ≡ suc n = omega arith in rw same h

-- For any probability, a float, any space below 2 ^ 53 and any number of draws per unit, none
-- included: a window buys at least one draw; the draws are one, or within the probability times
-- the space but for one part in 2 ^ 53, and one draw more would exceed it but for such a part;
-- there is at least one unit; the units with their draws fit into the draws of the window, or a
-- single unit does not and there is one; and one unit more would not fit.
pub window_cap_bounds :
    (p : Float) (space unit : ℕ)
    → space < 2 ^ 53
    → let draws = draws_per_window p space in
      let cap = window_cap p space unit in
      (1 ≤ draws)
      × ((draws ≡ 1) ⊎ (draws * 2 ^ p.scale * 2 ^ 53 ≤ p.mantissa * space * (2 ^ 53 + 1)))
      × (p.mantissa * space * (2 ^ 53 - 1) < (draws + 1) * 2 ^ p.scale * 2 ^ 53)
      × (1 ≤ cap)
      × ((cap * unit ≤ draws) ⊎ ((draws < unit) × (cap ≡ 1)))
      × (draws < (cap + 1) * max 1 unit)
unfolding window_cap draws_per_window
window_cap_bounds p space unit h =
    let some_draw : 1 ≤ max 1 (times p space) = omega arith in
    let (fits, most) = unit_bounds (max 1 (times p space)) unit some_draw in
    (
      some_draw,
      draws_near p space (times p space) (times_near p space h),
      draws_near_below p space (times p space) (times_near_below p space h),
      omega arith,
      fits,
      most,
    )
