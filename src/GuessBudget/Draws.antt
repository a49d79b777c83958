-- ===== src/GuessBudget/Draws.antt =====
-- services/guess_budget.py, the derivation: how many guesses a window buys. A probability is a float,
-- a double of IEEE 754: its product with the space is rounded to 53 bits, to the even one of two
-- that are as near, and then cut down to a whole number.
pub mod Bounds
use agience_origin.Base.{
  ℕ, zero, suc, ◌+◌, ◌*◌, ◌/◌, ◌%◌, ◌^◌, ◌≡◌, refl, ◌&&◌, ◌||◌, ◌==◌, nat_eq, ltb, if◌then◌else◌,
  max,
}

-- The number mantissa / 2 ^ scale.
pub record Float : Type 0 where
  pub mantissa : ℕ
  pub scale : ℕ

-- How many low bits a number has beyond 53, at most `fuel`.
unfoldable pub excess : ℕ → ℕ → ℕ
excess zero n = 0
excess (suc fuel) n = let rest = excess fuel (n / 2) in if ltb n (2 ^ 53) then 0 else suc rest

-- `n` with the low `k` bits rounded away.
unfoldable pub rounded : ℕ → ℕ → ℕ
rounded k n =
    let kept = n / 2 ^ k in
    let lost = n % 2 ^ k in
    let up = ltb (2 ^ k) (2 * lost) || (2 * lost == 2 ^ k && kept % 2 == 1) in
    if up then (kept + 1) * 2 ^ k else kept * 2 ^ k

-- 64 halvings are enough for the product of two numbers of 53 bits.
unfoldable pub nearest : ℕ → ℕ
nearest n = rounded (excess 64 n) n

-- `int(p * n)`
unfoldable pub times : Float → ℕ → ℕ
times p n = nearest (p.mantissa * nearest n) / 2 ^ p.scale

unfoldable pub draws_per_window : Float → ℕ → ℕ
draws_per_window max_guess_probability space = max 1 (times max_guess_probability space)

unfoldable pub window_cap : Float → ℕ → ℕ → ℕ
window_cap max_guess_probability space draws_per_unit =
    max 1 (draws_per_window max_guess_probability space / max 1 draws_per_unit)

-- 1e-3 as a double, over a space of 10000, and one draw for an attempt
abbrev pub password_guess_probability : Float
password_guess_probability = record { mantissa = 1152921504606847; scale = 60 }

abbrev pub password_guess_space : ℕ
password_guess_space = 10000

unfoldable pub password_window_cap : ℕ
unfolding window_cap draws_per_window times nearest rounded excess
password_window_cap = window_cap password_guess_probability password_guess_space 1

-- timedelta(minutes=15), in microseconds
abbrev pub password_window : ℕ
password_window = 15 * 60 * 1000000

pub password_window_cap_value : password_window_cap ≡ 10
unfolding password_window_cap
password_window_cap_value = refl
