-- ===== src/Base/Strings.antt =====
-- `str.strip`, `str.lower` and the tests that the source makes of texts. `lower` is that of ASCII,
-- which is also how SQLite's NOCASE compares.
use mathlib.Core.Bool.{Bool, true, false, ◌&&◌, ◌||◌}
use mathlib.Core.List.{[], ◌∷◌, map}
use mathlib.Core.Logic.{inl, inr}
use mathlib.Core.Path.{◌≡◌, refl, ap, sym, ◌∙◌}
use Prim.Native.Nat.{ℕ, ◌+◌}
use native.Mathlib.Omega.{arith}
use agience_origin.Base.Tests.{leb, nat_beq, if◌then◌else◌, Bool-cases}
use agience_origin.Base.Equality.{Text, ◌==◌, text_eq, eq_refl, eq_iff}
use agience_origin.Base.Lists.{any}

abbrev is_space : ℕ → Bool
is_space c =
    (leb 9 c && leb c 13)
    || ((leb 28 c && leb c 32)
        || any (nat_beq c) (0x85 ∷ 0xa0 ∷ 0x1680 ∷ 0x2028 ∷ 0x2029 ∷ 0x202f ∷ 0x205f ∷ 0x3000 ∷ [])
        || (leb 0x2000 c && leb c 0x200a))

-- The spaces that `str.strip` drops.
unfoldable pub space : ℕ → Bool
space c = is_space c

unfoldable pub lstrip : Text → Text
lstrip [] = []
lstrip (c ∷ s) = if space c then lstrip s else c ∷ s

abbrev rstrip_cons : ℕ → Text → Text
rstrip_cons c [] = if space c then [] else c ∷ []
rstrip_cons c (d ∷ s) = c ∷ d ∷ s

unfoldable pub rstrip : Text → Text
rstrip [] = []
rstrip (c ∷ s) = rstrip_cons c (rstrip s)

unfoldable pub strip : Text → Text
unfolding lstrip rstrip
strip s = rstrip (lstrip s)

unfoldable pub lower_char : ℕ → ℕ
lower_char c = if leb 65 c && leb c 90 then c + 32 else c

unfoldable pub lower : Text → Text
unfolding lower_char
lower = map lower_char

-- `(value or "").strip().lower()`
unfoldable pub normalize : Text → Text
unfolding strip lower
normalize s = lower (strip s)

-- Comparison under SQLite's NOCASE collation.
unfoldable pub nocase : Text → Text → Bool
unfolding lower
nocase a b = lower a == lower b

pub nocase_refl : (a : Text) → nocase a a ≡ true
unfolding nocase
nocase_refl a = eq_refl (lower a)

pub nocase_left : (a b c : Text) → nocase a b ≡ true → nocase c a ≡ nocase c b
unfolding nocase
nocase_left a b c h = ap (λ (t : Text). lower c == t) ((eq_iff (lower a) (lower b)).0 h)

lower_char_idem : (c : ℕ) → lower_char (lower_char c) ≡ lower_char c
unfolding lower_char
lower_char_idem c = ground arith

lower_char-space : (c : ℕ) → space (lower_char c) ≡ space c
unfolding lower_char space
lower_char-space c = ground arith

lower_idem : (s : Text) → lower (lower s) ≡ lower s
unfolding lower
lower_idem [] = refl
lower_idem (c ∷ s) = λ i. lower_char_idem c i ∷ lower_idem s i

rstrip_cons-lower :
    (c : ℕ) (r : Text) → lower (rstrip_cons c r) ≡ rstrip_cons (lower_char c) (lower r)
unfolding lower
rstrip_cons-lower c [] = ground (arith, lower_char-space c)
rstrip_cons-lower c (d ∷ r) = refl

rstrip-lower : (s : Text) → rstrip (lower s) ≡ lower (rstrip s)
unfolding rstrip lower
rstrip-lower [] = refl
rstrip-lower (c ∷ s) =
    ap (rstrip_cons (lower_char c)) (rstrip-lower s) ∙ sym (rstrip_cons-lower c (rstrip s))

lstrip-lower : (s : Text) → lstrip (lower s) ≡ lower (lstrip s)
unfolding lstrip lower
lstrip-lower [] = refl
lstrip-lower (c ∷ s) = ground (arith, lower_char-space c, lstrip-lower s)

lstrip_idem : (s : Text) → lstrip (lstrip s) ≡ lstrip s
unfolding lstrip
lstrip_idem [] = refl
lstrip_idem (c ∷ s) = ground (arith, lstrip_idem s)

rstrip_cons_idem : (c : ℕ) (r : Text) → rstrip r ≡ r → rstrip (rstrip_cons c r) ≡ rstrip_cons c r
unfolding rstrip
rstrip_cons_idem c [] h = ground arith
rstrip_cons_idem c (d ∷ r) h = ap (rstrip_cons c) h

rstrip_idem : (s : Text) → rstrip (rstrip s) ≡ rstrip s
unfolding rstrip
rstrip_idem [] = refl
rstrip_idem (c ∷ s) = rstrip_cons_idem c (rstrip s) (rstrip_idem s)

lstrip-rstrip_cons :
    (c : ℕ) (r : Text) → space c ≡ false → lstrip (rstrip_cons c r) ≡ rstrip_cons c r
unfolding lstrip
lstrip-rstrip_cons c [] h = ground arith
lstrip-rstrip_cons c (d ∷ r) h = ground arith

-- Stripping the back leaves a front that is no space.
lstrip-strip : (s : Text) → lstrip (rstrip (lstrip s)) ≡ rstrip (lstrip s)
unfolding lstrip rstrip
lstrip-strip [] = refl
lstrip-strip (c ∷ s) = elim (Bool-cases (space c)) [
  | inl e ↦ rw (lstrip, e) (lstrip-strip s)
  | inr e ↦ rw (lstrip, e) (lstrip-rstrip_cons c (rstrip s) e)
]

pub strip_idem : (s : Text) → strip (strip s) ≡ strip s
unfolding strip
strip_idem s = rw (lstrip-strip s) (rstrip_idem (lstrip s))

pub strip-normalize : (s : Text) → strip (normalize s) ≡ normalize s
unfolding normalize strip
strip-normalize s =
    rw (lstrip-lower (rstrip (lstrip s)), lstrip-strip s, rstrip-lower (rstrip (lstrip s)))
      (ap lower (rstrip_idem (lstrip s)))

-- A normalized text is its own normal form.
pub normalize_idem : (s : Text) → normalize (normalize s) ≡ normalize s
unfolding normalize strip
normalize_idem s =
    rw (lstrip-lower (rstrip (lstrip s)), lstrip-strip s, rstrip-lower (rstrip (lstrip s)))
      (rw (rstrip_idem (lstrip s)) (lower_idem (rstrip (lstrip s))))

pub nocase_sym : (a b : Text) → nocase a b ≡ true → nocase b a ≡ true
unfolding nocase
nocase_sym a b h = (eq_iff (lower b) (lower a)).1 (sym ((eq_iff (lower a) (lower b)).0 h))
