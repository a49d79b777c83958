-- ===== src/Base/Equality.antt =====
-- Equality as an interface, its instances, and texts. A text is the list of its code points.
use Prim.Native.Char.{code}
use Prim.Native.Nat.{ℕ}
use Prim.Native.String.{String}
use mathlib.Core.Bool.{Bool, true, false, ◌&&◌}
use mathlib.Core.List.{List, [], ◌∷◌}
use mathlib.Core.Logic.{◌↔◌}
use mathlib.Core.Path.{◌≡◌, refl, subst}
use native.Mathlib.Omega.{arith}
use agience_origin.Base.Tests.{nat_beq, nat_beq_iff}

-- What the keys of dictionaries and the columns of tables are compared by.
pub record Key (K : Type 0) : Type 0 where
  pub matches : K → K → Bool
  pub sound : (j k : K) → matches j k ≡ true → j ≡ k
  pub reflexive : (k : K) → matches k k ≡ true

module _ {K : Type 0} ⦃key : Key K⦄ where
  infix 50 ◌==◌
  abbrev pub ◌==◌ : K → K → Bool
  j == k = key.matches j k

  pub eq_refl : (k : K) → (k == k) ≡ true
  eq_refl = key.reflexive

  pub eq_iff : (j k : K) → ((j == k) ≡ true) ↔ (j ≡ k)
  eq_iff j k = (key.sound j k, λ e. subst (λ x. (j == x) ≡ true) e (key.reflexive j))

pub nat_beq_refl : (n : ℕ) → nat_beq n n ≡ true
nat_beq_refl n = (nat_beq_iff n n).1 refl

pub nat_beq_sound : (m n : ℕ) → nat_beq m n ≡ true → m ≡ n
nat_beq_sound m n = (nat_beq_iff m n).0

instance abbrev pub nat_eq : Key ℕ
nat_eq = record { matches = nat_beq; sound = nat_beq_sound; reflexive = nat_beq_refl }

abbrev pub Text : Type 0
Text = List ℕ

-- A literal as such a list.
abbrev pub codes : String → Text
codes = elim [ String.[] ↦ [] | String.◌∷◌ letter (_ → rest) ↦ code letter ∷ rest ]

unfoldable pub text_beq : Text → Text → Bool
text_beq [] [] = true
text_beq (a ∷ s) (b ∷ t) = nat_beq a b && text_beq s t
text_beq _ _ = false

pub text_beq_iff : (s t : Text) → (text_beq s t ≡ true) ↔ (s ≡ t)
unfolding text_beq
text_beq_iff [] [] = (λ h. refl, λ h. refl)
text_beq_iff (a ∷ s) (b ∷ t) =
    (λ h. ground (arith, text_beq_iff s t), λ h. ground (arith, text_beq_iff s t))
text_beq_iff [] (b ∷ t) = (λ h. ground arith, λ h. ground arith)
text_beq_iff (a ∷ s) [] = (λ h. ground arith, λ h. ground arith)

pub text_beq_sound : (s t : Text) → text_beq s t ≡ true → s ≡ t
text_beq_sound s t = (text_beq_iff s t).0

pub text_beq_refl : (s : Text) → text_beq s s ≡ true
text_beq_refl s = (text_beq_iff s s).1 refl

instance abbrev pub text_eq : Key Text
text_eq = record { matches = text_beq; sound = text_beq_sound; reflexive = text_beq_refl }
