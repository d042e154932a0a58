-- ===== src/Prelude/Order.antt =====
-- Three-way comparison and the laws of a total order: what the containers ask of their keys.
-- The integers -1, 0 and 1 that the program's `Compare` methods return are `lt`, `eq` and `gt`.
use Prim.Native.Nat.{Ordering, compare, ℕ}
use Prim.Native.Nat.Ordering.{eq, gt, lt}
use mathlib.Core.Path.{◌≡◌, refl}
use mathlib.Core.Logic.{◌⊎◌, inl, inr}
use mathlib.Core.Bool.{Bool, true, false}
use native.Mathlib.Omega.{arith}

abbrev pub flip : Ordering → Ordering
flip lt = gt
flip eq = eq
flip gt = lt

pub Ordering-cases : (c : Ordering) → (c ≡ lt) ⊎ (c ≡ eq) ⊎ (c ≡ gt)
Ordering-cases lt = inl refl
Ordering-cases eq = inr (inl refl)
Ordering-cases gt = inr (inr refl)

abbrev pub is_gt : Ordering → Bool
is_gt gt = true
is_gt _ = false

-- The first comparison that is not a draw decides.
abbrev pub first_of_two : Ordering → Ordering → Ordering
first_of_two eq second = second
first_of_two lt second = lt
first_of_two gt second = gt

-- The laws are kept under the names that the proofs hand to the tactics.
pub record IsTotal {ℓ} {T : Type ℓ} (order : T → T → Ordering) : Type ℓ where
  pub cmp_eq : (s t : T) → order s t ≡ eq → s ≡ t
  pub cmp_flip : (s t : T) → order t s ≡ flip (order s t)
  pub cmp_refl : (t : T) → order t t ≡ eq
  pub cmp_trans : (r s t : T) → order r s ≡ lt → order s t ≡ lt → order r t ≡ lt

pub record Ord {ℓ} (T : Type ℓ) : Type ℓ where
  pub cmp : T → T → Ordering
  pub is_total : IsTotal cmp
  pub open is_total use *

-- Strictly below, in the order that the context provides.
infix 50 ◌≺◌
abbrev pub ◌≺◌ {ℓ} : {T : Type ℓ} ⦃order : Ord T⦄ (s t : T) → Type 0
◌≺◌ ⦃order⦄ s t = order.cmp s t ≡ lt

pub compare-IsTotal : IsTotal compare
compare-IsTotal = record {
  cmp_refl = λ a. ground arith;
  cmp_eq = λ a b h. ground arith;
  cmp_flip = λ a b. ground arith;
  cmp_trans = λ a b c h k. ground arith;
}

instance abbrev pub nat_ord : Ord ℕ
nat_ord = record { is_total = compare-IsTotal; cmp = compare }
