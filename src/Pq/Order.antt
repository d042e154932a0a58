-- ===== src/Pq/Order.antt =====
-- What a queue of priority_queue.go asks of `Less`, and when the slice is a heap.
use rotty.Prelude.{ℕ, ◌≡◌, ◌<◌, Bool, true, false, not, none, some, Option, List, arith, get_elem?}
use rotty.Pq.{Value, parent}

-- The laws of `Less`: those of a weak order.
pub record IsOrderly {V : Type 0} (v : Value V) : Type 0 where
  pub less_asym : (x y : V) → v.less x y ≡ true → v.less y x ≡ false
  pub not_less_trans : (x y z : V) → v.less y x ≡ false → v.less z y ≡ false → v.less z x ≡ false

module _ {V : Type 0} ⦃v : Value V⦄ where
  -- Two places of the slice are in order: the second value is not to be popped before the first.
  abbrev pub in_order : Option V → Option V → Bool
  in_order none b = true
  in_order (some x) none = true
  in_order (some x) (some y) = not (v.less y x)

  pub in_order_trans :
      IsOrderly v
      → (a c : Option V) (y : V) → in_order a (some y) ≡ true
      → in_order (some y) c ≡ true
      → in_order a c ≡ true
  in_order_trans laws none c y h k = ground arith
  in_order_trans laws (some x) none y h k = ground arith
  in_order_trans laws (some x) (some z) y h k = ground (arith, laws.not_less_trans x y z)

  pub in_order-less :
      IsOrderly v → (x y : V) → v.less x y ≡ true → in_order (some x) (some y) ≡ true
  in_order-less laws x y h = ground (arith, laws.less_asym x y)

  abbrev pub IsBelow : List V → ℕ → ℕ → Type 0
  IsBelow q i j = in_order (get_elem? q i) (get_elem? q j) ≡ true

  -- Up to a length, every place is in order with its parent.
  abbrev pub IsHeap : List V → ℕ → Type 0
  IsHeap q n = (c : ℕ) → 0 < c → c < n → IsBelow q (parent c) c

  pub IsBelow-at :
      (q : List V) (i j : ℕ) (a b : Option V)
      → get_elem? q i ≡ a
      → get_elem? q j ≡ b
      → in_order a b ≡ true
      → IsBelow q i j
  IsBelow-at q i j a b ea eb h = rw (ea, eb) h

  pub in_order-at :
      (q : List V) (i j : ℕ) (a b : Option V)
      → get_elem? q i ≡ a
      → get_elem? q j ≡ b
      → IsBelow q i j
      → in_order a b ≡ true
  in_order-at q i j a b ea eb h = rw (← ea, ← eb) h
