-- ===== src/Pq/Top.antt =====
-- `Peek` of priority_queue.go shows a value that no other one is to be popped before.
use rotty.Prelude.{
  ℕ, zero, suc, ◌≡◌, ◌<◌, refl, sym, ap, ◌∙◌, true, false, some, List, arith, length, get_elem?,
  get_elem?-some, get_elem?-lt, inl, inr, nat_cases,
}
use rotty.Pq.{Value, parent, peek}
use rotty.Pq.Order.{IsOrderly, in_order, in_order_trans, IsBelow, IsBelow-at, in_order-at}
use rotty.Pq.Queue.{IsQueue}

module _ {V : Type 0} ⦃v : Value V⦄ where
  not_less_self : IsOrderly v → (x : V) → v.less x x ≡ false
  not_less_self laws x = ground (arith, laws.less_asym x x)

  -- By way of the parents.
  top-IsBelow :
      IsOrderly v
      → (fuel : ℕ) (q : List V) (k : ℕ) → k < fuel
      → IsQueue q
      → k < length q
      → IsBelow q 0 k
  top-IsBelow laws zero q k enough h lt = absurd (omega (arith, enough))
  top-IsBelow laws (suc fuel) q k enough h lt =
      let (x, ex) = get_elem?-some q k lt in
      elim (nat_cases k 0) [
        | inl e ↦
            IsBelow-at q 0 k (some x) (some x) (ap (get_elem? q) (sym e) ∙ ex) ex
              (ground (arith, not_less_self laws x))
        | inr pos ↦
            (let (y, ey) = get_elem?-some q (parent k) (omega (arith, lt)) in
              let above =
                top-IsBelow laws fuel q (parent k) (omega (arith, enough, pos)) h
                  (omega (arith, lt)) in
              IsBelow-at q 0 k (get_elem? q 0) (get_elem? q k) refl refl (
                in_order_trans laws (get_elem? q 0) (get_elem? q k) y
                  (in_order-at q 0 (parent k) (get_elem? q 0) (some y) refl ey above)
                  (in_order-at q (parent k) k (some y) (get_elem? q k) ey refl
                    (h k (omega (arith, pos)) lt))))
      ]

  -- In a heap no value is less than the one that `Peek` shows.
  pub peek-IsTop :
      IsOrderly v
      → (q : List V) (x y : V) (k : ℕ) → IsQueue q
      → peek q ≡ some x
      → get_elem? q k ≡ some y
      → v.less y x ≡ false
  unfolding peek
  peek-IsTop laws q x y k h ex ey =
      let order : in_order (some x) (some y) ≡ true =
        in_order-at q 0 k (some x) (some y) ex ey
          (top-IsBelow laws (suc k) q k (omega arith) h (get_elem?-lt q k y ey)) in
      ground (arith, order)
