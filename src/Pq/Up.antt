-- ===== src/Pq/Up.antt =====
-- The loop `up` of container/heap: it ends, and mends a heap that is out of order at one place.
use mathlib.Core.List.{Perm}
use mathlib.Core.List.Perm.{trans as perm_trans, refl as perm_refl}
use rotty.Prelude.{
  ℕ, zero, suc, ◌≡◌, ◌≢◌, ◌<◌, ◌≤◌, refl, sym, ap, ◌∙◌, true, some, Option, List, arith, length,
  get_elem?, get_elem?-some, Bool-cases, nat_cases, subst, inl, inr,
}
use rotty.Pq.{Value, parent, less_at, up}
use rotty.Pq.Order.{
  IsOrderly, in_order, in_order_trans, in_order-less, IsBelow, IsHeap, IsBelow-at, in_order-at,
}
use rotty.Pq.Swap.{Swapped, swap_lem}

module _ {V : Type 0} ⦃v : Value V⦄ where
  -- A place above another one keeps clear of the children of a third.
  abbrev pub Bridges : List V → ℕ → ℕ → Type 0
  Bridges q n j = (c : ℕ) → 0 < c → c < n → parent c ≡ j → 0 < j → IsBelow q (parent j) c

  -- A heap but for one place, which may rank above its parent.
  pub record IsRising (q : List V) (n j : ℕ) : Type 0 where
    pub elsewhere : (c : ℕ) → 0 < c → c < n → c ≢ j → IsBelow q (parent c) c
    pub bridges : Bridges q n j

  -- The result of a loop: the same values, in as many places.
  pub record Mended (q : List V) (n : ℕ) (result : Option (List V)) : Type 0 where
    pub queue : List V
    pub ends : result ≡ some queue
    pub heap : IsHeap queue n
    pub same_length : length queue ≡ length q
    pub same_values : Perm q queue
    pub beyond : (k : ℕ) → n ≤ k → get_elem? queue k ≡ get_elem? q k

  -- Two places have changed their values, and nothing else has.
  pub record Exchanged (q q' : List V) (i j : ℕ) (x y : V) : Type 0 where
    pub was_i : get_elem? q i ≡ some y
    pub was_j : get_elem? q j ≡ some x
    pub at_i : get_elem? q' i ≡ some x
    pub at_j : get_elem? q' j ≡ some y
    pub others : (k : ℕ) → k ≢ i → k ≢ j → get_elem? q' k ≡ get_elem? q k

  pub Swapped-Exchanged :
      (q : List V) (i j : ℕ) (x y : V) (s : Swapped q i j)
      → get_elem? q i ≡ some y
      → get_elem? q j ≡ some x
      → Exchanged q s.result i j x y
  Swapped-Exchanged q i j x y s ei ej = record {
    was_i = ei;
    was_j = ej;
    at_i = ground (arith, s.gets i, ei, ej);
    at_j = ground (arith, s.gets j, ei, ej);
    others = λ k a b. ground (arith, s.gets k);
  }

  rise_elsewhere :
      IsOrderly v
      → (q q' : List V) (n j : ℕ) (x y : V) → IsRising q n j
      → Exchanged q q' (parent j) j x y
      → v.less x y ≡ true
      → 0 < j
      → (c : ℕ) → 0 < c
      → c < n
      → c ≢ parent j
      → IsBelow q' (parent c) c
  rise_elsewhere laws q q' n j x y r e less pos c pos_c lt_c other = elim (nat_cases c j) [
    | inl p ↦
        subst (λ k. IsBelow q' (parent k) k) (sym p)
          (IsBelow-at q' (parent j) j (some x) (some y) e.at_i e.at_j (in_order-less laws x y less))
    | inr n1 ↦ elim (nat_cases (parent c) (parent j)) [
      | inl p ↦
          IsBelow-at q' (parent c) c (some x) (get_elem? q c) (ap (get_elem? q') p ∙ e.at_i)
            (e.others c other n1)
            (in_order_trans laws (some x) (get_elem? q c) y (in_order-less laws x y less) (
              in_order-at q (parent c) c (some y) (get_elem? q c) (ap (get_elem? q) p ∙ e.was_i)
                refl (r.elsewhere c pos_c lt_c n1)))
      | inr n2 ↦ elim (nat_cases (parent c) j) [
        | inl p ↦
            IsBelow-at q' (parent c) c (some y) (get_elem? q c) (ap (get_elem? q') p ∙ e.at_j)
              (e.others c other n1)
              (in_order-at q (parent j) c (some y) (get_elem? q c) e.was_i refl
                (r.bridges c pos_c lt_c p pos))
        | inr n3 ↦
            IsBelow-at q' (parent c) c (get_elem? q (parent c)) (get_elem? q c)
              (e.others (parent c) n2 n3) (e.others c other n1) (r.elsewhere c pos_c lt_c n1)
      ]
    ]
  ]

  rise-Bridges :
      IsOrderly v
      → (q q' : List V) (n j : ℕ) (x y : V) → IsRising q n j
      → Exchanged q q' (parent j) j x y
      → 0 < j
      → j < n
      → Bridges q' n (parent j)
  rise-Bridges laws q q' n j x y r e pos lt c pos_c lt_c child pos_p =
      let above = e.others (parent (parent j)) (λ p. omega (arith, p)) (λ p. omega (arith, p)) in
      let grand : in_order (get_elem? q (parent (parent j))) (some y) ≡ true =
        in_order-at q (parent (parent j)) (parent j) (get_elem? q (parent (parent j))) (some y) refl
          e.was_i
          (r.elsewhere (parent j) pos_p (omega (arith, pos, lt)) (λ p. omega (arith, p, pos))) in
      elim (nat_cases c j) [
        | inl p ↦
            IsBelow-at q' (parent (parent j)) c (get_elem? q (parent (parent j))) (some y) above
              (ap (get_elem? q') p ∙ e.at_j) grand
        | inr n1 ↦
            IsBelow-at q' (parent (parent j)) c (get_elem? q (parent (parent j))) (get_elem? q c)
              above (e.others c (λ p. omega (arith, p, child, pos_c)) n1)
              (in_order_trans laws (get_elem? q (parent (parent j))) (get_elem? q c) y grand (
                in_order-at q (parent c) c (some y) (get_elem? q c)
                  (ap (get_elem? q) child ∙ e.was_i) refl (r.elsewhere c pos_c lt_c n1)))
      ]

  pub rising_done :
      (q : List V) (n j : ℕ) → IsRising q n j → ((0 < j) → IsBelow q (parent j) j) → IsHeap q n
  rising_done q n j r h c pos lt = elim (nat_cases c j) [
    | inl p ↦ subst (λ k. IsBelow q (parent k) k) (sym p) (h (omega (arith, p, pos)))
    | inr other ↦ r.elsewhere c pos lt other
  ]

  -- With more fuel than the place that is out of order.
  pub up-IsHeap :
      IsOrderly v
      → (fuel : ℕ) (q : List V) (n j : ℕ) → j < fuel
      → j < n
      → n ≤ length q
      → IsRising q n j
      → Mended q n (up fuel q j)
  unfolding up less_at
  up-IsHeap laws zero q n j enough lt le r = absurd (omega (arith, enough))
  up-IsHeap laws (suc fuel) q n j enough lt le r =
      let (x, ex) = get_elem?-some q j (omega (arith, lt, le)) in
      let (y, ey) = get_elem?-some q (parent j) (omega (arith, lt, le)) in
      elim (nat_cases (parent j) j) [
        | inl stop ↦ record {
          queue = q;
          ends = ground (arith, stop);
          heap = rising_done q n j r (λ pos. absurd (omega (arith, pos, stop)));
          same_length = refl;
          same_values = perm_refl q;
          beyond = λ k h. refl;
        }
        | inr go ↦ elim (Bool-cases (v.less x y)) [
          | inr keep ↦ record {
            queue = q;
            ends = ground (arith, go, keep, ex, ey);
            heap =
                rising_done q n j r
                  (λ pos. IsBelow-at q (parent j) j (some y) (some x) ey ex (ground (arith, keep)));
            same_length = refl;
            same_values = perm_refl q;
            beyond = λ k h. refl;
          }
          | inl less ↦
              (let pos : 0 < j = ground (arith, go) in
                let s = swap_lem q (parent j) j (omega (arith, lt, le)) (omega (arith, lt, le)) in
                let e = Swapped-Exchanged q (parent j) j x y s ey ex in
                let again =
                  up-IsHeap laws fuel s.result n (parent j) (omega (arith, enough, pos))
                    (omega (arith, lt)) (omega (arith, le, s.same_length))
                    (record {
                      elsewhere = rise_elsewhere laws q s.result n j x y r e less pos;
                      bridges = rise-Bridges laws q s.result n j x y r e pos lt;
                    }) in
                record {
                  queue = again.queue;
                  ends = ground (arith, go, less, ex, ey, s.swaps, again.ends);
                  heap = again.heap;
                  same_length = again.same_length ∙ s.same_length;
                  same_values = perm_trans s.same_values again.same_values;
                  beyond = λ k h.
                      again.beyond k h
                      ∙ e.others k (λ p. omega (arith, p, h, lt)) (λ p. omega (arith, p, h, lt));
                })
        ]
      ]
