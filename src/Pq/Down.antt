-- ===== src/Pq/Down.antt =====
-- The loop `down` of container/heap: it ends, and where it leaves the heap.
use mathlib.Core.List.{Perm}
use mathlib.Core.List.Perm.{trans as perm_trans, refl as perm_refl}
use rotty.Prelude.{
  ℕ, zero, suc, ◌+◌, ◌*◌, ◌≡◌, ◌≢◌, ◌<◌, ◌≤◌, refl, sym, ap, ◌∙◌, true, false, some, Option, List,
  arith, length, get_elem?, get_elem?-some, Bool-cases, nat_cases, subst, inl, inr, ◌⊎◌, ltb, leb,
}
use rotty.Pq.{Value, parent, less_at, larger_child, down}
use rotty.Pq.Order.{
  IsOrderly, in_order, in_order_trans, in_order-less, IsBelow, IsHeap, IsBelow-at, in_order-at,
}
use rotty.Pq.Swap.{swap_lem}
use rotty.Pq.Up.{Bridges, IsRising, Exchanged, Swapped-Exchanged, rising_done}

children : (c i : ℕ) → 0 < c → parent c ≡ i → (c ≡ 2 * i + 1) ⊎ (c ≡ 2 * i + 2)
children c i pos h = omega (arith, pos, h)

module _ {V : Type 0} ⦃v : Value V⦄ where
  -- A heap but for one place, which may rank below its children or above its parent.
  pub record IsSinking (q : List V) (n i : ℕ) : Type 0 where
    pub elsewhere : (c : ℕ) → 0 < c → c < n → c ≢ i → parent c ≢ i → IsBelow q (parent c) c
    pub bridges : Bridges q n i

  -- The value came to rest: where it was, below its children; or further down, in a heap.
  pub record Sunk (q : List V) (n i : ℕ) (result : Option (List V × ℕ)) : Type 0 where
    pub queue : List V
    pub rest : ℕ
    pub ends : result ≡ some (queue, rest)
    pub same_length : length queue ≡ length q
    pub same_values : Perm q queue
    pub beyond : (k : ℕ) → n ≤ k → get_elem? queue k ≡ get_elem? q k
    pub outcome : ((rest ≡ i) × (queue ≡ q) × IsRising q n i) ⊎ ((i < rest) × IsHeap queue n)

  -- The child that is to rise ranks above the other one.
  record Larger (q : List V) (n i : ℕ) : Type 0 where
    child : ℕ
    finds : larger_child q i n ≡ some child
    is_child : (parent child ≡ i) × (i < child) × (child < n)
    largest : (c : ℕ) → 0 < c → c < n → parent c ≡ i → IsBelow q child c

  in_order_refl : IsOrderly v → (x : V) → in_order (some x) (some x) ≡ true
  in_order_refl laws x = ground (arith, laws.less_asym x x)

  larger_child_lem :
      IsOrderly v → (q : List V) (n i : ℕ) → 2 * i + 1 < n → n ≤ length q → Larger q n i
  unfolding larger_child less_at
  larger_child_lem laws q n i lt le =
      let (a, ea) = get_elem?-some q (2 * i + 1) (omega (arith, lt, le)) in
      let self = in_order_refl laws a in
      elim (Bool-cases (ltb (2 * i + 2) n)) [
        | inr alone ↦ record {
          child = 2 * i + 1;
          finds = ground (arith, alone);
          is_child = (omega arith, omega arith, lt);
          largest = λ c pos lt_c h. elim (children c i pos h) [
            | inl e ↦ IsBelow-at q (2 * i + 1) c (some a) (some a) ea (ap (get_elem? q) e ∙ ea) self
            | inr e ↦ absurd (ground (arith, alone, e, lt_c))
          ];
        }
        | inl both ↦
            (let (b, eb) = get_elem?-some q (2 * i + 2) (ground (arith, both, le)) in
              elim (Bool-cases (v.less b a)) [
                | inl less ↦ record {
                  child = 2 * i + 2;
                  finds = ground (arith, both, less, ea, eb);
                  is_child = (omega arith, omega arith, ground (arith, both));
                  largest = λ c pos lt_c h. elim (children c i pos h) [
                    | inl e ↦
                        IsBelow-at q (2 * i + 2) c (some b) (some a) eb (ap (get_elem? q) e ∙ ea)
                          (in_order-less laws b a less)
                    | inr e ↦
                        IsBelow-at q (2 * i + 2) c (some b) (some b) eb (ap (get_elem? q) e ∙ eb)
                          (in_order_refl laws b)
                  ];
                }
                | inr keep ↦ record {
                  child = 2 * i + 1;
                  finds = ground (arith, both, keep, ea, eb);
                  is_child = (omega arith, omega arith, lt);
                  largest = λ c pos lt_c h. elim (children c i pos h) [
                    | inl e ↦
                        IsBelow-at q (2 * i + 1) c (some a) (some a) ea (ap (get_elem? q) e ∙ ea)
                          self
                    | inr e ↦
                        IsBelow-at q (2 * i + 1) c (some a) (some b) ea (ap (get_elem? q) e ∙ eb)
                          (ground (arith, keep))
                  ];
                }
              ])
      ]

  -- The value stays: it ranks above the larger child.
  stays :
      IsOrderly v
      → (q : List V) (n i j : ℕ) (x y : V) → IsSinking q n i
      → get_elem? q i ≡ some y
      → get_elem? q j ≡ some x
      → v.less x y ≡ false
      → ((c : ℕ) → 0 < c → c < n → parent c ≡ i → IsBelow q j c)
      → IsRising q n i
  stays laws q n i j x y s ei ej keep largest = record {
    elsewhere = λ c pos lt other. elim (nat_cases (parent c) i) [
      | inl p ↦ IsBelow-at q (parent c) c (some y) (get_elem? q c) (ap (get_elem? q) p ∙ ei) refl (
          in_order_trans laws (some y) (get_elem? q c) x (ground (arith, keep))
            (in_order-at q j c (some x) (get_elem? q c) ej refl (largest c pos lt p)))
      | inr n1 ↦ s.elsewhere c pos lt other n1
    ];
    bridges = s.bridges;
  }

  -- The value falls: the place of the larger child is the one out of order.
  falls :
      IsOrderly v
      → (q q' : List V) (n i j : ℕ) (x y : V) → IsSinking q n i
      → Exchanged q q' i j x y
      → (parent j ≡ i) × (i < j) × (j < n)
      → ((c : ℕ) → 0 < c → c < n → parent c ≡ i → IsBelow q j c)
      → IsSinking q' n j
  falls laws q q' n i j x y s e child largest = record {
    elsewhere = λ c pos lt n1 n2. elim (nat_cases c i) [
      | inl p ↦
          (let pos_i : 0 < i = omega (arith, p, pos) in
            IsBelow-at q' (parent c) c (get_elem? q (parent i)) (some x)
              (ap (λ k. get_elem? q' (parent k)) p
                ∙ e.others (parent i) (λ h. omega (arith, h, pos_i))
                    (λ h. omega (arith, h, pos_i, child.1)))
              (ap (get_elem? q') p ∙ e.at_i)
              (in_order-at q (parent i) j (get_elem? q (parent i)) (some x) refl e.was_j
                (s.bridges j (omega (arith, child.1)) child.2 child.0 pos_i)))
      | inr n3 ↦ elim (nat_cases (parent c) i) [
        | inl p ↦
            IsBelow-at q' (parent c) c (some x) (get_elem? q c) (ap (get_elem? q') p ∙ e.at_i)
              (e.others c n3 n1)
              (in_order-at q j c (some x) (get_elem? q c) e.was_j refl (largest c pos lt p))
        | inr n4 ↦
            IsBelow-at q' (parent c) c (get_elem? q (parent c)) (get_elem? q c)
              (e.others (parent c) n4 n2) (e.others c n3 n1) (s.elsewhere c pos lt n3 n4)
      ]
    ];
    bridges = λ c pos lt p pos_j.
        (let c_i : c ≢ i = λ h. omega (arith, h, p, child.1, pos) in
          let c_j : c ≢ j = λ h. omega (arith, h, p, pos) in
          let up_i : parent c ≢ i = λ h. omega (arith, h, p, child.1) in
          IsBelow-at q' (parent j) c (some x) (get_elem? q c) (ap (get_elem? q') child.0 ∙ e.at_i)
            (e.others c c_i c_j)
            (in_order-at q (parent c) c (some x) (get_elem? q c) (ap (get_elem? q) p ∙ e.was_j) refl
              (s.elsewhere c pos lt c_i up_i)));
  }

  -- No child is within the part that is a heap.
  leaf_stays : (q : List V) (n i : ℕ) → n ≤ 2 * i + 1 → IsSinking q n i → IsRising q n i
  leaf_stays q n i le s = record {
    elsewhere = λ c pos lt other. s.elsewhere c pos lt other (λ p. omega (arith, p, pos, lt, le));
    bridges = s.bridges;
  }

  -- With fuel for the way to the end of the part that is a heap.
  pub down-Sunk :
      IsOrderly v
      → (fuel : ℕ) (q : List V) (n i : ℕ) → 0 < fuel
      → n < fuel + i
      → i < length q
      → n ≤ length q
      → IsSinking q n i
      → Sunk q n i (down fuel q i n)
  unfolding down less_at
  down-Sunk laws zero q n i some_fuel enough lt le s = absurd (omega (arith, some_fuel))
  down-Sunk laws (suc fuel) q n i some_fuel enough lt le s = elim (Bool-cases (leb n (2 * i + 1))) [
    | inl end ↦ record {
      queue = q;
      rest = i;
      ends = ground (arith, end);
      same_length = refl;
      same_values = perm_refl q;
      beyond = λ k h. refl;
      outcome = inl (refl, refl, leaf_stays q n i (ground (arith, end)) s);
    }
    | inr more ↦
        (let c = larger_child_lem laws q n i (ground (arith, more)) le in
          let j = c.child in
          let (par, below, within) = c.is_child in
          let (x, ex) = get_elem?-some q j (omega (arith, within, le)) in
          let (y, ey) = get_elem?-some q i lt in
          elim (Bool-cases (v.less x y)) [
            | inr keep ↦ record {
              queue = q;
              rest = i;
              ends = ground (arith, more, c.finds, keep, ex, ey);
              same_length = refl;
              same_values = perm_refl q;
              beyond = λ k h. refl;
              outcome = inl (refl, refl, stays laws q n i j x y s ey ex keep c.largest);
            }
            | inl less ↦
                (let w = swap_lem q i j lt (omega (arith, within, le)) in
                  let e = Swapped-Exchanged q i j x y w ey ex in
                  let again =
                    down-Sunk laws fuel w.result n j (omega (arith, enough, below, within))
                      (omega (arith, enough, below)) (omega (arith, within, le, w.same_length))
                      (omega (arith, le, w.same_length))
                      (falls laws q w.result n i j x y s e (par, below, within) c.largest) in
                  record {
                    queue = again.queue;
                    rest = again.rest;
                    ends = ground (arith, more, c.finds, less, ex, ey, w.swaps, again.ends);
                    same_length = again.same_length ∙ w.same_length;
                    same_values = perm_trans w.same_values again.same_values;
                    beyond = λ k h.
                        again.beyond k h
                        ∙ e.others k (λ p. omega (arith, p, h, below, within))
                            (λ p. omega (arith, p, h, within));
                    outcome = elim again.outcome [
                      | inl (same, list, rising) ↦ inr (
                        omega (arith, same, below),
                        subst (λ k. IsHeap k n) (sym list)
                            (rising_done w.result n j rising (λ _.
                              IsBelow-at w.result (parent j) j (some x) (some y)
                                (ap (get_elem? w.result) par ∙ e.at_i) e.at_j
                                (in_order-less laws x y less))),
                      )
                      | inr (further, heap) ↦ inr (omega (arith, further, below), heap)
                    ];
                  })
          ])
  ]
