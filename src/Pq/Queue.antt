-- ===== src/Pq/Queue.antt =====
-- The operations of priority_queue.go: each ends, keeps the heap, and adds or takes one value.
use mathlib.Core.List.{Perm, perm_middle, append-nil}
use mathlib.Core.List.Perm.{trans as perm_trans, refl as perm_refl, symm as perm_symm}
use rotty.Prelude.{
  ℕ, suc, ◌-◌, ◌≡◌, ◌≢◌, ◌<◌, refl, sym, ap, ◌∙◌, some, Option, List, [], ◌∷◌, ◌++◌, arith, length,
  length-append, get_elem?, get_elem?-append_left, get_elem?-append_end, get_elem?-some, nat_cases,
  subst, inl, inr,
}
use rotty.Pq.{Value, parent, enough, pop_last, push, pop, take_out, remove}
use rotty.Pq.Order.{IsOrderly, in_order_trans, IsHeap, IsBelow-at, in_order-at}
use rotty.Pq.Swap.{Swapped, swap_lem}
use rotty.Pq.Up.{IsRising, up-IsHeap, rising_done}
use rotty.Pq.Down.{IsSinking, down-Sunk}

module _ {V : Type 0} where
  pop_last_lem :
      (q : List V) (n : ℕ)
      → length q ≡ suc n
      → (rest : List V) × (x : V) × (pop_last q ≡ some (rest, x)) × (q ≡ rest ++ x ∷ [])
  unfolding pop_last
  pop_last_lem [] n h = absurd (omega (arith, h))
  pop_last_lem (x ∷ []) n h = ([], x, refl, refl)
  pop_last_lem (x ∷ y ∷ q) n h =
      let (rest, z, e, list) = pop_last_lem (y ∷ q) (length q) refl in
      (x ∷ rest, z, rw e refl, ap (◌∷◌ x) list)

  last-perm : (rest : List V) (x : V) → Perm (rest ++ x ∷ []) (x ∷ rest)
  last-perm rest x = rw (append-nil rest) at (perm_middle {a = x} rest [])

  kept :
      (q : List V) (n i : ℕ) (w : Swapped q i n) (k : ℕ)
      → k ≢ i
      → k ≢ n
      → get_elem? w.result k ≡ get_elem? q k
  kept q n i w k a b = ground (arith, w.gets k, a, b)

module _ {V : Type 0} ⦃v : Value V⦄ where
  abbrev pub IsQueue : List V → Type 0
  IsQueue q = IsHeap q (length q)

  IsHeap-rest : (rest : List V) (x : V) → IsHeap (rest ++ x ∷ []) (length rest) → IsQueue rest
  IsHeap-rest rest x h c pos lt =
      IsBelow-at rest (parent c) c (get_elem? (rest ++ x ∷ []) (parent c))
        (get_elem? (rest ++ x ∷ []) c)
        (sym (get_elem?-append_left rest (x ∷ []) (parent c) (omega (arith, lt))))
        (sym (get_elem?-append_left rest (x ∷ []) c lt)) (h c pos lt)

  -- What a queue is with one value more.
  pub record Pushed (q : List V) (x : V) : Type 0 where
    pub queue : List V
    pub pushes : push q x ≡ some queue
    pub heap : IsQueue queue
    pub values : Perm (x ∷ q) queue

  append-IsRising :
      (q : List V) (x : V) → IsQueue q → IsRising (q ++ x ∷ []) (suc (length q)) (length q)
  append-IsRising q x h = record {
    elsewhere = λ c pos lt other.
        (let c_in : c < length q = omega (arith, lt, other) in
          IsBelow-at (q ++ x ∷ []) (parent c) c (get_elem? q (parent c)) (get_elem? q c)
            (get_elem?-append_left q (x ∷ []) (parent c) (omega (arith, c_in)))
            (get_elem?-append_left q (x ∷ []) c c_in) (h c pos c_in));
    bridges = λ c pos lt p pos_j. absurd (omega (arith, p, lt, pos, pos_j));
  }

  -- `Push` ends, and leaves a heap with the value added.
  pub push-Pushed : IsOrderly v → (q : List V) (x : V) → IsQueue q → Pushed q x
  unfolding push
  push-Pushed laws q x h =
      let long = length-append q (x ∷ []) in
      let m =
        up-IsHeap laws (enough q) (q ++ x ∷ []) (suc (length q)) (length q) (omega arith)
          (omega arith) (omega (arith, long)) (append-IsRising q x h) in
      record {
        queue = m.queue;
        pushes = m.ends;
        heap = λ c pos lt. m.heap c pos (omega (arith, lt, m.same_length, long));
        values = perm_trans (perm_symm (last-perm q x)) m.same_values;
      }

  -- What is left when the value at an index is taken out.
  pub record Taken (q : List V) (i : ℕ) (result : Option (List V × V)) : Type 0 where
    pub queue : List V
    pub value : V
    pub takes : result ≡ some (queue, value)
    pub was : get_elem? q i ≡ some value
    pub heap : IsQueue queue
    pub values : Perm q (value ∷ queue)

  -- What `pop_last` takes from a slice that is a heap but for its last place.
  last-Taken :
      (q q' : List V) (n i : ℕ) (x : V)
      → length q ≡ suc n
      → length q' ≡ suc n
      → Perm q q'
      → IsHeap q' n
      → get_elem? q' n ≡ some x
      → get_elem? q i ≡ some x
      → Taken q i (pop_last q')
  last-Taken q q' n i x lq lq' p h last was =
      let (rest, y, e, list) = pop_last_lem q' n lq' in
      let size : length rest ≡ n =
        omega (arith, lq', ap length list, length-append rest (y ∷ [])) in
      let same : y ≡ x = ground (
        arith,
        last,
        ap (λ k. get_elem? k n) list,
        get_elem?-append_end rest y,
        ap (get_elem? (rest ++ y ∷ [])) size,
      ) in
      record {
        queue = rest;
        value = y;
        takes = e;
        was = was ∙ ap some (sym same);
        heap =
            IsHeap-rest rest y
              (subst (IsHeap (rest ++ y ∷ [])) (sym size) (subst (λ k. IsHeap k n) list h));
        values = perm_trans p (subst (λ k. Perm k (y ∷ rest)) (sym list) (last-perm rest y));
      }

  swap-IsSinking :
      IsOrderly v
      → (q : List V) (n i : ℕ) (w : Swapped q i n) → IsHeap q n
      → i < n
      → i < length q
      → IsSinking w.result n i
  swap-IsSinking laws q n i w h lt within =
      let (y, ey) = get_elem?-some q i within in
      record {
        elsewhere = λ c pos lt_c n1 n2.
            IsBelow-at w.result (parent c) c (get_elem? q (parent c)) (get_elem? q c)
              (kept q n i w (parent c) n2 (λ p. omega (arith, p, lt_c)))
              (kept q n i w c n1 (λ p. omega (arith, p, lt_c))) (h c pos lt_c);
        bridges = λ c pos lt_c p pos_i.
            IsBelow-at w.result (parent i) c (get_elem? q (parent i)) (get_elem? q c)
              (kept q n i w (parent i) (λ k. omega (arith, k, pos_i)) (λ k. omega (arith, k, lt)))
              (kept q n i w c (λ k. omega (arith, k, p, pos)) (λ k. omega (arith, k, lt_c)))
              (in_order_trans laws (get_elem? q (parent i)) (get_elem? q c) y
                (in_order-at q (parent i) i (get_elem? q (parent i)) (some y) refl ey
                  (h i pos_i lt))
                (in_order-at q (parent c) c (some y) (get_elem? q c) (ap (get_elem? q) p ∙ ey) refl
                  (h c pos lt_c)));
      }

  -- The value at an index goes to the end of the slice, in front of which all is a heap again.
  record Aside (q : List V) (n i : ℕ) : Type 0 where
    aside : List V
    runs : take_out q i n ≡ some aside
    heap : IsHeap aside n
    same_length : length aside ≡ length q
    values : Perm q aside
    last : get_elem? aside n ≡ get_elem? q i

  take_out-Aside :
      IsOrderly v → (q : List V) (n i : ℕ) → IsQueue q → length q ≡ suc n → i < n → Aside q n i
  unfolding take_out
  take_out-Aside laws q n i h size lt =
      let w = swap_lem q i n (omega (arith, lt, size)) (omega (arith, size)) in
      let d =
        down-Sunk laws (enough q) w.result n i (omega arith) (omega (arith, size))
          (omega (arith, lt, size, w.same_length)) (omega (arith, size, w.same_length))
          (swap-IsSinking laws q n i w (λ c pos l. h c pos (omega (arith, l, size))) lt
            (omega (arith, lt, size))) in
      let at_end : get_elem? w.result n ≡ get_elem? q i = ground (arith, w.gets n) in
      elim d.outcome [
        | inr (further, heap) ↦ record {
          aside = d.queue;
          runs = ground (arith, w.swaps, d.ends, further);
          heap = heap;
          same_length = d.same_length ∙ w.same_length;
          values = perm_trans w.same_values d.same_values;
          last = d.beyond n (omega arith) ∙ at_end;
        }
        | inl (same, list, rising) ↦
            (let u =
                up-IsHeap laws (enough q) w.result n i (omega (arith, lt, size)) lt
                  (omega (arith, size, w.same_length)) rising in
              record {
                aside = u.queue;
                runs = ground (arith, w.swaps, d.ends, same, list, u.ends);
                heap = u.heap;
                same_length = u.same_length ∙ w.same_length;
                values = perm_trans w.same_values u.same_values;
                last = u.beyond n (omega arith) ∙ at_end;
              })
      ]

  -- The same result, computed in another way.
  along-Taken :
      (q : List V) (i : ℕ) (r r' : Option (List V × V)) → Taken q i r → r' ≡ r → Taken q i r'
  along-Taken q i r r' t e = subst (Taken q i) (sym e) t

  -- `Remove` at an index within the queue ends, and takes the value there out of the heap.
  pub remove-Taken :
      IsOrderly v → (q : List V) (i : ℕ) → IsQueue q → i < length q → Taken q i (remove q i)
  unfolding remove
  remove-Taken laws q i h lt =
      let n = length q - 1 in
      let size : length q ≡ suc n = omega (arith, lt) in
      let (x, ex) = get_elem?-some q i lt in
      elim (nat_cases n i) [
        | inl e ↦
            (let t =
                last-Taken q q n i x size size (perm_refl q)
                  (λ c pos l. h c pos (omega (arith, l, size))) (ap (get_elem? q) e ∙ ex) ex in
              along-Taken q i (pop_last q) (remove q i) t (ground (arith, e)))
        | inr other ↦
            (let a = take_out-Aside laws q n i h size (omega (arith, other, lt)) in
              let t =
                last-Taken q a.aside n i x size (a.same_length ∙ size) a.values a.heap (a.last ∙ ex)
                  ex in
              along-Taken q i (pop_last a.aside) (remove q i) t (ground (arith, other, a.runs)))
      ]

  -- `Pop` of a queue that is not empty ends, and takes the first value out of the heap.
  pub pop-Taken :
      IsOrderly v → (x : V) (q : List V) → IsQueue (x ∷ q) → Taken (x ∷ q) 0 (pop (x ∷ q))
  unfolding pop
  pop-Taken laws x q h =
      let n = length q in
      let w = swap_lem (x ∷ q) 0 n (omega arith) (omega arith) in
      let sinking : IsSinking w.result n 0 = elim (nat_cases n 0) [
        | inl e ↦ record {
          elsewhere = λ c pos lt n1 n2. absurd (omega (arith, e, lt));
          bridges = λ c pos lt p pos_i. absurd (omega (arith, pos_i));
        }
        | inr other ↦
            swap-IsSinking laws (x ∷ q) n 0 w (λ c pos l. h c pos (omega (arith, l)))
              (omega (arith, other)) (omega arith)
      ] in
      let d =
        down-Sunk laws (enough (x ∷ q)) w.result n 0 (omega arith) (omega arith)
          (omega (arith, w.same_length)) (omega (arith, w.same_length)) sinking in
      let heap : IsHeap d.queue n = elim d.outcome [
        | inr (further, heap) ↦ heap
        | inl (same, list, rising) ↦
            subst (λ k. IsHeap k n) (sym list)
              (rising_done w.result n 0 rising (λ p. absurd (omega (arith, p))))
      ] in
      let last : get_elem? d.queue n ≡ some x =
        d.beyond n (omega arith) ∙ ground (arith, w.gets n) in
      along-Taken (x ∷ q) 0 (pop_last d.queue) (pop (x ∷ q))
        (last-Taken (x ∷ q) d.queue n 0 x refl (d.same_length ∙ w.same_length)
          (perm_trans w.same_values d.same_values) heap last refl)
        (ground (arith, w.swaps, d.ends))
