-- ===== src/Pq.antt =====
-- pkg/pq/priority_queue.go over container/heap, whose loops are written out. The slice of items is
-- the list of their values: the index that an item keeps is written and never read. An index out of
-- range, and a loop that does not end within its fuel, are `none`.
pub mod Order
pub mod Swap
pub mod Up
pub mod Down
pub mod Queue
pub mod Top
pub mod Release
pub mod Members
pub mod Tests
use rotty.Prelude.{
  ℕ, zero, suc, ◌+◌, ◌-◌, ◌*◌, ◌/◌, Bool, true, false, not, Option, none, some, ◌>>=◌, List, [],
  ◌∷◌, ◌++◌, if◌then◌else◌, ltb, leb, ◌==◌, length, get_elem?, set,
}
use rotty.Prelude.Assoc.{Keyed}

-- The interface `Value`: a value that is `less` is popped earlier.
pub record Value (V : Type 0) : Type 0 where
  pub less : V → V → Bool

abbrev pub parent : ℕ → ℕ
parent j = (j - 1) / 2

module _ {V : Type 0} where
  unfoldable pub swap : List V → ℕ → ℕ → Option (List V)
  swap q i j = do x ← get_elem? q i; y ← get_elem? q j; some (set (set q i y) j x)

  -- `Pop` of the slice: its last item.
  unfoldable pub pop_last : List V → Option (List V × V)
  pop_last [] = none
  pop_last (x ∷ []) = some ([], x)
  pop_last (x ∷ y ∷ q) = do (rest, v) ← pop_last (y ∷ q); some (x ∷ rest, v)

  unfoldable pub peek : List V → Option V
  peek q = get_elem? q 0

module _ {V : Type 0} ⦃v : Value V⦄ where
  unfoldable pub less_at : List V → ℕ → ℕ → Option Bool
  less_at q i j = do x ← get_elem? q i; y ← get_elem? q j; some (v.less x y)

  -- `up` of container/heap.
  unfoldable pub up : ℕ → List V → ℕ → Option (List V)
  up zero q j = none
  up (suc fuel) q j =
      let rise = (do q' ← swap q (parent j) j; up fuel q' (parent j)) in
      if parent j == j
      then some q
      else do less ← less_at q j (parent j); if less then rise else some q

  -- The child that is to rise; the second one is looked at only if there is one.
  unfoldable pub larger_child : List V → ℕ → ℕ → Option ℕ
  larger_child q i n =
      let second = less_at q (2 * i + 2) (2 * i + 1) in
      if ltb (2 * i + 2) n
      then (do less ← second; some (if less then 2 * i + 2 else 2 * i + 1))
      else some (2 * i + 1)

  -- `down` of container/heap: the queue, and where the value comes to rest.
  unfoldable pub down : ℕ → List V → ℕ → ℕ → Option (List V × ℕ)
  down zero q i n = none
  down (suc fuel) q i n =
      let sink = (do
        j ← larger_child q i n
        less ← less_at q j i
        let fall = (do q' ← swap q i j; down fuel q' j n)
        if less then fall else some (q, i)) in
      if leb n (2 * i + 1) then some (q, i) else sink

  abbrev pub enough : List V → ℕ
  enough q = suc (length q)

  unfoldable pub push : List V → V → Option (List V)
  push q x = up (enough q) (q ++ x ∷ []) (length q)

  pub pop : List V → Option (List V × V)
  pop [] = none
  pop (x ∷ q) = do
    q1 ← swap (x ∷ q) 0 (length q)
    (q2, i) ← down (enough (x ∷ q)) q1 0 (length q)
    pop_last q2

  -- The value at an index that is not the last goes to the end, and the one from there to its place.
  unfoldable pub take_out : List V → ℕ → ℕ → Option (List V)
  take_out q i n = do
    q1 ← swap q i n
    (q2, i') ← down (enough q) q1 i n
    let risen = up (enough q) q2 i
    if ltb i i' then some q2 else risen

  -- `Remove` of container/heap.
  unfoldable pub remove : List V → ℕ → Option (List V × V)
  remove q i = do
    q' ← if length q - 1 == i then some q else take_out q i (length q - 1)
    pop_last q'

module _ {V : Type 0} ⦃e : Keyed V⦄ where
  unfoldable pub index_of : V → List V → Option ℕ
  index_of x [] = none
  index_of x (y ∷ q) =
      let further = (do i ← index_of x q; some (suc i)) in if e.same y x then some 0 else further

module _ {V : Type 0} ⦃v : Value V⦄ ⦃e : Keyed V⦄ where
  -- Items are told apart by their pointers.
  unfoldable pub release : List V → V → Option (List V)
  release q x = elim (index_of x q) [ none ↦ some q | some i ↦ (do (q', y) ← remove q i; some q') ]
