-- ===== src/RhtPq.antt =====
-- pkg/document/json/rht_pq_map.go: the members of an object, a priority queue of nodes for each key.
-- The queues and the map by creation time share their nodes, so nodes live in a store. An entry of a
-- queue is the place of a node together with the creation time of its element, which nothing
-- changes and which `Less` compares. What the elements hold is any type.
pub mod Entries
pub mod Latest
pub mod Shown
pub mod Convergence
pub mod Removal
pub mod Tests
use Prim.Native.String.{String}
use rotty.Prelude.{
  ℕ, Bool, true, false, not, ◌&&◌, Option, none, some, ◌>>=◌, Ord, List, [], ◌∷◌, ◌++◌, ◌==◌,
  if◌then◌else◌, is_gt, length, get_elem?, set, ◌↔◌, ◌≡◌, arith,
}
use rotty.Prelude.Assoc.{
  Keyed, string_keyed, ord_keyed, lookup, insert, delete, is_eq, cmp_is_eq_iff,
}
use rotty.Element.{Elem, is_removed, remove}
use rotty.Pq.{Value, push, peek, release}

pub record Node (T C : Type 0) : Type 0 where
  pub key : String
  pub elem : Elem T C

pub record Entry (T : Type 0) : Type 0 where
  pub place : ℕ
  pub created_at : T

abbrev pub Queue : Type 0 → Type 0
Queue T = List (Entry T)

pub record RhtPqMap (T C : Type 0) : Type 0 where
  pub store : List (Node T C)
  pub queue_by_key : List (String × Queue T)
  pub by_created_at : List (T × ℕ)

-- A key that has no queue gets an empty one.
abbrev pub or_empty : {T : Type 0} → Option (Queue T) → Queue T
or_empty none = []
or_empty (some q) = q

abbrev pub new_map : {T C : Type 0} → RhtPqMap T C
new_map = record { store = []; queue_by_key = []; by_created_at = [] }

module _ {T : Type 0} ⦃o : Ord T⦄ where
  -- `Less`: elements inserted later come first.
  instance abbrev pub entry_value : Value (Entry T)
  entry_value = record { less = λ n other. is_gt (o.cmp n.created_at other.created_at) }

  pub same_entry :
      (a b : Entry T)
      → ((a.place == b.place && is_eq (o.cmp a.created_at b.created_at)) ≡ true) ↔ (a ≡ b)
  same_entry a b = (
    λ h. ground (arith, h, o.cmp_eq a.created_at b.created_at),
    λ h. rw h (ground (arith, o.cmp_refl b.created_at)),
  )

  -- Nodes are told apart by their pointers.
  instance abbrev pub entry_keyed : Keyed (Entry T)
  entry_keyed = record {
    same = λ a b. a.place == b.place && is_eq (o.cmp a.created_at b.created_at);
    same_iff = same_entry;
  }

module _ {T C : Type 0} where
  -- `Peek`, followed to the node: none if the queue is empty.
  pub peek_node : RhtPqMap T C → Queue T → Option (ℕ × Node T C)
  peek_node m q = do e ← peek q; n ← get_elem? m.store e.place; some (e.place, n)

  -- `none` is nil.
  pub get : RhtPqMap T C → String → Option (Elem T C)
  get m key = do
    q ← lookup key m.queue_by_key
    (i, n) ← peek_node m q
    if is_removed n.elem then none else some n.elem

  -- `Peek` of an empty queue panics: `none`.
  pub has : RhtPqMap T C → String → Option Bool
  has m key = elim (lookup key m.queue_by_key) [
    | none ↦ some false
    | some q ↦ (do (i, n) ← peek_node m q; some (not (is_removed n.elem)))
  ]

  elements_of : RhtPqMap T C → List (String × Queue T) → List (String × Elem T C)
  elements_of m [] = []
  elements_of m ((key, q) ∷ queues) =
      let rest = elements_of m queues in
      elim (peek_node m q) [
        | none ↦ rest
        | some (i, n) ↦ if is_removed n.elem then rest else (n.key, n.elem) ∷ rest
      ]

  pub elements : RhtPqMap T C → List (String × Elem T C)
  elements m = elements_of m m.queue_by_key

  nodes_at : RhtPqMap T C → Queue T → List (Node T C)
  nodes_at m [] = []
  nodes_at m (e ∷ q) = elim (get_elem? m.store e.place) [
    | none ↦ nodes_at m q
    | some n ↦ n ∷ nodes_at m q
  ]

  nodes_of : RhtPqMap T C → List (String × Queue T) → List (Node T C)
  nodes_of m [] = []
  nodes_of m ((key, q) ∷ queues) = nodes_at m q ++ nodes_of m queues

  pub nodes : RhtPqMap T C → List (Node T C)
  nodes m = nodes_of m m.queue_by_key

  abbrev pub queue_at : RhtPqMap T C → String → Queue T
  queue_at m key = or_empty (lookup key m.queue_by_key)

module _ {T C : Type 0} ⦃o : Ord T⦄ where
  -- `Remove` of the node at a place of the store: the element is given back if the removal took.
  pub mark : RhtPqMap T C → ℕ → Node T C → T → RhtPqMap T C × Option (Elem T C)
  mark m i n removed_at =
      let (e, took) = remove n.elem removed_at in
      if took
      then (record m { store = set m.store i (record n { elem = e }) }, some e)
      else (m, none)

  -- `none` is a loop of the queue that does not end.
  pub set_internal : RhtPqMap T C → String → Elem T C → Option (RhtPqMap T C)
  set_internal m key v = do
    let place = length m.store
    q ← push (queue_at m key) (record { place = place; created_at = v.created_at })
    some (record {
      store = m.store ++ record { key = key; elem = v } ∷ [];
      queue_by_key = insert key q m.queue_by_key;
      by_created_at = insert ⦃e = ord_keyed⦄ v.created_at place m.by_created_at;
    })

  -- The value that `Set` replaces.
  pub remove_top : RhtPqMap T C → String → T → RhtPqMap T C × Option (Elem T C)
  remove_top m key removed_at = elim (peek_node m (queue_at m key)) [
    | none ↦ (m, none)
    | some (i, n) ↦ if is_removed n.elem then (m, none) else mark m i n removed_at
  ]

  pub set_value : RhtPqMap T C → String → Elem T C → Option (RhtPqMap T C × Option (Elem T C))
  set_value m key v = do
    let (m1, removed) = remove_top m key v.created_at
    m2 ← set_internal m1 key v
    some (m2, removed)

  -- `none` is a panic, on an empty queue.
  pub delete_key : RhtPqMap T C → String → T → Option (RhtPqMap T C × Option (Elem T C))
  delete_key m key deleted_at = elim (lookup key m.queue_by_key) [
    | none ↦ some (m, none)
    | some q ↦ (do (i, n) ← peek_node m q; some (mark m i n deleted_at))
  ]

  -- `nodeMapByCreatedAt`, followed to the node.
  pub node_at : RhtPqMap T C → T → Option (ℕ × Node T C)
  node_at m created_at = do
    i ← lookup ⦃e = ord_keyed⦄ created_at m.by_created_at
    n ← get_elem? m.store i
    some (i, n)

  pub delete_by_created_at : RhtPqMap T C → T → T → RhtPqMap T C × Option (Elem T C)
  delete_by_created_at m created_at deleted_at = elim (node_at m created_at) [
    | none ↦ (m, none)
    | some (i, n) ↦ mark m i n deleted_at
  ]

  -- `Fatalf` ends the program: `none`.
  pub purge : RhtPqMap T C → Elem T C → Option (RhtPqMap T C)
  purge m e = do
    (i, n) ← node_at m e.created_at
    q ← lookup n.key m.queue_by_key
    q' ← release q (record { place = i; created_at = n.elem.created_at })
    some (record m {
      queue_by_key = insert n.key q' m.queue_by_key;
      by_created_at = delete ⦃e = ord_keyed⦄ n.elem.created_at m.by_created_at;
    })
