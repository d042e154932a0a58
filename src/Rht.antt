-- ===== src/Rht.antt =====
-- pkg/document/json/rht.go: the replicated hash table of text attributes. The two maps of an `RHT`
-- share their nodes, so nodes live in a store and the maps hold their places in it. The times are
-- any totally ordered type, as `After` orders tickets; a map is an association list with one entry
-- for a key, and `range` goes through it in one of the orders that Go allows.
pub mod Lookup
pub mod Convergence
pub mod Removal
pub mod Tests
use Prim.Native.String.{String}
use rotty.Prelude.{
  ℕ, Bool, true, false, not, ◌&&◌, Option, none, some, ◌>>=◌, Ord, List, [], ◌∷◌, ◌++◌,
  if◌then◌else◌, is_gt, length, get_elem?, set,
}
use rotty.Prelude.Assoc.{Keyed, string_keyed, ord_keyed, lookup, insert}

pub record Node (T : Type 0) : Type 0 where
  pub key : String
  pub val : String
  pub updated_at : T
  pub removed_at : Option T

pub record Rht (T : Type 0) : Type 0 where
  pub store : List (Node T)
  pub by_key : List (String × ℕ)
  pub by_created_at : List (T × ℕ)

module _ {T : Type 0} where
  abbrev pub new_node : String → String → T → Node T
  new_node key val updated_at = record {
    key = key;
    val = val;
    updated_at = updated_at;
    removed_at = none;
  }

  abbrev pub new_rht : Rht T
  new_rht = record { store = []; by_key = []; by_created_at = [] }

  abbrev pub is_removed : Node T → Bool
  is_removed n = elim n.removed_at [ none ↦ false | some t ↦ true ]

  -- `rht.nodeMapByKey[key]`, followed to the node.
  unfoldable pub find : Rht T → String → Option (Node T)
  find rht key = do i ← lookup key rht.by_key; get_elem? rht.store i

  pub get : Rht T → String → String
  get rht key = elim (find rht key) [ none ↦ "" | some n ↦ if is_removed n then "" else n.val ]

  pub has : Rht T → String → Bool
  has rht key = elim (find rht key) [ none ↦ false | some n ↦ not (is_removed n) ]

  -- The nodes of the keys, in the order of the map.
  nodes_at : List (Node T) → List (String × ℕ) → List (Node T)
  nodes_at store [] = []
  nodes_at store ((key, i) ∷ m) = elim (get_elem? store i) [
    | none ↦ nodes_at store m
    | some n ↦ n ∷ nodes_at store m
  ]

  pub nodes : Rht T → List (Node T)
  unfolding nodes_at
  nodes rht = nodes_at rht.store rht.by_key

  elements_of : List (Node T) → List (String × String)
  elements_of [] = []
  elements_of (n ∷ ns) =
      let rest = elements_of ns in if is_removed n then rest else (n.key, n.val) ∷ rest

  pub elements : Rht T → List (String × String)
  unfolding elements_of
  elements rht = elements_of (nodes rht)

module _ {T : Type 0} ⦃o : Ord T⦄ where
  -- `t.After(other)`
  abbrev pub after : T → T → Bool
  after t other = is_gt (o.cmp t other)

  -- The method of a node: a later removal only moves the time on.
  abbrev pub remove_node : Node T → T → Node T
  remove_node n removed_at = elim n.removed_at [
    | none ↦ record n { removed_at = some removed_at }
    | some t ↦ if after removed_at t then record n { removed_at = some removed_at } else n
  ]

  put_node : Rht T → String → String → T → Rht T
  put_node rht k v executed_at = record {
    store = rht.store ++ new_node k v executed_at ∷ [];
    by_key = insert k (length rht.store) rht.by_key;
    by_created_at = insert ⦃e = ord_keyed⦄ executed_at (length rht.store) rht.by_created_at;
  }

  pub set_value : Rht T → String → String → T → Rht T
  unfolding put_node
  set_value rht k v executed_at = elim (find rht k) [
    | none ↦ put_node rht k v executed_at
    | some n ↦ if after executed_at n.updated_at then put_node rht k v executed_at else rht
  ]

  -- `After` panics on a nil argument: `none`.
  after_pointer : T → Option T → Option Bool
  after_pointer t none = none
  after_pointer t (some other) = some (after t other)

  remove_at : Rht T → ℕ → T → Option (Rht T × String)
  unfolding after_pointer
  remove_at rht i executed_at = do
    n ← get_elem? rht.store i
    later ← after_pointer executed_at n.removed_at
    some (
        if later
        then (record rht { store = set rht.store i (remove_node n executed_at) }, n.val)
        else (rht, ""))

  pub remove : Rht T → String → T → Option (Rht T × String)
  unfolding remove_at
  remove rht k executed_at = elim (lookup k rht.by_key) [
    | none ↦ some (rht, "")
    | some i ↦ remove_at rht i executed_at
  ]

  mark_at : Rht T → ℕ → T → Rht T × String
  mark_at rht i removed_at = elim (get_elem? rht.store i) [
    | none ↦ (rht, "")
    | some n ↦ (record rht { store = set rht.store i (remove_node n removed_at) }, n.val)
  ]

  pub remove_by_created_at : Rht T → T → T → Rht T × String
  unfolding mark_at
  remove_by_created_at rht created_at removed_at =
      elim (lookup ⦃e = ord_keyed⦄ created_at rht.by_created_at) [
        | none ↦ (rht, "")
        | some i ↦ mark_at rht i removed_at
      ]

  set_nodes : Rht T → List (Node T) → Rht T
  set_nodes rht [] = rht
  set_nodes rht (n ∷ ns) = set_nodes (set_value rht n.key n.val n.updated_at) ns

  pub deep_copy : Rht T → Rht T
  unfolding set_nodes
  deep_copy rht = set_nodes new_rht (nodes rht)
