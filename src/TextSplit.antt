-- ===== src/TextSplit.antt =====
-- pkg/document/json/rga_tree_split.go: the split list that holds the blocks of a text.
pub mod Edit
pub mod Nodes
pub mod Floor
pub mod Shape
pub mod Links
pub mod Cut
pub mod CutShape
pub mod Contents
pub mod Locate
pub mod Similar
pub mod Fresh
pub mod Splice
pub mod Erase
pub mod Insertion
pub mod Index
use rotty.Prelude.{
  ℕ, ◌+◌, ◌-◌, ◌≡◌, Ordering, eq, compare, Bool, true, false, not, ◌&&◌, ◌||◌, Option, none, some,
  ◌>>=◌, Ord, IsTotal, first_of_two, arith, List, [], ◌∷◌, ◌++◌, if◌then◌else◌, ltb, ◌==◌,
}
use rotty.Prelude.Assoc.{Keyed, is_eq, ord_keyed, lookup, insert}
use rotty.Element.{after, after_removal}
use rotty.Splay.{Measured}
use rotty.Splay.Find.{scan}

-- `Len` and `Split` of the interface `RGATreeSplitValue`: the part that stays, and the new one.
pub record SplitValue (C : Type 0) : Type 0 where
  pub value_len : C → ℕ
  pub split_value : ℕ → C → C × C

pub record NodeId (T : Type 0) : Type 0 where
  pub created_at : T
  pub offset : ℕ

pub record NodePos (T : Type 0) : Type 0 where
  pub id : NodeId T
  pub relative_offset : ℕ

pub record Node (T C : Type 0) : Type 0 where
  pub id : NodeId T
  pub value : C
  pub removed_at : Option T

module _ {T : Type 0} ⦃o : Ord T⦄ where
  -- `Compare`
  abbrev pub compare_ids : NodeId T → NodeId T → Ordering
  compare_ids a b = first_of_two (o.cmp a.created_at b.created_at) (compare a.offset b.offset)

  compare_ids-eq : (a b : NodeId T) → compare_ids a b ≡ eq → a ≡ b
  compare_ids-eq a b h = ground (arith, o.cmp_eq a.created_at b.created_at)

  pub compare_ids-IsTotal : IsTotal compare_ids
  compare_ids-IsTotal = record {
    cmp_refl = λ a. ground (arith, o.cmp_refl a.created_at);
    cmp_eq = compare_ids-eq;
    cmp_flip = λ a b. ground (arith, o.cmp_flip a.created_at b.created_at);
    cmp_trans = λ a b c h k. ground (
      arith,
      o.cmp_eq a.created_at b.created_at,
      o.cmp_eq b.created_at c.created_at,
      o.cmp_refl a.created_at,
      o.cmp_trans a.created_at b.created_at c.created_at,
    );
  }

  instance abbrev pub id_ord : Ord (NodeId T)
  id_ord = record { cmp = compare_ids; is_total = compare_ids-IsTotal }

  abbrev pub has_same_created_at : NodeId T → NodeId T → Bool
  has_same_created_at a b = is_eq (o.cmp a.created_at b.created_at)

  instance abbrev pub id_keyed : Keyed (NodeId T)
  id_keyed = ord_keyed ⦃o = id_ord⦄

-- `getAbsoluteID`
abbrev pub absolute_id : {T : Type 0} → NodePos T → NodeId T
absolute_id pos = record {
  created_at = pos.id.created_at;
  offset = pos.id.offset + pos.relative_offset;
}

-- The nodes in their order, the head first. The fields `insPrev` and `insNext` of the nodes are maps
-- from the ID of a node to that of the other; `removedNodeMap` leads from an ID to its node.
pub record TextSplit (T C : Type 0) : Type 0 where
  pub nodes : List (Node T C)
  pub ins_prev : List (NodeId T × NodeId T)
  pub ins_next : List (NodeId T × NodeId T)
  pub removed_node_map : List (NodeId T × NodeId T)

-- Of tickets: `ActorIDHex`, and the first and the last ticket of time.
pub record Stamped (T A : Type 0) : Type 0 where
  pub actor_of : T → A
  pub initial_ticket : T
  pub max_ticket : T

module _ {T C : Type 0} ⦃m : SplitValue C⦄ where
  abbrev pub is_removed : Node T C → Bool
  is_removed n = elim n.removed_at [ none ↦ false | some t ↦ true ]

  abbrev pub content_len : Node T C → ℕ
  content_len n = m.value_len n.value

  -- `Len`, by which the splay tree weighs a node.
  abbrev pub node_len : Node T C → ℕ
  node_len n = if is_removed n then 0 else content_len n

  instance abbrev pub node_measured : Measured (Node T C)
  node_measured = record { len = node_len }

  abbrev pub new_node : NodeId T → C → Node T C
  new_node id value = record { id = id; value = value; removed_at = none }

  -- The nodes of the linked list behind a node.
  abbrev pub behind : List (Node T C) → List (Node T C)
  behind [] = []
  behind (x ∷ xs) = xs

  -- `NewRGATreeSplit`, of the initial head.
  abbrev pub new_text_split : Node T C → TextSplit T C
  new_text_split initial_head = record {
    nodes = initial_head ∷ [];
    ins_prev = [];
    ins_next = [];
    removed_node_map = [];
  }

  -- `nodes`: all but the head.
  abbrev pub nodes : TextSplit T C → List (Node T C)
  nodes s = behind s.nodes

  -- `findNodePos`: an index behind the end ends the program.
  unfoldable pub find_node_pos : TextSplit T C → ℕ → Option (NodePos T)
  find_node_pos s index = do
    (n, offset) ← scan s.nodes index
    if ltb (node_len n) offset then none else some (record { id = n.id; relative_offset = offset })

  unfoldable pub create_range : TextSplit T C → ℕ → ℕ → Option (NodePos T × NodePos T)
  create_range s from to = do
    from_pos ← find_node_pos s from
    let to_pos = find_node_pos s to
    if from == to then some (from_pos, from_pos) else do p ← to_pos; some (from_pos, p)

  abbrev pub first_id : List (Node T C) → Option (NodeId T)
  first_id [] = none
  first_id (x ∷ xs) = some x.id

module _ {T C : Type 0} ⦃o : Ord T⦄ ⦃m : SplitValue C⦄ where
  pub is_id : NodeId T → Node T C → Bool
  is_id id n = is_eq (compare_ids n.id id)

  pub find_node : NodeId T → List (Node T C) → Option (Node T C)
  find_node id [] = none
  find_node id (x ∷ xs) = if is_id id x then some x else find_node id xs

  -- `Floor` of the tree by ID: the node with the largest ID that is not above the given one.
  pub floor : NodeId T → List (Node T C) → Option (Node T C)
  floor id [] = none
  floor id (x ∷ xs) =
      let best = floor id xs in
      if after ⦃o = id_ord⦄ x.id id then best else elim best [
        | none ↦ some x
        | some y ↦ if after ⦃o = id_ord⦄ y.id x.id then some y else some x
      ]

  pub find_floor_node : TextSplit T C → NodeId T → Option (Node T C)
  find_floor_node s id = do
    n ← floor id s.nodes
    if not (is_id id n) && not (has_same_created_at n.id id) then none else some n

  pub find_floor_node_prefer_to_left : TextSplit T C → NodeId T → Option (Node T C)
  find_floor_node_prefer_to_left s id = do
    n ← find_floor_node s id
    let left : Option (Node T C) = elim (lookup n.id s.ins_prev) [
      | none ↦ some n
      | some p ↦ find_node p s.nodes
    ]
    if ltb 0 id.offset && n.id.offset == id.offset then left else some n

  -- The node of an ID is replaced by some nodes.
  pub replace : NodeId T → List (Node T C) → List (Node T C) → List (Node T C)
  replace id new [] = []
  replace id new (x ∷ xs) =
      let rest = replace id new xs in if is_id id x then new ++ xs else x ∷ rest

  abbrev pub set_ins_prev : NodeId T → NodeId T → TextSplit T C → TextSplit T C
  set_ins_prev id prev s = record s {
    ins_prev = insert id prev s.ins_prev;
    ins_next = insert prev id s.ins_next;
  }

  -- The node at the right comes between the left one and the one that this led to.
  pub link_cut : TextSplit T C → NodeId T → NodeId T → Option (NodeId T) → TextSplit T C
  link_cut s left right none = set_ins_prev right left s
  link_cut s left right (some next) = set_ins_prev right left (set_ins_prev next right s)

  -- `splitNode`, of a node of the list. The new node is not removed, whatever the old one is.
  pub split_node : TextSplit T C → Node T C → ℕ → Option (TextSplit T C)
  split_node s n offset =
      let parts = m.split_value offset n.value in
      let right : NodeId T = record {
        created_at = n.id.created_at;
        offset = n.id.offset + offset;
      } in
      let cut : TextSplit T C = record s {
        nodes = replace n.id (record n { value = parts.0 } ∷ new_node right parts.1 ∷ []) s.nodes;
      } in
      if ltb (content_len n) offset
      then none
      else if offset == 0 || offset == content_len n
      then some s
      else some (link_cut cut n.id right (lookup n.id s.ins_next))

  -- From the node of an ID on.
  pub from_node : NodeId T → List (Node T C) → List (Node T C)
  from_node id [] = []
  from_node id (x ∷ xs) = if is_id id x then x ∷ xs else from_node id xs

  -- The loop that skips the nodes created after `updated_at`: the last one skipped, and the next.
  skip_later : T → NodeId T → List (Node T C) → NodeId T × Option (NodeId T)
  skip_later updated_at left [] = (left, none)
  skip_later updated_at left (x ∷ xs) =
      if after x.id.created_at updated_at then skip_later updated_at x.id xs else (left, some x.id)

  pub find_node_with_split :
      TextSplit T C → NodePos T → T → Option (TextSplit T C × NodeId T × Option (NodeId T))
  find_node_with_split s pos updated_at = do
    n ← find_floor_node_prefer_to_left s (absolute_id pos)
    s' ← split_node s n ((absolute_id pos).offset - n.id.offset)
    let (left, right) = skip_later updated_at n.id (behind (from_node n.id s'.nodes))
    some (s', left, right)

  -- `findBetween`, from the first of the nodes on.
  pub until : Option (NodeId T) → List (Node T C) → List (Node T C)
  until none xs = xs
  until (some to) [] = []
  until (some to) (x ∷ xs) = if is_id to x then [] else x ∷ until (some to) xs

  pub find_between : TextSplit T C → Option (NodeId T) → Option (NodeId T) → List (Node T C)
  find_between s none to = []
  find_between s (some from) to = until to (from_node from s.nodes)

  -- `Remove` of a node.
  abbrev pub removes : Node T C → T → T → Bool
  removes n removed_at latest_created_at =
      not (after n.id.created_at latest_created_at) && after_removal removed_at n.removed_at

  pub insert_behind : NodeId T → Node T C → List (Node T C) → List (Node T C)
  insert_behind prev n [] = []
  insert_behind prev n (x ∷ xs) = if is_id prev x then x ∷ n ∷ xs else x ∷ insert_behind prev n xs

  -- `InsertAfter`
  abbrev pub insert_after : TextSplit T C → NodeId T → Node T C → TextSplit T C
  insert_after s prev n = record s { nodes = insert_behind prev n s.nodes }
