-- ===== src/TextSplit/Edit.antt =====
-- `edit` of rga_tree_split.go, and the removal of tombstones.
use rotty.Prelude.{
  ℕ, ◌+◌, Bool, false, not, Option, none, some, ◌>>=◌, Ord, List, [], ◌∷◌, if◌then◌else◌, ltb,
  length,
}
use rotty.Prelude.Assoc.{Keyed, lookup, insert, delete}
use rotty.Element.{after}
use rotty.TextSplit.{
  SplitValue, NodeId, NodePos, Node, TextSplit, Stamped, find_node, replace, new_node, id_keyed,
  find_node_with_split, find_between, removes, insert_after,
}

-- What `deleteNodes` builds up: the list with the removed nodes marked, the latest creation time of
-- a removed node by actor, and the removed nodes.
pub record Deletion (T A C : Type 0) : Type 0 where
  pub nodes : List (Node T C)
  pub created_at_map_by_actor : List (A × T)
  pub removed_node_map : List (NodeId T × NodeId T)

module _ {T A : Type 0} ⦃o : Ord T⦄ ⦃k : Keyed A⦄ ⦃st : Stamped T A⦄ where
  -- The latest creation time that the editor had seen of the actor; a nil map stands for all of it.
  abbrev pub latest_created_at : Option (List (A × T)) → A → T
  latest_created_at none actor = st.max_ticket
  latest_created_at (some latest) actor = elim (lookup actor latest) [
    | none ↦ st.initial_ticket
    | some t ↦ t
  ]

  -- The entry of the actor follows the later creation time.
  abbrev pub note_created_at : List (A × T) → T → List (A × T)
  note_created_at seen t = elim (lookup (st.actor_of t) seen) [
    | none ↦ insert (st.actor_of t) t seen
    | some u ↦ if after t u then insert (st.actor_of t) t seen else seen
  ]

module _ {T : Type 0} where
  -- Where the caret stands when nothing is inserted.
  abbrev pub caret_id : NodeId T → Option (NodeId T) → NodeId T
  caret_id to_left none = to_left
  caret_id to_left (some to_right) = to_right

module _ {T : Type 0} ⦃o : Ord T⦄ where
  pub add_all : List (NodeId T × NodeId T) → List (NodeId T × NodeId T) → List (NodeId T × NodeId T)
  add_all known [] = known
  add_all known ((key, n) ∷ removed) = add_all (insert key n known) removed

  abbrev pub assign :
      NodeId T → Option (NodeId T) → List (NodeId T × NodeId T) → List (NodeId T × NodeId T)
  assign id none links = delete id links
  assign id (some other) links = insert id other links

  -- A link of the neighbour, when there is a neighbour, is led past the node.
  abbrev pub lead_past :
      Option (NodeId T)
      → Option (NodeId T)
      → List (NodeId T × NodeId T)
      → List (NodeId T × NodeId T)
  lead_past none other links = links
  lead_past (some neighbour) other links = assign neighbour other links

module _ {T C : Type 0} where
  abbrev pub mark : T → Node T C → Node T C
  mark edited_at n = record n { removed_at = some edited_at }

module _ {T C : Type 0} ⦃o : Ord T⦄ ⦃m : SplitValue C⦄ where
  abbrev pub content_node : C → T → Node T C
  content_node content edited_at = new_node (record { created_at = edited_at; offset = 0 }) content

  -- The new block goes behind the left cut; nothing is inserted for a value without content.
  unfoldable pub insert_content : TextSplit T C → NodeId T → C → T → TextSplit T C
  insert_content s from_left content edited_at =
      if ltb 0 (m.value_len content)
      then insert_after s from_left (content_node content edited_at)
      else s

  unfoldable pub caret_pos : NodeId T → Option (NodeId T) → C → T → NodePos T
  caret_pos to_left to_right content edited_at =
      if ltb 0 (m.value_len content)
      then record {
        id = record { created_at = edited_at; offset = 0 };
        relative_offset = m.value_len content;
      }
      else record { id = caret_id to_left to_right; relative_offset = 0 }

module _ {T A C : Type 0} ⦃o : Ord T⦄ ⦃m : SplitValue C⦄ ⦃k : Keyed A⦄ ⦃st : Stamped T A⦄ where
  -- One round of the loop of `deleteNodes`.
  unfoldable pub delete_node :
      Option (List (A × T)) → T → Deletion T A C → Node T C → Deletion T A C
  delete_node latest edited_at d n =
      if removes n edited_at (latest_created_at latest (st.actor_of n.id.created_at))
      then record {
        nodes = replace n.id (mark edited_at n ∷ []) d.nodes;
        created_at_map_by_actor = note_created_at d.created_at_map_by_actor n.id.created_at;
        removed_node_map = insert n.id n.id d.removed_node_map;
      }
      else d

  unfoldable pub delete_nodes :
      Option (List (A × T)) → T → Deletion T A C → List (Node T C) → Deletion T A C
  delete_nodes latest edited_at d [] = d
  delete_nodes latest edited_at d (n ∷ ns) =
      delete_nodes latest edited_at (delete_node latest edited_at d n) ns

  -- `edit`: the list, the new caret, and the creation times that a replica needs to replay it.
  unfoldable pub edit :
      TextSplit T C
      → NodePos T
      → NodePos T
      → Option (List (A × T))
      → C
      → T
      → Option (TextSplit T C × NodePos T × List (A × T))
  edit s from to latest content edited_at = do
    (s1, to_left, to_right) ← find_node_with_split s to edited_at
    (s2, from_left, from_right) ← find_node_with_split s1 from edited_at
    let d : Deletion T A C =
        delete_nodes latest edited_at
          (record { nodes = s2.nodes; created_at_map_by_actor = []; removed_node_map = [] })
          (find_between s2 from_right to_right)
    let s4 : TextSplit T C =
        insert_content (record s2 { nodes = d.nodes }) from_left content edited_at
    some (
      record s4 { removed_node_map = add_all s4.removed_node_map d.removed_node_map },
      caret_pos to_left to_right content edited_at,
      d.created_at_map_by_actor,
    )

module _ {T C : Type 0} ⦃o : Ord T⦄ ⦃m : SplitValue C⦄ where
  unfoldable pub purge : TextSplit T C → NodeId T → TextSplit T C
  purge s id =
      let prev = lookup id s.ins_prev in
      let next = lookup id s.ins_next in
      record s {
        nodes = replace id [] s.nodes;
        ins_prev = delete id (lead_past next prev s.ins_prev);
        ins_next = delete id (lead_past prev next s.ins_next);
      }

  -- The time is not before that of the removal.
  abbrev pub is_due : T → Node T C → Bool
  is_due ticket n = elim n.removed_at [ none ↦ false | some r ↦ not (after r ticket) ]

  pub purge_due : T → TextSplit T C → List (NodeId T × NodeId T) → TextSplit T C × ℕ
  purge_due ticket s [] = (s, 0)
  purge_due ticket s ((key, id) ∷ rest) =
      let due = elim (find_node id s.nodes) as (λ _. Bool) [
        | none ↦ false
        | some n ↦ is_due ticket n
      ] in
      let without = record (purge s id) { removed_node_map = delete id s.removed_node_map } in
      let (s', count) = purge_due ticket (if due then without else s) rest in
      (s', if due then count + 1 else count)

  -- `cleanupRemovedNodes`, through the map in one of its orders.
  unfoldable pub cleanup_removed_nodes : T → TextSplit T C → TextSplit T C × ℕ
  cleanup_removed_nodes ticket s = purge_due ticket s s.removed_node_map

  abbrev pub removed_nodes_len : TextSplit T C → ℕ
  removed_nodes_len s = length s.removed_node_map
