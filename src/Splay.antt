-- ===== src/Splay.antt =====
-- pkg/splay/splay.go: the splay tree that finds a node by its index. A node is the place of its value
-- in the tree: the subtree that hangs from it, and the turns that lead up from it to the root, which
-- stand for the `parent` fields. Weights are stored, as in the code, and `UpdateSubtree` is `update`.
pub mod Order
pub mod Weights
pub mod Find
pub mod Tests
use rotty.Prelude.{
  ℤ, at_most, exceeds, minus, ℕ, ◌+◌, ◌-◌, Bool, true, false, ◌&&◌, Option, none, some, List, [],
  ◌∷◌, ◌++◌, leb, ltb, not, if◌then◌else◌,
}

-- `Len` of the interface `Value`.
pub record Measured (V : Type 0) : Type 0 where
  pub len : V → ℕ

pub data Tree (V : Type 0) : Type 0 where
  leaf : Tree V
  node : Tree V → V → ℕ → Tree V → Tree V

-- One step up: from the left child of a node, which has this value and this right subtree; or from
-- the right child. The weight is the one that is stored in the parent.
pub data Turn (V : Type 0) : Type 0 where
  from_left : V → ℕ → Tree V → Turn V
  from_right : Tree V → V → ℕ → Turn V

-- A node with its subtrees and its stored weight.
pub record Focus (V : Type 0) : Type 0 where
  pub left : Tree V
  pub value : V
  pub stored : ℕ
  pub right : Tree V

-- A node of a tree, with the way up to the root.
pub record Place (V : Type 0) : Type 0 where
  pub focus : Focus V
  pub up : List (Turn V)

module _ {V : Type 0} where
  -- `traverseInOrder`
  abbrev pub to_list : Tree V → List V
  to_list leaf = []
  to_list (node l v w r) = to_list l ++ v ∷ to_list r

  -- `leftWeight` and `rightWeight`, on the child.
  abbrev pub weight : Tree V → ℕ
  weight leaf = 0
  weight (node l v w r) = w

  abbrev pub is_nil : Tree V → Bool
  is_nil leaf = true
  is_nil (node l v w r) = false

  -- `hasLinks`
  pub has_links : Place V → Bool
  has_links at =
      not (is_nil at.focus.left && is_nil at.focus.right && (elim at.up [ [] ↦ true | _ ↦ false ]))

  abbrev pub to_tree : Focus V → Tree V
  to_tree f = node f.left f.value f.stored f.right

  -- The whole tree around a node.
  abbrev pub plug : Tree V → List (Turn V) → Tree V
  plug t [] = t
  plug t (from_left p w r ∷ up) = plug (node t p w r) up
  plug t (from_right l p w ∷ up) = plug (node l p w t) up

-- `no_root` is the pair of nil and 0 on the empty tree; `out_of_bound` ends the program.
pub data Found (V : Type 0) : Type 0 where
  found : V → ℤ → Found V
  no_root : Found V
  out_of_bound : Found V

module _ {V : Type 0} ⦃m : Measured V⦄ where
  -- A node whose weight `UpdateSubtree` has just set.
  abbrev pub updated : Tree V → V → Tree V → Focus V
  updated l v r = record { left = l; value = v; stored = m.len v + weight l + weight r; right = r }

  abbrev pub new_node : V → Focus V
  new_node v = record { left = leaf; value = v; stored = m.len v; right = leaf }

  -- The pivot rises above its parent, which has this value and this other subtree.
  rotate_left : Tree V → V → Focus V → Focus V
  rotate_left l p pivot = updated (to_tree (updated l p pivot.left)) pivot.value pivot.right

  rotate_right : V → Tree V → Focus V → Focus V
  rotate_right p r pivot = updated pivot.left pivot.value (to_tree (updated pivot.right p r))

  -- The loop of `Splay`; the node ends as the root. In the zig-zig cases the parent rises first.
  splay_up : Focus V → List (Turn V) → Focus V
  unfolding rotate_left rotate_right
  splay_up f [] = f
  splay_up f (from_left p w r ∷ []) = rotate_right p r f
  splay_up f (from_right l p w ∷ []) = rotate_left l p f
  splay_up f (from_right l p w ∷ from_left g x gr ∷ up) =
      splay_up (rotate_right g gr (rotate_left l p f)) up
  splay_up f (from_left p w r ∷ from_right gl g x ∷ up) =
      splay_up (rotate_left gl g (rotate_right p r f)) up
  splay_up f (from_left p w r ∷ from_left g x gr ∷ up) =
      splay_up (rotate_right p (to_tree (updated r g gr)) f) up
  splay_up f (from_right l p w ∷ from_right gl g x ∷ up) =
      splay_up (rotate_left (to_tree (updated gl g l)) p f) up

  pub splay : Place V → Focus V
  unfolding splay_up
  splay at = splay_up at.focus at.up

  -- The new node becomes the root; what was behind `prev` goes to its right.
  pub insert_after : Place V → V → Tree V
  unfolding splay
  insert_after prev v =
      let p = splay prev in to_tree (updated (to_tree (updated p.left p.value leaf)) v p.right)

  -- `Insert`, on a tree that is not empty: after the root.
  pub insert : Tree V → V → Tree V
  unfolding insert_after
  insert leaf v = to_tree (new_node v)
  insert (node l x w r) v =
      insert_after
        (record { focus = record { left = l; value = x; stored = w; right = r }; up = [] }) v

  -- `maximum`: down to the right, with the way back up.
  maximum : Tree V → V → ℕ → Tree V → List (Turn V) → Place V
  maximum l v w leaf up = record {
    focus = record { left = l; value = v; stored = w; right = leaf };
    up = up;
  }
  maximum l v w (node rl x y rr) up = maximum rl x y rr (from_right l v w ∷ up)

  join : Tree V → Tree V → Tree V
  unfolding maximum splay
  join leaf leaf = leaf
  join leaf (node l v w r) = to_tree (updated l v r)
  join (node l v w r) right =
      let root = splay (maximum l v w r []) in to_tree (updated root.left root.value right)

  pub delete : Place V → Tree V
  unfolding join
  delete at = let f = splay at in join f.left f.right

  index_up : ℕ → List (Turn V) → ℕ
  index_up index [] = index
  index_up index (from_left p w r ∷ up) = index_up index up
  index_up index (from_right l p w ∷ up) = index_up (index + (m.len p + weight l)) up

  -- `none` is the -1 of a node without links.
  pub index_of : Place V → Option ℕ
  unfolding index_up
  index_of at =
      if has_links at
      then some
          (index_up (m.len at.focus.value + weight at.focus.left) at.up - m.len at.focus.value)
      else none

  -- The loop of `Find`: the node, and the offset in it.
  descend : Tree V → ℤ → Option (V × ℤ)
  descend leaf offset = none
  descend (node l v w r) offset =
      let on_left = descend l offset in
      let on_right = descend r (minus offset (weight l + m.len v)) in
      if not (is_nil l) && at_most offset (weight l)
      then on_left
      else if not (is_nil r) && exceeds offset (weight l + m.len v)
      then on_right
      else some (v, minus offset (weight l))

  pub find : Tree V → ℤ → Found V
  unfolding descend
  find t index = elim (descend t index) [
    | none ↦ no_root
    | some (v, offset) ↦ if exceeds offset (m.len v) then out_of_bound else found v offset
  ]
