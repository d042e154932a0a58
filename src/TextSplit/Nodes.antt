-- ===== src/TextSplit/Nodes.antt =====
-- The list of nodes of rga_tree_split.go seen as a map from IDs: what `replace` and `insert_behind`
-- do to the node that an ID leads to.
use rotty.Prelude.{◌≡◌, ◌↔◌, true, none, some, Ord, List, [], ◌∷◌, ◌++◌, arith, if◌then◌else◌}
use rotty.Prelude.Assoc.{cmp_is_eq_iff}
use rotty.TextSplit.{
  SplitValue, NodeId, Node, id_ord, is_id, find_node, replace, insert_behind, from_node,
}

module _ {T C : Type 0} ⦃o : Ord T⦄ ⦃m : SplitValue C⦄ where
  pub is_id_iff : (id : NodeId T) (n : Node T C) → (is_id id n ≡ true) ↔ (n.id ≡ id)
  unfolding is_id
  is_id_iff id n = cmp_is_eq_iff ⦃o = id_ord⦄ n.id id

  -- No two nodes have one ID.
  abbrev pub IsUnique : List (Node T C) → Type 0
  IsUnique [] = Unit
  IsUnique (x ∷ xs) = (find_node x.id xs ≡ none) × IsUnique xs

  pub find_node-id :
      (id : NodeId T) (xs : List (Node T C)) (x : Node T C) → find_node id xs ≡ some x → x.id ≡ id
  unfolding find_node
  find_node-id id [] x h = absurd (ground arith)
  find_node-id id (y ∷ ys) x h = ground (arith, find_node-id id ys x, is_id_iff id y)

  pub find_node-replace_one :
      (q : NodeId T) (new : Node T C) (xs : List (Node T C))
      → find_node q (replace new.id (new ∷ []) xs) ≡ (
          if is_id q new
          then (elim (find_node q xs) [ none ↦ none | some x ↦ some new ])
          else find_node q xs)
  unfolding replace find_node
  find_node-replace_one q new [] = ground arith
  find_node-replace_one q new (x ∷ xs) =
      ground
        (arith, find_node-replace_one q new xs, is_id_iff q new, is_id_iff new.id x, is_id_iff q x)

  pub find_node-replace_two :
      (q : NodeId T) (a b x : Node T C) (xs : List (Node T C))
      → find_node a.id xs ≡ some x
      → find_node b.id xs ≡ none
      → find_node q (replace a.id (a ∷ b ∷ []) xs)
        ≡ (if is_id q b then some b else if is_id q a then some a else find_node q xs)
  unfolding replace find_node
  find_node-replace_two q a b x [] h f = absurd (ground arith)
  find_node-replace_two q a b x (y ∷ ys) h f = ground (
    arith,
    find_node-replace_two q a b x ys,
    is_id_iff q b,
    is_id_iff q a,
    is_id_iff q y,
    is_id_iff a.id y,
    is_id_iff b.id y,
  )

  pub find_node-insert_behind :
      (q prev : NodeId T) (n x : Node T C) (xs : List (Node T C))
      → find_node prev xs ≡ some x
      → find_node n.id xs ≡ none
      → find_node q (insert_behind prev n xs) ≡ (if is_id q n then some n else find_node q xs)
  unfolding insert_behind find_node
  find_node-insert_behind q prev n x [] h f = absurd (ground arith)
  find_node-insert_behind q prev n x (y ∷ ys) h f = ground (
    arith,
    find_node-insert_behind q prev n x ys,
    is_id_iff q n,
    is_id_iff q y,
    is_id_iff prev y,
    is_id_iff n.id y,
  )

  pub replace_one-IsUnique :
      (new : Node T C) (xs : List (Node T C))
      → IsUnique xs
      → IsUnique (replace new.id (new ∷ []) xs)
  unfolding replace find_node
  replace_one-IsUnique new [] u = u
  replace_one-IsUnique new (x ∷ xs) u = ground (
    arith,
    replace_one-IsUnique new xs u.1,
    find_node-replace_one x.id new xs,
    is_id_iff new.id x,
    is_id_iff x.id new,
  )

  pub replace_two-IsUnique :
      (a b x : Node T C) (xs : List (Node T C))
      → find_node a.id xs ≡ some x
      → find_node b.id xs ≡ none
      → IsUnique xs
      → IsUnique (replace a.id (a ∷ b ∷ []) xs)
  unfolding replace find_node
  replace_two-IsUnique a b x [] h f u = u
  replace_two-IsUnique a b x (y ∷ ys) h f u = ground (
    arith,
    replace_two-IsUnique a b x ys,
    find_node-replace_two y.id a b x ys,
    is_id_iff a.id y,
    is_id_iff y.id a,
    is_id_iff y.id b,
    is_id_iff a.id b,
    is_id_iff b.id y,
  )

  pub insert_behind-IsUnique :
      (prev : NodeId T) (n x : Node T C) (xs : List (Node T C))
      → find_node prev xs ≡ some x
      → find_node n.id xs ≡ none
      → IsUnique xs
      → IsUnique (insert_behind prev n xs)
  unfolding insert_behind find_node
  insert_behind-IsUnique prev n x [] h f u = u
  insert_behind-IsUnique prev n x (y ∷ ys) h f u = ground (
    arith,
    insert_behind-IsUnique prev n x ys,
    find_node-insert_behind y.id prev n x ys,
    is_id_iff prev y,
    is_id_iff y.id n,
    is_id_iff n.id y,
  )

  -- Around a node of a list without repetitions.
  pub find_node-middle :
      (l : List (Node T C)) (x : Node T C) (r : List (Node T C))
      → IsUnique (l ++ x ∷ r)
      → find_node x.id (l ++ x ∷ r) ≡ some x
  unfolding find_node
  find_node-middle [] x r u = ground (arith, is_id_iff x.id x)
  find_node-middle (y ∷ l) x r u = ground (arith, find_node-middle l x r u.1, is_id_iff x.id y)

  pub replace-middle :
      (l : List (Node T C)) (x : Node T C) (r new : List (Node T C))
      → IsUnique (l ++ x ∷ r)
      → replace x.id new (l ++ x ∷ r) ≡ l ++ (new ++ r)
  unfolding replace find_node
  replace-middle [] x r new u = ground (arith, is_id_iff x.id x)
  replace-middle (y ∷ l) x r new u =
      ground (arith, replace-middle l x r new u.1, find_node-middle l x r u.1, is_id_iff x.id y)

  pub from_node-middle :
      (l : List (Node T C)) (x : Node T C) (r : List (Node T C))
      → IsUnique (l ++ x ∷ r)
      → from_node x.id (l ++ x ∷ r) ≡ x ∷ r
  unfolding from_node find_node
  from_node-middle [] x r u = ground (arith, is_id_iff x.id x)
  from_node-middle (y ∷ l) x r u =
      ground (arith, from_node-middle l x r u.1, find_node-middle l x r u.1, is_id_iff x.id y)

  pub insert_behind-middle :
      (l : List (Node T C)) (x n : Node T C) (r : List (Node T C))
      → IsUnique (l ++ x ∷ r)
      → insert_behind x.id n (l ++ x ∷ r) ≡ l ++ x ∷ n ∷ r
  unfolding insert_behind find_node
  insert_behind-middle [] x n r u = ground (arith, is_id_iff x.id x)
  insert_behind-middle (y ∷ l) x n r u =
      ground (arith, insert_behind-middle l x n r u.1, find_node-middle l x r u.1, is_id_iff x.id y)
