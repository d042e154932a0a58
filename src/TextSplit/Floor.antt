-- ===== src/TextSplit/Floor.antt =====
-- The node that `findFloorNode` of rga_tree_split.go finds.
use rotty.Prelude.{
  Bool, ◌≡◌, true, false, some, Ord, List, [], ◌∷◌, ◌⊎◌, arith, All, Option-cases, inl, inr,
}
use rotty.Element.{after}
use rotty.TextSplit.{SplitValue, NodeId, Node, id_ord, find_node, floor}
use rotty.TextSplit.Nodes.{IsUnique, is_id_iff}

module _ {T : Type 0} ⦃o : Ord T⦄ where
  abbrev pub above : NodeId T → NodeId T → Bool
  above a b = after ⦃o = id_ord⦄ a b

  pub above_other : (a b : NodeId T) → above a b ≡ false → (a ≡ b) ⊎ (above b a ≡ true)
  above_other a b h =
      ground (arith, o.cmp_flip a.created_at b.created_at, o.cmp_eq a.created_at b.created_at)

module _ {T C : Type 0} ⦃o : Ord T⦄ ⦃m : SplitValue C⦄ where
  floor-All :
      (P : Node T C → Type 0) (id : NodeId T) (xs : List (Node T C)) (z : Node T C)
      → All P xs
      → floor id xs ≡ some z
      → (above z.id id ≡ false) × P z
  unfolding floor
  floor-All P id [] z a h = absurd (ground arith)
  floor-All P id (x ∷ xs) z a h = ground (arith, floor-All P id xs z a.1)

  pub found-All :
      (P : Node T C → Type 0) (xs : List (Node T C))
      → IsUnique xs
      → ((w : Node T C) → find_node w.id xs ≡ some w → P w)
      → All P xs
  unfolding find_node
  found-All P [] u f = tt
  found-All P (x ∷ xs) u f = (
    f x (ground (arith, is_id_iff x.id x)),
    found-All P xs u.1 (λ w h. f w (ground (arith, is_id_iff w.id x))),
  )

  -- What keeps a node from being the floor of an ID before the node of another ID.
  abbrev pub IsPassed : NodeId T → NodeId T → Node T C → Type 0
  IsPassed id best w = (above w.id id ≡ true) ⊎ (above w.id best ≡ false)

  pub floor-best :
      (id : NodeId T) (x : Node T C) (xs : List (Node T C))
      → find_node x.id xs ≡ some x
      → above x.id id ≡ false
      → All (IsPassed id x.id) xs
      → floor id xs ≡ some x
  unfolding floor find_node
  floor-best id x [] f b a = absurd (ground arith)
  floor-best id x (y ∷ ys) f b a = elim (Option-cases (floor id ys)) [
    | inl e ↦ ground (arith, floor-best id x ys, is_id_iff x.id y)
    | inr (z, e) ↦ ground (
      arith,
      floor-best id x ys,
      floor-All (IsPassed id x.id) id ys z a.1 e,
      is_id_iff x.id y,
      above_other y.id x.id,
    )
  ]
