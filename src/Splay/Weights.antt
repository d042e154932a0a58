-- ===== src/Splay/Weights.antt =====
-- The stored weights of splay.go: every operation leaves the weight of each subtree equal to the
-- lengths that it lists, whatever was stored on the way from the node to the root.
use rotty.Prelude.{if◌then◌else◌, ℕ, ◌+◌, ◌≡◌, refl, List, [], ◌∷◌, ◌++◌, none, some, arith}
use rotty.Splay.{
  Measured, Tree, leaf, node, Turn, from_left, from_right, Focus, Place, to_list, to_tree, weight,
  updated, has_links, rotate_left, rotate_right, splay_up, splay, insert_after, maximum, join,
  delete, index_up, index_of,
}
use rotty.Splay.Order.{prefix, before}

module _ {V : Type 0} ⦃m : Measured V⦄ where
  -- The sum of the lengths.
  abbrev pub total : List V → ℕ
  total [] = 0
  total (v ∷ vs) = m.len v + total vs

  pub total-append : (xs ys : List V) → total (xs ++ ys) ≡ total xs + total ys
  total-append [] ys = omega arith
  total-append (x ∷ xs) ys = omega (arith, total-append xs ys)

  abbrev pub IsWeighted : Tree V → Type 0
  IsWeighted leaf = Unit
  IsWeighted (node l v w r) = (w ≡ m.len v + weight l + weight r) × IsWeighted l × IsWeighted r

  pub weight-total : (t : Tree V) → IsWeighted t → weight t ≡ total (to_list t)
  weight-total leaf h = refl
  weight-total (node l v w r) h =
      omega (
        arith,
        h.0,
        weight-total l h.1,
        weight-total r h.2,
        total-append (to_list l) (v ∷ to_list r),
      )

  -- The subtrees beside the way up are weighted; nothing is asked of the nodes on it.
  abbrev pub IsClean : List (Turn V) → Type 0
  IsClean [] = Unit
  IsClean (from_left p w r ∷ up) = IsWeighted r × IsClean up
  IsClean (from_right l p w ∷ up) = IsWeighted l × IsClean up

  abbrev pub HasWeightedChildren : Focus V → Type 0
  HasWeightedChildren f = IsWeighted f.left × IsWeighted f.right

  splay_up-weighted :
      (f : Focus V) (up : List (Turn V))
      → HasWeightedChildren f
      → IsClean up
      → HasWeightedChildren (splay_up f up)
  unfolding splay_up
  splay_up-weighted f [] h c = h
  splay_up-weighted f (from_left p w r ∷ []) h c = (h.0, (refl, h.1, c.0))
  splay_up-weighted f (from_right l p w ∷ []) h c = ((refl, c.0, h.0), h.1)
  splay_up-weighted f (from_right l p w ∷ from_left g x gr ∷ up) h c =
      splay_up-weighted (rotate_right g gr (rotate_left l p f)) up
        ((refl, c.0, h.0), (refl, h.1, c.1.0)) c.1.1
  splay_up-weighted f (from_left p w r ∷ from_right gl g x ∷ up) h c =
      splay_up-weighted (rotate_left gl g (rotate_right p r f)) up
        ((refl, c.1.0, h.0), (refl, h.1, c.0)) c.1.1
  splay_up-weighted f (from_left p w r ∷ from_left g x gr ∷ up) h c =
      splay_up-weighted (rotate_right p (to_tree (updated r g gr)) f) up
        (h.0, (refl, h.1, (refl, c.0, c.1.0))) c.1.1
  splay_up-weighted f (from_right l p w ∷ from_right gl g x ∷ up) h c =
      splay_up-weighted (rotate_left (to_tree (updated gl g l)) p f) up
        ((refl, (refl, c.1.0, c.0), h.0), h.1) c.1.1

  -- `Splay` of a node whose subtrees, and those beside the way up from it, have right weights ends
  -- with right weights everywhere below the new root, whatever was stored in the node and above
  -- it: so a node whose length has changed is followed by one `Splay` of it.
  pub splay-weighted :
      (at : Place V) → HasWeightedChildren at.focus → IsClean at.up → HasWeightedChildren (splay at)
  unfolding splay
  splay-weighted at h c = splay_up-weighted at.focus at.up h c

  -- The same for `InsertAfter`.
  pub insert_after-IsWeighted :
      (at : Place V) (v : V)
      → HasWeightedChildren at.focus
      → IsClean at.up
      → IsWeighted (insert_after at v)
  unfolding insert_after
  insert_after-IsWeighted at v h c = let s = splay-weighted at h c in (refl, (refl, s.0, tt), s.1)

  maximum-weighted :
      (l : Tree V) (v : V) (w : ℕ) (r : Tree V) (up : List (Turn V))
      → IsWeighted l
      → IsWeighted r
      → IsClean up
      → let top = maximum l v w r up in HasWeightedChildren top.focus × IsClean top.up
  unfolding maximum
  maximum-weighted l v w leaf up hl hr c = ((hl, tt), c)
  maximum-weighted l v w (node rl x y rr) up hl hr c =
      maximum-weighted rl x y rr (from_right l v w ∷ up) hr.1 hr.2 (hl, c)

  join-IsWeighted : (l r : Tree V) → IsWeighted l → IsWeighted r → IsWeighted (join l r)
  unfolding join
  join-IsWeighted leaf leaf hl hr = tt
  join-IsWeighted leaf (node l v w r) hl hr = (refl, hr.1, hr.2)
  join-IsWeighted (node l v w r) t hl hr =
      let top = maximum l v w r [] in
      let (h, c) = maximum-weighted l v w r [] hl.1 hl.2 tt in
      (refl, (splay_up-weighted top.focus top.up h c).0, hr)

  -- `Delete` of a node whose subtrees, and those beside the way up from it, have right weights
  -- leaves a tree in which every weight is right, the root's included, whatever was stored in the
  -- node and above it.
  pub delete-IsWeighted :
      (at : Place V) → HasWeightedChildren at.focus → IsClean at.up → IsWeighted (delete at)
  unfolding delete
  delete-IsWeighted at h c =
      let s = splay-weighted at h c in join-IsWeighted (splay at).left (splay at).right s.0 s.1

  index_up-total :
      (index : ℕ) (up : List (Turn V)) → IsClean up → index_up index up ≡ index + total (before up)
  unfolding index_up
  index_up-total index [] c = omega arith
  index_up-total index (from_left p w r ∷ up) c = index_up-total index up c.1
  index_up-total index (from_right l p w ∷ up) c = omega (
    arith,
    index_up-total (index + (m.len p + weight l)) up c.1,
    weight-total l c.0,
    total-append (before up) (to_list l ++ p ∷ []),
    total-append (to_list l) (p ∷ []),
  )

  -- `IndexOf` a node, when the weights to its left and beside the way up are right, is the length
  -- of what stands before it; and -1 if the node has no links at all.
  pub index_of-total :
      (at : Place V)
      → IsWeighted at.focus.left
      → IsClean at.up
      → index_of at ≡ (if has_links at then some (total (prefix at)) else none)
  unfolding index_of
  index_of-total at h c = ground (
    arith,
    index_up-total (m.len at.focus.value + weight at.focus.left) at.up c,
    weight-total at.focus.left h,
    total-append (before at.up) (to_list at.focus.left),
  )
