-- ===== src/Splay/Order.antt =====
-- The operations of splay.go on the sequence of values that the tree lists.
use mathlib.Core.List.{append_assoc, append-nil}
use rotty.Prelude.{ℕ, ◌≡◌, refl, ap, ap₂, sym, ◌∙◌, List, [], ◌∷◌, ◌++◌}
use rotty.Splay.{
  Measured, Tree, leaf, node, Turn, from_left, from_right, Focus, Place, to_list, to_tree, plug,
  updated, rotate_left, rotate_right, splay_up, splay, insert_after, insert, maximum, join, delete,
}

module _ {V : Type 0} where
  -- What the tree lists before and behind the subtree at the end of these turns.
  abbrev pub before : List (Turn V) → List V
  before [] = []
  before (from_left p w r ∷ up) = before up
  before (from_right l p w ∷ up) = before up ++ (to_list l ++ p ∷ [])

  abbrev pub behind : List (Turn V) → List V
  behind [] = []
  behind (from_left p w r ∷ up) = p ∷ (to_list r ++ behind up)
  behind (from_right l p w ∷ up) = behind up

  -- What the tree lists before and behind a node.
  abbrev pub prefix : Place V → List V
  prefix at = before at.up ++ to_list at.focus.left

  abbrev pub suffix : Place V → List V
  suffix at = to_list at.focus.right ++ behind at.up

  -- A place is a cut of the listing at its node.
  pub to_list-plug :
      (t : Tree V) (up : List (Turn V))
      → to_list (plug t up) ≡ before up ++ (to_list t ++ behind up)
  to_list-plug t [] = simp append-nil
  to_list-plug t (from_left p w r ∷ up) = to_list-plug (node t p w r) up ∙ simp append_assoc
  to_list-plug t (from_right l p w ∷ up) = to_list-plug (node l p w t) up ∙ simp append_assoc

module _ {V : Type 0} ⦃m : Measured V⦄ where
  splay_up-value : (f : Focus V) (up : List (Turn V)) → (splay_up f up).value ≡ f.value
  unfolding splay_up
  splay_up-value f [] = refl
  splay_up-value f (from_left p w r ∷ []) = refl
  splay_up-value f (from_right l p w ∷ []) = refl
  splay_up-value f (from_right l p w ∷ from_left g x gr ∷ up) =
      splay_up-value (rotate_right g gr (rotate_left l p f)) up
  splay_up-value f (from_left p w r ∷ from_right gl g x ∷ up) =
      splay_up-value (rotate_left gl g (rotate_right p r f)) up
  splay_up-value f (from_left p w r ∷ from_left g x gr ∷ up) =
      splay_up-value (rotate_right p (to_tree (updated r g gr)) f) up
  splay_up-value f (from_right l p w ∷ from_right gl g x ∷ up) =
      splay_up-value (rotate_left (to_tree (updated gl g l)) p f) up

  splay_up-left :
      (f : Focus V) (up : List (Turn V))
      → to_list (splay_up f up).left ≡ before up ++ to_list f.left
  unfolding splay_up
  splay_up-left f [] = refl
  splay_up-left f (from_left p w r ∷ []) = refl
  splay_up-left f (from_right l p w ∷ []) = simp append_assoc
  splay_up-left f (from_right l p w ∷ from_left g x gr ∷ up) =
      splay_up-left (rotate_right g gr (rotate_left l p f)) up ∙ simp append_assoc
  splay_up-left f (from_left p w r ∷ from_right gl g x ∷ up) =
      splay_up-left (rotate_left gl g (rotate_right p r f)) up ∙ simp append_assoc
  splay_up-left f (from_left p w r ∷ from_left g x gr ∷ up) =
      splay_up-left (rotate_right p (to_tree (updated r g gr)) f) up
  splay_up-left f (from_right l p w ∷ from_right gl g x ∷ up) =
      splay_up-left (rotate_left (to_tree (updated gl g l)) p f) up ∙ simp append_assoc

  splay_up-right :
      (f : Focus V) (up : List (Turn V))
      → to_list (splay_up f up).right ≡ to_list f.right ++ behind up
  unfolding splay_up
  splay_up-right f [] = simp append-nil
  splay_up-right f (from_left p w r ∷ []) = simp append-nil
  splay_up-right f (from_right l p w ∷ []) = simp append-nil
  splay_up-right f (from_right l p w ∷ from_left g x gr ∷ up) =
      splay_up-right (rotate_right g gr (rotate_left l p f)) up ∙ simp append_assoc
  splay_up-right f (from_left p w r ∷ from_right gl g x ∷ up) =
      splay_up-right (rotate_left gl g (rotate_right p r f)) up ∙ simp append_assoc
  splay_up-right f (from_left p w r ∷ from_left g x gr ∷ up) =
      splay_up-right (rotate_right p (to_tree (updated r g gr)) f) up ∙ simp append_assoc
  splay_up-right f (from_right l p w ∷ from_right gl g x ∷ up) =
      splay_up-right (rotate_left (to_tree (updated gl g l)) p f) up

  -- `Splay` brings the node to the root and lists the same values in the same order.
  pub to_list-splay :
      (at : Place V)
      → ((splay at).value ≡ at.focus.value)
        × (to_list (to_tree (splay at)) ≡ to_list (plug (to_tree at.focus) at.up))
  unfolding splay
  to_list-splay at =
      let f = at.focus in
      (
        splay_up-value f at.up,
        rw (splay_up-value f at.up, splay_up-left f at.up, splay_up-right f at.up)
            (sym (to_list-plug (to_tree f) at.up ∙ simp append_assoc)),
      )

  -- `InsertAfter` puts the value behind the node and leaves the rest in order.
  pub to_list-insert_after :
      (at : Place V) (v : V)
      → to_list (insert_after at v) ≡ prefix at ++ at.focus.value ∷ v ∷ suffix at
  unfolding insert_after
  to_list-insert_after at v =
      rw
        (splay_up-left at.focus at.up, splay_up-right at.focus at.up, splay_up-value at.focus at.up)
        (simp append_assoc)

  maximum-plug :
      (l : Tree V) (v : V) (w : ℕ) (r : Tree V) (up : List (Turn V))
      → let top = maximum l v w r up in
        (top.focus.right ≡ leaf) × (plug (to_tree top.focus) top.up ≡ plug (node l v w r) up)
  unfolding maximum
  maximum-plug l v w leaf up = (refl, refl)
  maximum-plug l v w (node rl x y rr) up = maximum-plug rl x y rr (from_right l v w ∷ up)

  maximum-behind :
      (l : Tree V) (v : V) (w : ℕ) (r : Tree V) (up : List (Turn V))
      → behind (maximum l v w r up).up ≡ behind up
  unfolding maximum
  maximum-behind l v w leaf up = refl
  maximum-behind l v w (node rl x y rr) up = maximum-behind rl x y rr (from_right l v w ∷ up)

  to_list-join : (l r : Tree V) → to_list (join l r) ≡ to_list l ++ to_list r
  unfolding join
  to_list-join leaf leaf = refl
  to_list-join leaf (node l v w r) = refl
  to_list-join (node l v w r) t =
      let top = maximum l v w r [] in
      let (end, whole) = maximum-plug l v w r [] in
      let listed = sym (to_list-plug (to_tree top.focus) top.up) ∙ ap to_list whole in
      rw
        (
          splay_up-left top.focus top.up,
          splay_up-value top.focus top.up,
          ← listed,
          end,
          maximum-behind l v w r [],
        )
        (simp (append_assoc, append-nil))

  -- `Delete` takes the node out and leaves the rest in order.
  pub to_list-delete : (at : Place V) → to_list (delete at) ≡ prefix at ++ suffix at
  unfolding delete
  to_list-delete at =
      to_list-join (splay at).left (splay at).right
      ∙ ap₂ (λ xs ys. xs ++ ys) (splay_up-left at.focus at.up) (splay_up-right at.focus at.up)

  -- `Insert` on a tree that is not empty puts the value right behind the root's, and not at the
  -- end.
  pub to_list-insert :
      (l r : Tree V) (x : V) (w : ℕ) (v : V)
      → to_list (insert (node l x w r) v) ≡ to_list l ++ x ∷ v ∷ to_list r
  unfolding insert insert_after
  to_list-insert l r x w v = simp append_assoc
