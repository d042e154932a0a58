-- ===== src/Llrb.antt =====
-- pkg/llrb/llrb.go: the left-leaning red-black tree. A subtree is owned by its parent, so a pointer
-- to a node is a tree and nil is `leaf`; a method that changes a node returns the new tree, and
-- `none` is the panic on a nil dereference. The `parent` fields, which only `Floor` writes and
-- reads, are the list of turns of its descent.
pub mod Put
pub mod Shape
pub mod Floor
pub mod Tests
use rotty.Prelude.{
  ℕ, suc, ◌+◌, Bool, true, false, not, ◌&&◌, Option, none, some, ◌>>=◌, lt, eq, gt, Ord, List, [],
  ◌∷◌, ◌++◌, if◌then◌else◌,
}

-- The colour comes first: `true` is red.
pub data Tree {ℓ κ} (K : Type ℓ) (V : Type κ) : Type (ℓ ⊔ κ) where
  node : (is_red : Bool) (left : Tree K V) (key : K) (value : V) (right : Tree K V) → Tree K V
  leaf : Tree K V

module _ {ℓ κ} {K : Type ℓ} {V : Type κ} where
  abbrev pub is_red : Tree K V → Bool
  is_red leaf = false
  is_red (node red l k v r) = red

  -- `node.left` and `node.right`, behind tests that the node is red, hence not nil.
  abbrev pub left : Tree K V → Tree K V
  left leaf = leaf
  left (node red l k v r) = l

  abbrev pub right : Tree K V → Tree K V
  right leaf = leaf
  right (node red l k v r) = r

  -- `traverseInOrder`
  abbrev pub to_list : Tree K V → List (K × V)
  to_list leaf = []
  to_list (node red l k v r) = to_list l ++ (k, v) ∷ to_list r

  unfoldable pub rotate_left : Tree K V → Option (Tree K V)
  rotate_left (node red l k v (node red' rl rk rv rr)) =
      some (node red (node true l k v rl) rk rv rr)
  rotate_left _ = none

  unfoldable pub rotate_right : Tree K V → Option (Tree K V)
  rotate_right (node red (node red' ll lk lv lr) k v r) =
      some (node red ll lk lv (node true lr k v r))
  rotate_right _ = none

  unfoldable pub flip_colors : Tree K V → Option (Tree K V)
  flip_colors (node red (node red' ll lk lv lr) k v (node red'' rl rk rv rr)) =
      some (node (not red) (node (not red') ll lk lv lr) k v (node (not red'') rl rk rv rr))
  flip_colors _ = none

  -- The three tests at the end of `put`.
  lean_left : Tree K V → Option (Tree K V)
  unfolding rotate_left
  lean_left t = if is_red (right t) && not (is_red (left t)) then rotate_left t else some t

  break_left_pair : Tree K V → Option (Tree K V)
  unfolding rotate_right
  break_left_pair t = if is_red (left t) && is_red (left (left t)) then rotate_right t else some t

  split_four : Tree K V → Option (Tree K V)
  unfolding flip_colors
  split_four t = if is_red (left t) && is_red (right t) then flip_colors t else some t

  repair : Tree K V → Option (Tree K V)
  unfolding lean_left break_left_pair split_four
  repair t = do t₁ ← lean_left t; t₂ ← break_left_pair t₁; split_four t₂

  blacken : Tree K V → Option (Tree K V)
  blacken leaf = none
  blacken (node red l k v r) = some (node false l k v r)

module _ {ℓ κ} {K : Type ℓ} {V : Type κ} ⦃o : Ord K⦄ where
  -- The method `put`; the Boolean says whether `size` was counted up.
  insert : Tree K V → K → V → Option (Tree K V × Bool)
  insert leaf key value = some (node true leaf key value leaf, true)
  insert (node red l k v r) key value = elim (o.cmp key k) [
    | lt ↦ do (l', grown) ← insert l key value; t ← repair (node red l' k v r); some (t, grown)
    | gt ↦ do (r', grown) ← insert r key value; t ← repair (node red l k v r'); some (t, grown)
    | eq ↦ do t ← repair (node red l k value r); some (t, false)
  ]

pub record Llrb {ℓ κ} (K : Type ℓ) (V : Type κ) : Type (ℓ ⊔ κ) where
  pub root : Tree K V
  pub size : ℕ

module _ {ℓ κ} {K : Type ℓ} {V : Type κ} where
  abbrev pub new_tree : Llrb K V
  new_tree = record { root = leaf; size = 0 }

-- Where `Floor` turned on its way down: to the left, or to the right of an entry.
data Turn {ℓ κ} (K : Type ℓ) (V : Type κ) : Type (ℓ ⊔ κ) where
  went_left : Turn K V
  went_right : K → V → Turn K V

-- `missing` is the pair of nils. `above_root` is the climb that passes the root: the code then reads
-- the `parent` field of the root, which is nil or left over from an earlier descent.
pub data FloorResult {ℓ κ} (K : Type ℓ) (V : Type κ) : Type (ℓ ⊔ κ) where
  found : K → V → FloorResult K V
  missing : FloorResult K V
  above_root : FloorResult K V

module _ {ℓ κ} {K : Type ℓ} {V : Type κ} where
  abbrev is_leaf : Tree K V → Bool
  is_leaf leaf = true
  is_leaf (node red l k v r) = false

  -- The loop over `child` and `parent`.
  climb : List (Turn K V) → FloorResult K V
  climb [] = above_root
  climb (went_left ∷ turns) = climb turns
  climb (went_right k v ∷ turns) = found k v

module _ {ℓ κ} {K : Type ℓ} {V : Type κ} ⦃o : Ord K⦄ where
  pub put : Llrb K V → K → V → Option (Llrb K V)
  unfolding insert blacken
  put t key value = do
    (r, grown) ← insert t.root key value
    root ← blacken r
    some (record { root = root; size = if grown then t.size + 1 else t.size })

  descend : Tree K V → K → List (Turn K V) → FloorResult K V
  unfolding climb
  descend leaf key turns = missing
  descend (node red l k v r) key turns = elim (o.cmp key k) [
    | gt ↦
        (let below = descend r key (went_right k v ∷ turns) in
          if is_leaf r then found k v else below)
    | lt ↦
        (let below = descend l key (went_left ∷ turns) in if is_leaf l then climb turns else below)
    | eq ↦ found k v
  ]

  pub floor : Llrb K V → K → FloorResult K V
  unfolding descend
  floor t key = descend t.root key []
