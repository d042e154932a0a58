-- ===== src/Splay/Tests.antt =====
-- A tree of lengths, its runs, and instances of the theorems on splay.go.
use rotty.Prelude.{
  pos, negsuc, ℕ, ◌+◌, ◌≡◌, ◌⊎◌, ◌≤◌, ◌<◌, refl, List, [], ◌∷◌, ◌++◌, none, some, if◌then◌else◌,
}
use rotty.Splay.{
  Measured, Tree, leaf, node, from_left, from_right, Place, to_list, to_tree, plug, splay,
  insert_after, insert, delete, index_of, has_links, find, found, out_of_bound,
}
use rotty.Splay.Order.{prefix, to_list-splay, to_list-insert_after, to_list-delete, to_list-insert}
use rotty.Splay.Weights.{
  total, IsWeighted, HasWeightedChildren, splay-weighted, delete-IsWeighted, index_of-total,
}
use rotty.Splay.Find.{find_cut}

-- A value is its own length.
instance abbrev nat_measured : Measured ℕ
nat_measured = record { len = λ v. v }

-- The lengths 2, 0, 3 and 4, with 2 at the root.
abbrev chain : Tree ℕ
chain = node leaf 2 9 (node (node leaf 0 0 leaf) 3 7 (node leaf 4 4 leaf))

-- The node of length 0.
abbrev at_zero : Place ℕ
at_zero = record {
  focus = record { left = leaf; value = 0; stored = 0; right = leaf };
  up = from_left 3 7 (node leaf 4 4 leaf) ∷ from_right leaf 2 9 ∷ [];
}

at_zero-plug : plug (to_tree at_zero.focus) at_zero.up ≡ chain
at_zero-plug = refl

splay_zero :
    to_tree (splay at_zero) ≡ node (node leaf 2 2 leaf) 0 9 (node leaf 3 7 (node leaf 4 4 leaf))
unfolding splay
splay_zero = refl

find_third : find chain (pos 4) ≡ found 3 (pos 2)
unfolding find
find_third = refl

listing_of_splay : ((splay at_zero).value ≡ 0) × (to_list (to_tree (splay at_zero)) ≡ to_list chain)
listing_of_splay = to_list-splay at_zero

behind_the_focus : to_list (insert_after at_zero 8) ≡ 2 ∷ 0 ∷ 8 ∷ 3 ∷ 4 ∷ []
behind_the_focus = to_list-insert_after at_zero 8

to_list-delete_example : to_list (delete at_zero) ≡ 2 ∷ 3 ∷ 4 ∷ []
to_list-delete_example = to_list-delete at_zero

weighs_after_splay : HasWeightedChildren (splay at_zero)
weighs_after_splay = splay-weighted at_zero (tt, tt) ((refl, tt, tt), (tt, tt))

delete-IsWeighted_example : IsWeighted (delete at_zero)
delete-IsWeighted_example = delete-IsWeighted at_zero (tt, tt) ((refl, tt, tt), (tt, tt))

index_of-total_example :
    index_of at_zero ≡ (if has_links at_zero then some (total (prefix at_zero)) else none)
index_of-total_example = index_of-total at_zero tt ((refl, tt, tt), (tt, tt))

find_cut_example :
    (4 ≤ total (to_list chain)
      → (before : List ℕ) × (v : ℕ) × (after : List ℕ) × (offset : ℕ) × (find chain (pos 4)
          ≡ found v (pos offset))
        × (to_list chain ≡ before ++ v ∷ after)
        × (total before + offset ≡ 4)
        × (offset ≤ v)
        × ((before ≡ []) ⊎ (0 < offset)))
    × (total (to_list chain) < 4 → find chain (pos 4) ≡ out_of_bound)
    × ((v : ℕ) × (after : List ℕ) × (find chain (negsuc 4) ≡ found v (negsuc 4))
        × (to_list chain ≡ v ∷ after))
find_cut_example = find_cut chain 4 (λ e. cc) (tt, (refl, (refl, tt, tt), (refl, tt, tt)))

insert_keeps_order : to_list (insert chain 8) ≡ 2 ∷ 8 ∷ 0 ∷ 3 ∷ 4 ∷ []
insert_keeps_order = to_list-insert leaf (node (node leaf 0 0 leaf) 3 7 (node leaf 4 4 leaf)) 2 9 8
