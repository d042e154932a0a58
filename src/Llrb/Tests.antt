-- ===== src/Llrb/Tests.antt =====
-- A tree over numbers, its runs, and instances of the theorems on llrb.go.
use rotty.Prelude.{ℕ, ◌≡◌, refl, true, false, some, ◌>>=◌, arith, insert_sorted, nat_ord}
use rotty.Llrb.{leaf, node, to_list, Llrb, new_tree, put, floor, repair, found, above_root}
use rotty.Llrb.Put.{IsSized, put-insert_sorted}
use rotty.Llrb.Shape.{IsLeftLeaning, put-IsLeftLeaning}
use rotty.Llrb.Floor.{IsFloor, floor-IsFloor}

-- The numbers 10, 20 and 30: a black root with a red left child.
abbrev two : Llrb ℕ ℕ
two = record { root = node false (node true leaf 10 1 leaf) 20 2 leaf; size = 2 }

two-IsSized : IsSized two
two-IsSized = record { counts = refl; sorted = ((refl, tt), (tt, tt)) }

two-IsLeftLeaning : IsLeftLeaning two
two-IsLeftLeaning = record { black_root = refl; lean = ground arith; balanced = ground arith }

-- Three puts in ascending order split a four-node.
put_three :
    (do t ← put (new_tree {K = ℕ} {V = ℕ}) 10 1; u ← put t 20 2; put u 30 3)
    ≡ some (record {
      root = node false (node false leaf 10 1 leaf) 20 2 (node false leaf 30 3 leaf);
      size = 3;
    })
unfolding put repair
put_three = refl

floor_between : floor two 15 ≡ found 10 1
unfolding floor
floor_between = refl

floor_below_all : floor two 5 ≡ above_root
unfolding floor
floor_below_all = refl

put-insert_sorted_example :
    (t' : Llrb ℕ ℕ) × (put two 30 3 ≡ some t')
    × (to_list t'.root ≡ insert_sorted 30 3 (to_list two.root))
    × IsSized t'
put-insert_sorted_example = put-insert_sorted two 30 3 two-IsSized

put-IsLeftLeaning_example : (t' : Llrb ℕ ℕ) × (put two 30 3 ≡ some t') × IsLeftLeaning t'
put-IsLeftLeaning_example = put-IsLeftLeaning two 30 3 two-IsLeftLeaning

floor-IsFloor_example : IsFloor two 15 (floor two 15)
floor-IsFloor_example = floor-IsFloor two 15 ((refl, tt), (tt, tt))
