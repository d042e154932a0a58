-- ===== src/Rht/Tests.antt =====
-- Runs of rht.go, and instances of the theorems on it. The times are numbers.
use Prim.Native.String.{String}
use mathlib.Core.List.Perm.{swap}
use rotty.Prelude.{
  ◌↔◌, ℕ, ◌≡◌, refl, arith, sym, ◌∙◌, true, none, some, ◌==◌, if◌then◌else◌, [], ◌∷◌, nat_ord,
  fold_left,
}
use rotty.Prelude.Assoc.{lookup, insert}
use rotty.Rht.{
  after, Node, Rht, new_rht, new_node, find, get, has, set_value, remove, remove_by_created_at,
  put_node,
}
use rotty.Rht.Lookup.{set_value-IsStored, IsStored-new}
use rotty.Rht.Convergence.{set_op, get-perm}
use rotty.Rht.Removal.{remove_panics-has, remove_by_created_at-set_value}

abbrev written : String → ℕ → String
written k t = if t == 1 then "old" else "new"

abbrev bold : Rht ℕ
bold = set_value new_rht "bold" "true" 1

bold-find : find bold "bold" ≡ some (new_node "bold" "true" 1)
unfolding find set_value put_node lookup insert
bold-find = refl

bold_wins : (n : Node ℕ) → some (new_node "bold" "true" 1) ≡ some n → after 5 n.updated_at ≡ true
bold_wins n e = ground arith

get-perm_example :
    let a = fold_left (set_op written) new_rht (("k", 1) ∷ ("k", 2) ∷ []) in
    let b = fold_left (set_op written) new_rht (("k", 2) ∷ ("k", 1) ∷ []) in
    (get a "k" ≡ get b "k") × (has a "k" ≡ has b "k")
get-perm_example = get-perm written (swap ("k", 2) ("k", 1) []) "k"

remove_panics-has_example : (remove bold "bold" 2 ≡ none) ↔ (has bold "bold" ≡ true)
remove_panics-has_example =
    remove_panics-has bold "bold" 2 (set_value-IsStored new_rht "bold" "true" 1 IsStored-new)

removed_after_set :
    let r = set_value bold "bold" "false" 5 in
    (get r "bold" ≡ "false")
    × ((remove_by_created_at r 5 6).1 ≡ "false")
    × (get (remove_by_created_at r 5 6).0 "bold" ≡ "")
removed_after_set =
    remove_by_created_at-set_value bold "bold" "false" 5 6 λ n e. bold_wins n (sym bold-find ∙ e)
