-- ===== src/Checkpoint/Tests.antt =====
-- Runs of pkg/document/checkpoint, and instances of the theorems on it.
use mathlib.Core.List.Perm.{swap}
use rotty.Prelude.{fold_left, ◌+◌, ◌^◌, ◌≤◌, ◌<◌, ◌≡◌, refl, [], ◌∷◌, arith}
use rotty.Checkpoint.{Checkpoint, new, increase_client_seq, forward, ◌⊑◌}
use rotty.Checkpoint.Lattice.{fold_left-forward_perm, increase_client_seq_bounds, forward_lub}

abbrev pushed : Checkpoint
pushed = new 2 9

abbrev pulled : Checkpoint
pulled = new 7 3

forward_crossed : forward pushed pulled ≡ new 7 9
unfolding forward
forward_crossed = refl

forward_of_two :
    (pushed ⊑ forward pushed pulled)
    × (pulled ⊑ forward pushed pulled)
    × ((c : Checkpoint) → pushed ⊑ c → pulled ⊑ c → forward pushed pulled ⊑ c)
forward_of_two = forward_lub pushed pulled

forwards_in_two_orders :
    fold_left forward (new 0 0) (pushed ∷ pulled ∷ [])
    ≡ fold_left forward (new 0 0) (pulled ∷ pushed ∷ [])
forwards_in_two_orders = fold_left-forward_perm (new 0 0) (swap pulled pushed [])

increase_client_seq_bounds_example :
    (9 + 5 < 2 ^ 32 → (increase_client_seq pushed 5).client_seq ≡ 9 + 5)
    × (2 ^ 32 ≤ 9 + 5 → (increase_client_seq pushed 5).client_seq < 9)
    × ((increase_client_seq pushed 5).server_seq ≡ 2)
increase_client_seq_bounds_example = increase_client_seq_bounds pushed 5 (omega arith) (omega arith)
