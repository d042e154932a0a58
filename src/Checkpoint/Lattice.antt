-- ===== src/Checkpoint/Lattice.antt =====
-- `Forward` joins checkpoints: what a replica has acknowledged does not depend on the order in
-- which the acknowledgements arrive, and is never lost.
use mathlib.Core.List.{Perm}
use rotty.Prelude.{
  List, fold_left, fold_left-perm, ℕ, ◌+◌, ◌^◌, ◌≤◌, ◌<◌, ◌≡◌, List, true, ◌↔◌, arith,
}
use rotty.Checkpoint.{Checkpoint, increase_client_seq, equals, forward, ◌⊑◌}

-- `Equals` decides equality.
pub equals_iff : (a b : Checkpoint) → (equals a b ≡ true) ↔ (a ≡ b)
unfolding equals
equals_iff a b = (λ h. ground arith, λ h. ground arith)

-- `Forward` is the least upper bound: it is above both checkpoints, and below all that are.
pub forward_lub :
    (a b : Checkpoint)
    → a ⊑ forward a b × b ⊑ forward a b × ((c : Checkpoint) → a ⊑ c → b ⊑ c → forward a b ⊑ c)
unfolding forward
forward_lub a b = (ground arith, ground arith, λ c h k. ground arith)

forward_swap : (a b c : Checkpoint) → forward (forward a b) c ≡ forward (forward a c) b
unfolding forward
forward_swap a b c = ground arith

Checkpoint-set : IsSet Checkpoint
Checkpoint-set = hlevel

-- A replica that takes in the same checkpoints in another order ends at the same checkpoint.
pub fold_left-forward_perm :
    (cp : Checkpoint) {xs ys : List Checkpoint}
    → Perm xs ys
    → fold_left forward cp xs ≡ fold_left forward cp ys
fold_left-forward_perm cp p = fold_left-perm forward forward_swap Checkpoint-set p cp

-- `IncreaseClientSeq` of a uint32 by a uint32 adds exactly when the sum is a uint32, falls back
-- below the old number otherwise, and leaves the server's number.
pub increase_client_seq_bounds :
    (cp : Checkpoint) (inc : ℕ)
    → cp.client_seq < 2 ^ 32
    → inc < 2 ^ 32
    → (cp.client_seq + inc < 2 ^ 32 → (increase_client_seq cp inc).client_seq ≡ cp.client_seq + inc)
      × (2 ^ 32 ≤ cp.client_seq + inc → (increase_client_seq cp inc).client_seq < cp.client_seq)
      × ((increase_client_seq cp inc).server_seq ≡ cp.server_seq)
unfolding increase_client_seq
increase_client_seq_bounds cp inc h k = (λ p. ground arith, λ p. ground arith, ground arith)
