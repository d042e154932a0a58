-- ===== src/Checkpoint.antt =====
-- pkg/document/checkpoint/checkpoint.go: how far a client and the server have seen each other's
-- changes. `server_seq` is a uint64 and `client_seq` a uint32.
pub mod Lattice
pub mod Tests
use rotty.Prelude.{ℕ, ◌+◌, ◌-◌, ◌%◌, ◌^◌, ◌≤◌, Bool, ◌==◌, ltb, ◌&&◌, if◌then◌else◌}

pub record Checkpoint : Type 0 where
  pub server_seq : ℕ
  pub client_seq : ℕ

abbrev pub new : ℕ → ℕ → Checkpoint
new server_seq client_seq = record { server_seq = server_seq; client_seq = client_seq }

abbrev pub initial : Checkpoint
initial = new 0 0

abbrev pub max_checkpoint : Checkpoint
max_checkpoint = new (2 ^ 64 - 1) (2 ^ 32 - 1)

unfoldable pub increase_client_seq : Checkpoint → ℕ → Checkpoint
increase_client_seq cp inc =
    if inc == 0 then cp else new cp.server_seq ((cp.client_seq + inc) % 2 ^ 32)

unfoldable pub next_client_seq : Checkpoint → Checkpoint
unfolding increase_client_seq
next_client_seq cp = increase_client_seq cp 1

unfoldable pub next_server_seq : Checkpoint → ℕ → Checkpoint
next_server_seq cp server_seq =
    if cp.server_seq == server_seq then cp else new server_seq cp.client_seq

unfoldable pub sync_client_seq : Checkpoint → ℕ → Checkpoint
sync_client_seq cp client_seq =
    if ltb cp.client_seq client_seq then new cp.server_seq client_seq else cp

unfoldable pub equals : Checkpoint → Checkpoint → Bool
equals cp other = cp.server_seq == other.server_seq && cp.client_seq == other.client_seq

unfoldable pub forward : Checkpoint → Checkpoint → Checkpoint
unfolding equals
forward cp other =
    if equals cp other
    then cp
    else new (if ltb cp.server_seq other.server_seq then other.server_seq else cp.server_seq)
        (if ltb cp.client_seq other.client_seq then other.client_seq else cp.client_seq)

-- One checkpoint has seen no more than another.
infix 50 ◌⊑◌
abbrev pub ◌⊑◌ : Checkpoint → Checkpoint → Type 0
a ⊑ b = (a.server_seq ≤ b.server_seq) × (a.client_seq ≤ b.client_seq)
