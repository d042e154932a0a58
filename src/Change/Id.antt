-- ===== src/Change/Id.antt =====
-- pkg/document/change/id.go: identities of changes and the Lamport clock that they carry.
-- `client_seq` is a uint32 and `lamport` a uint64; both wrap.
pub mod Clock
use rotty.Prelude.{ℕ, ◌+◌, ◌%◌, ◌^◌, Option, some, ltb, if◌then◌else◌}
use rotty.Time.ActorId.{ActorId, initial_actor_id}
use rotty.Time.Ticket.{Ticket, new_ticket}

pub record ChangeId : Type 0 where
  pub client_seq : ℕ
  pub lamport : ℕ
  pub actor : Option ActorId

abbrev pub new_id : ℕ → ℕ → Option ActorId → ChangeId
new_id client_seq lamport actor = record {
  client_seq = client_seq;
  lamport = lamport;
  actor = actor;
}

abbrev pub initial_id : ChangeId
initial_id = new_id 0 0 (some initial_actor_id)

unfoldable pub next : ChangeId → ChangeId
next id = new_id ((id.client_seq + 1) % 2 ^ 32) ((id.lamport + 1) % 2 ^ 64) id.actor

unfoldable pub new_time_ticket : ChangeId → ℕ → Ticket
new_time_ticket id delimiter = new_ticket id.lamport delimiter id.actor

unfoldable pub sync_lamport : ChangeId → ℕ → ChangeId
sync_lamport id other_lamport =
    if ltb id.lamport other_lamport
    then new_id id.client_seq other_lamport id.actor
    else new_id id.client_seq ((id.lamport + 1) % 2 ^ 64) id.actor

unfoldable pub set_actor : ChangeId → Option ActorId → ChangeId
set_actor id actor = new_id id.client_seq id.lamport actor
