-- ===== src/Time/Ticket.antt =====
-- pkg/document/time/ticket.go: tickets of the logical clock. The actor of a `Ticket` is a pointer;
-- a `Stamp` is a ticket whose actor is there, which is what the documents are built of.
pub mod Order
pub mod Key
use rotty.Prelude.{
  ℕ, ◌-◌, ◌^◌, Bool, compare, Ordering, lt, eq, gt, Option, none, some, ◌>>=◌, is_gt, first_of_two,
}
use rotty.Time.ActorId.{ActorId, initial_actor_id, max_actor_id, compare_bytes, compare_actors}

abbrev pub max_lamport : ℕ
max_lamport = 2 ^ 64 - 1

abbrev pub max_delimiter : ℕ
max_delimiter = 2 ^ 32 - 1

pub record Ticket : Type 0 where
  pub lamport : ℕ
  pub delimiter : ℕ
  pub actor_id : Option ActorId

abbrev pub new_ticket : ℕ → ℕ → Option ActorId → Ticket
new_ticket lamport delimiter actor = record {
  lamport = lamport;
  delimiter = delimiter;
  actor_id = actor;
}

abbrev pub initial_ticket : Ticket
initial_ticket = new_ticket 0 0 (some initial_actor_id)

abbrev pub max_ticket : Ticket
max_ticket = new_ticket max_lamport max_delimiter (some max_actor_id)

-- The last test of `Compare`, reached when the actors are the same.
compare_delimiters : Ordering → Ticket → Ticket → Ordering
compare_delimiters eq t other = compare t.delimiter other.delimiter
compare_delimiters lt t other = lt
compare_delimiters gt t other = gt

-- `none` is a panic: the lamport times are equal and an actor is nil.
unfoldable pub compare_tickets : Ticket → Ticket → Option Ordering
unfolding compare_delimiters
compare_tickets t other = elim (compare t.lamport other.lamport) [
  | gt ↦ some gt
  | lt ↦ some lt
  | eq ↦ do c ← compare_actors t.actor_id other.actor_id; some (compare_delimiters c t other)
]

unfoldable pub after : Ticket → Ticket → Option Bool
after t other = do c ← compare_tickets t other; some (is_gt c)

pub set_actor_id : Ticket → Option ActorId → Ticket
set_actor_id t actor = new_ticket t.lamport t.delimiter actor

pub record Stamp : Type 0 where
  pub lamport : ℕ
  pub delimiter : ℕ
  pub actor : ActorId

abbrev pub to_ticket : Stamp → Ticket
to_ticket s = new_ticket s.lamport s.delimiter (some s.actor)

-- The order that `Compare` gives: lamport time, then actor, then delimiter.
unfoldable pub compare_stamps : Stamp → Stamp → Ordering
compare_stamps s t =
    first_of_two (compare s.lamport t.lamport)
      (first_of_two (compare_bytes s.actor t.actor) (compare s.delimiter t.delimiter))

abbrev pub initial_stamp : Stamp
initial_stamp = record { lamport = 0; delimiter = 0; actor = initial_actor_id }

abbrev pub max_stamp : Stamp
max_stamp = record { lamport = max_lamport; delimiter = max_delimiter; actor = max_actor_id }
