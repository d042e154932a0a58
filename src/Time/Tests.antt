-- ===== src/Time/Tests.antt =====
-- Runs of pkg/document/time, and instances of the theorems on it.
use rotty.Prelude.{ℕ, ◌≡◌, refl, Option, none, some, arith, ◌↔◌, ◌⊎◌, length, gt}
use rotty.Time.ActorId.{ActorId, IsActorId, initial_actor_id, max_actor_id, ok, compare_bytes}
use rotty.Time.ActorId.Hex.{
  actor_id_from_hex, actor_string, actor_id_from_hex-string, actor_id_from_hex_sound,
}
use rotty.Time.Ticket.{Stamp, new_ticket, to_ticket, compare_tickets, compare_stamps}
use rotty.Time.Ticket.Order.{compare_tickets-to_ticket, compare_tickets_panics}
use rotty.Time.Ticket.Key.{IsTicket, key-injective}

max_actor_id-IsActorId : IsActorId max_actor_id
max_actor_id-IsActorId = record { size = refl; bytes = omega arith }

actor_id_from_hex-string_example :
    actor_id_from_hex (actor_string (some max_actor_id)) ≡ ok (some max_actor_id)
actor_id_from_hex-string_example =
    actor_id_from_hex-string (some max_actor_id) max_actor_id-IsActorId

hex_that_decodes : IsActorId max_actor_id × (length (actor_string (some max_actor_id)) ≡ 24)
hex_that_decodes =
    actor_id_from_hex_sound (actor_string (some max_actor_id)) max_actor_id
      actor_id_from_hex-string_example

abbrev early : Stamp
early = record { lamport = 1; delimiter = 1; actor = max_actor_id }

abbrev late : Stamp
late = record { lamport = 1; delimiter = 2; actor = initial_actor_id }

-- With equal lamport times the actor decides before the delimiter does.
actor_before_delimiter : compare_tickets (to_ticket early) (to_ticket late) ≡ some gt
unfolding compare_stamps compare_bytes
actor_before_delimiter = compare_tickets-to_ticket early late

early_and_late :
    compare_tickets (to_ticket early) (to_ticket late) ≡ some (compare_stamps early late)
early_and_late = compare_tickets-to_ticket early late

two_tickets_without_actor : (compare_tickets (new_ticket 3 1 none) (new_ticket 3 1 none) ≡ none) ↔ (
    (◌≡◌ {A = ℕ} 3 3)
    × ((◌≡◌ {A = Option ActorId} none none) ⊎ (◌≡◌ {A = Option ActorId} none none)))
two_tickets_without_actor = compare_tickets_panics (new_ticket 3 1 none) (new_ticket 3 1 none)

early-IsTicket : IsTicket (to_ticket early)
early-IsTicket = record {
  lamport = omega arith;
  delimiter = omega arith;
  actor = max_actor_id-IsActorId;
}

key-injective_example : to_ticket early ≡ to_ticket early
key-injective_example =
    key-injective (to_ticket early) (to_ticket early) early-IsTicket early-IsTicket refl
