-- ===== src/Time/Ticket/Order.antt =====
-- `Compare` and `After` of ticket.go order the tickets totally, and when they panic.
use rotty.Prelude.{◌≡◌, lt, eq, none, some, arith, ◌⊎◌, ◌↔◌, flip, IsTotal, Ord}
use rotty.Time.ActorId.{compare_actors, compare_bytes-IsTotal}
use rotty.Time.Ticket.{Ticket, Stamp, to_ticket, compare_stamps, compare_tickets}
open compare_bytes-IsTotal use {
  cmp_refl as bytes_refl, cmp_eq as bytes_eq, cmp_flip as bytes_flip, cmp_trans as bytes_trans,
}

compare_stamps_refl : (s : Stamp) → compare_stamps s s ≡ eq
unfolding compare_stamps
compare_stamps_refl s = ground (arith, bytes_refl s.actor)

compare_stamps-eq : (s t : Stamp) → compare_stamps s t ≡ eq → s ≡ t
unfolding compare_stamps
compare_stamps-eq s t h = ground (arith, bytes_eq s.actor t.actor)

compare_stamps-flip : (s t : Stamp) → compare_stamps t s ≡ flip (compare_stamps s t)
unfolding compare_stamps
compare_stamps-flip s t = ground (arith, bytes_flip s.actor t.actor)

compare_stamps_trans :
    (s t u : Stamp) → compare_stamps s t ≡ lt → compare_stamps t u ≡ lt → compare_stamps s u ≡ lt
unfolding compare_stamps
compare_stamps_trans s t u h k = ground (
  arith,
  bytes_eq s.actor t.actor,
  bytes_eq t.actor u.actor,
  bytes_trans s.actor t.actor u.actor,
  bytes_refl s.actor,
)

-- `Compare` orders the tickets with an actor totally.
pub compare_stamps-IsTotal : IsTotal compare_stamps
compare_stamps-IsTotal = record {
  cmp_refl = compare_stamps_refl;
  cmp_eq = compare_stamps-eq;
  cmp_flip = compare_stamps-flip;
  cmp_trans = compare_stamps_trans;
}

instance abbrev pub stamp_ord : Ord Stamp
stamp_ord = record { cmp = compare_stamps; is_total = compare_stamps-IsTotal }

-- On tickets with an actor `Compare` does not panic, and returns the order of their stamps.
pub compare_tickets-to_ticket :
    (s t : Stamp) → compare_tickets (to_ticket s) (to_ticket t) ≡ some (compare_stamps s t)
unfolding compare_tickets compare_stamps compare_actors
compare_tickets-to_ticket s t = ground arith

-- `Compare` panics exactly when the lamport times are equal and one of the actors is nil.
pub compare_tickets_panics :
    (t u : Ticket)
    → (compare_tickets t u ≡ none)
      ↔ ((t.lamport ≡ u.lamport) × ((t.actor_id ≡ none) ⊎ (u.actor_id ≡ none)))
unfolding compare_tickets compare_actors
compare_tickets_panics t u = (λ h. ground arith, λ h. ground arith)
