-- ===== src/Change/Context/Tickets.antt =====
-- The tickets of one change.
use rotty.Prelude.{
  ℕ, ◌%◌, ap, suc, ◌+◌, ◌^◌, ◌<◌, ◌≤◌, ◌≡◌, refl, true, some, List, [], ◌∷◌, length, arith, All,
  All-imp,
}
use rotty.Time.ActorId.{ActorId, compare_actors, compare_bytes-IsTotal}
use rotty.Time.Ticket.{Ticket, after, compare_tickets}
use rotty.Change.Id.{new_time_ticket}
use rotty.Change.Context.{Context, issue_time_ticket, push, record_all}
open compare_bytes-IsTotal use {cmp_refl as bytes_refl}

-- Every ticket is after the ones in front of it.
abbrev pub IsAscending : List Ticket → Type 0
IsAscending [] = Unit
IsAscending (t ∷ ts) = All (λ u. after u t ≡ some true) ts × IsAscending ts

-- A ticket of this lamport time and actor, with a delimiter above a bound.
record IsIssued (lamport : ℕ) (actor : ActorId) (bound : ℕ) (t : Ticket) : Type 0 where
  same_lamport : t.lamport ≡ lamport
  same_actor : t.actor_id ≡ some actor
  above : bound < t.delimiter

IsIssued-after :
    (l : ℕ) (a : ActorId) (b : ℕ) (t u : Ticket)
    → t.lamport ≡ l
    → t.actor_id ≡ some a
    → t.delimiter ≡ b
    → IsIssued l a b u
    → after u t ≡ some true
unfolding after compare_tickets compare_actors
IsIssued-after l a b t u tl ta td i =
    ground (arith, i.same_lamport, i.same_actor, i.above, bytes_refl a)

IsIssued-weaken :
    (l : ℕ) (a : ActorId) (b d : ℕ) (t : Ticket) → d ≤ b → IsIssued l a b t → IsIssued l a d t
IsIssued-weaken l a b d t le i = record {
  same_lamport = i.same_lamport;
  same_actor = i.same_actor;
  above = omega (arith, i.above);
}

module _ {Op Root : Type 0} where
  record_all-IsIssued :
      (c : Context Op Root) (a : ActorId) (ops : List (Ticket → Op))
      → c.id.actor ≡ some a
      → c.delimiter + length ops < 2 ^ 32
      → All (IsIssued c.id.lamport a c.delimiter) (record_all c ops).1
        × IsAscending (record_all c ops).1
        × (length (record_all c ops).1 ≡ length ops)
  unfolding record_all issue_time_ticket push new_time_ticket
  record_all-IsIssued c a [] h b = (tt, tt, refl)
  record_all-IsIssued c a (op ∷ ops) h b =
      let d = (c.delimiter + 1) % 2 ^ 32 in
      let t = new_time_ticket c.id d in
      let c' = push (record c { delimiter = d }) (op t) in
      let (issued, ascending, count) = record_all-IsIssued c' a ops h (omega arith) in
      (
        (
          record { same_lamport = refl; same_actor = h; above = omega arith },
          All-imp (λ u i. IsIssued-weaken c.id.lamport a d c.delimiter u (omega arith) i)
              (record_all c' ops).1 issued,
        ),
        (
          All-imp (λ u i. IsIssued-after c.id.lamport a d t u refl h refl i) (record_all c' ops).1
              issued,
          ascending,
        ),
        ap suc count,
      )

  -- A change with an actor whose delimiter does not pass the end of uint32 issues one ticket for
  -- each operation, and every ticket is after the tickets in front of it.
  pub record_all-IsAscending :
      (c : Context Op Root) (a : ActorId) (ops : List (Ticket → Op))
      → c.id.actor ≡ some a
      → c.delimiter + length ops < 2 ^ 32
      → IsAscending (record_all c ops).1 × (length (record_all c ops).1 ≡ length ops)
  record_all-IsAscending c a ops h b = let all = record_all-IsIssued c a ops h b in (all.1, all.2)
