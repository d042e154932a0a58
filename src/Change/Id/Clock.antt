-- ===== src/Change/Id/Clock.antt =====
-- The clock condition: what a replica makes after it has seen a change is later than the change.
use rotty.Prelude.{ℕ, ◌+◌, ◌^◌, ◌≤◌, ◌<◌, ◌≡◌, true, some, arith}
use rotty.Time.Ticket.{Ticket, compare_tickets, after}
use rotty.Change.Id.{ChangeId, next, new_time_ticket, sync_lamport}

-- Once a replica has synced its clock with a remote lamport time, a ticket of its next change is
-- after every ticket of no later a time, whatever their actors, and the clock is above where it
-- was, while both times stay below the end of uint64.
pub next-sync_lamport-after :
    (id : ChangeId) (other delimiter : ℕ) (t : Ticket)
    → id.lamport + 2 < 2 ^ 64
    → other + 1 < 2 ^ 64
    → t.lamport ≤ other
    → (after (new_time_ticket (next (sync_lamport id other)) delimiter) t ≡ some true)
      × (id.lamport < (next (sync_lamport id other)).lamport)
unfolding next new_time_ticket sync_lamport after compare_tickets
next-sync_lamport-after id other delimiter t h k le = (ground arith, ground arith)
