-- ===== src/Change/Tests.antt =====
-- Runs of pkg/document/change, and instances of the theorems on it.
use rotty.Prelude.{◌<◌, ◌≡◌, refl, some, true, arith, length, List, [], ◌∷◌}
use rotty.Time.ActorId.{max_actor_id, initial_actor_id}
use rotty.Time.Ticket.{Ticket, new_ticket, after}
use rotty.Change.Context.{Context, new_context, record_all}
use rotty.Change.Context.Tickets.{IsAscending, record_all-IsAscending}
use rotty.Change.Id.{ChangeId, new_id, next, new_time_ticket, sync_lamport}
use rotty.Change.Id.Clock.{next-sync_lamport-after}

abbrev mine : ChangeId
mine = new_id 1 4 (some initial_actor_id)

abbrev theirs : Ticket
theirs = new_ticket 9 3 (some max_actor_id)

synced : next (sync_lamport mine 9) ≡ new_id 2 10 (some initial_actor_id)
unfolding next sync_lamport
synced = refl

after_a_sync :
    (after (new_time_ticket (next (sync_lamport mine 9)) 1) theirs ≡ some true)
    × (4 < (next (sync_lamport mine 9)).lamport)
after_a_sync = next-sync_lamport-after mine 9 1 theirs (omega arith) (omega arith) (omega arith)

abbrev two_edits : List (Ticket → Ticket)
two_edits = (λ t. t) ∷ (λ t. t) ∷ []

abbrev edit : Context Ticket Unit
edit = new_context mine "edit" tt

record_all-IsAscending_example :
    IsAscending (record_all edit two_edits).1 × (length (record_all edit two_edits).1 ≡ 2)
record_all-IsAscending_example =
    record_all-IsAscending edit initial_actor_id two_edits refl (omega arith)
