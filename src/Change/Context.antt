-- ===== src/Change/Context.antt =====
-- pkg/document/change/context.go: the context that records one change. The operations and the root
-- of the document are any types.
pub mod Tickets
use rotty.Prelude.{
  ℕ, suc, ◌+◌, ◌%◌, ◌^◌, ◌<◌, ◌≡◌, refl, Bool, true, false, some, List, [], ◌∷◌, ◌++◌, arith, All,
}
use Prim.Native.String.{String}
use rotty.Time.ActorId.{ActorId}
use rotty.Time.Ticket.{Ticket, after, compare_tickets}
use rotty.Time.ActorId.{compare_actors}
use rotty.Change.Id.{ChangeId, new_time_ticket}

pub record Context (Op Root : Type 0) : Type 0 where
  pub id : ChangeId
  pub message : String
  pub operations : List Op
  pub delimiter : ℕ
  pub root : Root

module _ {Op Root : Type 0} where
  abbrev pub new_context : ChangeId → String → Root → Context Op Root
  new_context id message root = record {
    id = id;
    message = message;
    operations = [];
    delimiter = 0;
    root = root;
  }

  pub has_operations : Context Op Root → Bool
  has_operations c = elim c.operations [ [] ↦ false | op ∷ ops ↦ true ]

  -- `delimiter` is a uint32.
  pub issue_time_ticket : Context Op Root → Context Op Root × Ticket
  issue_time_ticket c =
      let d = (c.delimiter + 1) % 2 ^ 32 in (record c { delimiter = d }, new_time_ticket c.id d)

  pub push : Context Op Root → Op → Context Op Root
  push c op = record c { operations = c.operations ++ op ∷ [] }

  -- A change that is being recorded: a ticket is issued for each operation, which is then pushed.
  pub record_all : Context Op Root → List (Ticket → Op) → Context Op Root × List Ticket
  record_all c [] = (c, [])
  record_all c (op ∷ ops) =
      let (c', t) = issue_time_ticket c in
      let (c'', ts) = record_all (push c' (op t)) ops in (c'', t ∷ ts)
