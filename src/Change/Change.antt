-- ===== src/Change/Change.antt =====
-- pkg/document/change/change.go: a change, and how it is executed. The operations, the root that they
-- edit and the errors that they return are any types; `execute` of an operation leaves the root
-- edited, also when it returns an error. What the converter makes of the bytes of a snapshot is an error
-- or an object.
use Prim.Native.String.{String}
use rotty.Prelude.{ℕ, ◌⊎◌, Option, none, some, List, [], ◌∷◌, map}
use rotty.Time.ActorId.{ActorId}
use rotty.Time.Ticket.{Ticket}
use rotty.Change.Id.{ChangeId, set_actor}
use rotty.Change.Context.{Context}

-- What the operations and the root of a document offer to changes and documents. `none` is success.
pub record Editing (Op Root Error : Type 0) : Type 0 where
  pub execute : Op → Root → Root × Option Error
  pub set_op_actor : Option ActorId → Op → Op
  pub deep_copy : Root → Root
  pub garbage_collect : Option Ticket → Root → Root × ℕ
  pub bytes_to_object : List ℕ → Error ⊎ Root

pub record Change (Op : Type 0) : Type 0 where
  pub id : ChangeId
  pub message : String
  pub operations : List Op
  pub server_seq : Option ℕ

module _ {Op : Type 0} where
  abbrev pub new_change : ChangeId → String → List Op → Change Op
  new_change id message operations = record {
    id = id;
    message = message;
    operations = operations;
    server_seq = none;
  }

  abbrev pub client_seq : Change Op → ℕ
  client_seq c = c.id.client_seq

  abbrev pub set_server_seq : Change Op → ℕ → Change Op
  set_server_seq c server_seq = record c { server_seq = some server_seq }

  abbrev pub to_change : {Root : Type 0} → Context Op Root → Change Op
  to_change c = new_change c.id c.message c.operations

module _ {Op Root Error : Type 0} (edit : Editing Op Root Error) where
  -- The loop over the operations stops at the first error.
  execute_operations : List Op → Root → Root × Option Error
  execute_operations [] root = (root, none)
  execute_operations (op ∷ ops) root =
      let (edited, error) = edit.execute op root in
      elim error [ none ↦ execute_operations ops edited | some e ↦ (edited, some e) ]

  unfoldable pub execute : Change Op → Root → Root × Option Error
  unfolding execute_operations
  execute c root = execute_operations c.operations root

  unfoldable pub set_change_actor : Option ActorId → Change Op → Change Op
  unfolding set_actor
  set_change_actor actor c = record c {
    id = set_actor c.id actor;
    operations = map (edit.set_op_actor actor) c.operations;
  }
