-- ===== src/Document.antt =====
-- pkg/document/internal_document.go: a document with its clocks, and the
-- changes that are waiting for the server. An error leaves what was done before it, as the code does.
pub mod Client
pub mod Queue
pub mod Clock
pub mod Tests
use Prim.Native.String.{String}
use rotty.Prelude.{
  ℕ, ◌+◌, ◌%◌, ◌^◌, Bool, true, false, Option, none, some, ltb, if◌then◌else◌, List, [], ◌∷◌, ◌++◌,
  map, length, ◌⊎◌, inl, inr,
}
use rotty.Time.ActorId.{ActorId}
use rotty.Time.Ticket.{Ticket}
use rotty.Key.{Key}
use rotty.Checkpoint.{Checkpoint, new, initial, forward, increase_client_seq, next_server_seq}
use rotty.Change.Id.{ChangeId, initial_id, next, sync_lamport, set_actor}
use rotty.Change.Context.{Context, new_context, has_operations}
use rotty.Change.Change.{Editing, Change, client_seq, execute, set_change_actor, to_change}
use rotty.Change.Pack.{Pack, new_pack}

pub data Status : Type 0 where
  detached : Status
  attached : Status

pub record InternalDocument (Op Root : Type 0) : Type 0 where
  pub key : Key
  pub status : Status
  pub root : Root
  pub checkpoint : Checkpoint
  pub change_id : ChangeId
  pub local_changes : List (Change Op)

module _ {Op : Type 0} where
  -- The loop that removes the changes that the server has.
  pub drop_applied : ℕ → List (Change Op) → List (Change Op)
  drop_applied seq [] = []
  drop_applied seq (c ∷ cs) = if ltb seq (client_seq c) then c ∷ cs else drop_applied seq cs

module _ {Op Root : Type 0} where
  abbrev pub new_internal_document : Key → Root → InternalDocument Op Root
  new_internal_document key root = record {
    key = key;
    status = detached;
    root = root;
    checkpoint = initial;
    change_id = initial_id;
    local_changes = [];
  }

  abbrev pub has_local_changes : InternalDocument Op Root → Bool
  has_local_changes d = elim d.local_changes [ [] ↦ false | c ∷ cs ↦ true ]

  -- The steps of `ApplyChangePack` behind the changes.
  unfoldable pub settle : InternalDocument Op Root → Pack Op → InternalDocument Op Root
  unfolding drop_applied forward
  settle d pack = record d {
    local_changes = drop_applied pack.checkpoint.client_seq d.local_changes;
    checkpoint = forward d.checkpoint pack.checkpoint;
  }

  unfoldable pub create_change_pack : InternalDocument Op Root → Pack Op
  unfolding increase_client_seq
  create_change_pack d =
      new_pack d.key (increase_client_seq d.checkpoint (length d.local_changes % 2 ^ 32))
        d.local_changes []

module _ {Op Root Error : Type 0} (edit : Editing Op Root Error) where
  -- Changes one after the other, up to the first error.
  pub execute_changes : List (Change Op) → Root → Root × Option Error
  unfolding execute
  execute_changes [] root = (root, none)
  execute_changes (c ∷ cs) root =
      let (edited, error) = execute edit c root in
      elim error [ none ↦ execute_changes cs edited | some e ↦ (edited, some e) ]

  pub apply_changes :
      List (Change Op) → InternalDocument Op Root → InternalDocument Op Root × Option Error
  unfolding execute sync_lamport
  apply_changes [] d = (d, none)
  apply_changes (c ∷ cs) d =
      let (edited, error) = execute edit c d.root in
      elim error [
        | none ↦
            apply_changes cs
              (record d { root = edited; change_id = sync_lamport d.change_id c.id.lamport })
        | some e ↦ (record d { root = edited }, some e)
      ]

  -- The local changes are executed again on the root of the snapshot.
  adopt : Error ⊎ Root → ℕ → InternalDocument Op Root → InternalDocument Op Root × Option Error
  unfolding execute_changes sync_lamport
  adopt (inl e) server_seq d = (d, some e)
  adopt (inr object) server_seq d =
      let (edited, error) = execute_changes d.local_changes object in
      elim error [
        | none ↦ (record d { root = edited; change_id = sync_lamport d.change_id server_seq }, none)
        | some e ↦ (record d { root = edited }, some e)
      ]

  pub apply_snapshot :
      List ℕ → ℕ → InternalDocument Op Root → InternalDocument Op Root × Option Error
  unfolding adopt
  apply_snapshot snapshot server_seq d = adopt (edit.bytes_to_object snapshot) server_seq d

  pub apply_remote : InternalDocument Op Root → Pack Op → InternalDocument Op Root × Option Error
  unfolding apply_snapshot apply_changes
  apply_remote d pack = elim pack.snapshot [
    | [] ↦ apply_changes pack.changes d
    | b ∷ bs ↦ apply_snapshot pack.snapshot pack.checkpoint.server_seq d
  ]

  -- `ApplyChangePack` of an internal document.
  pub apply_change_pack :
      InternalDocument Op Root → Pack Op → InternalDocument Op Root × Option Error
  unfolding apply_remote settle
  apply_change_pack d pack =
      let (applied, error) = apply_remote d pack in
      elim error [ none ↦ (settle applied pack, none) | some e ↦ (applied, some e) ]

  pub set_document_actor : Option ActorId → InternalDocument Op Root → InternalDocument Op Root
  unfolding set_change_actor set_actor
  set_document_actor actor d = record d {
    local_changes = map (set_change_actor edit actor) d.local_changes;
    change_id = set_actor d.change_id actor;
  }
