-- ===== src/Document/Client.antt =====
-- pkg/document/document.go: the document that a user edits. Edits go to a clone of the root, and then
-- as a change to the root. The user's function is any function of the context that it is given; what it
-- edits is the context's root.
pub mod Queue
use Prim.Native.String.{String}
use rotty.Prelude.{ℕ, Bool, true, false, Option, none, some, if◌then◌else◌, List, [], ◌∷◌, ◌++◌}
use rotty.Time.Ticket.{Ticket}
use rotty.Change.Id.{next}
use rotty.Change.Context.{Context, new_context, has_operations}
use rotty.Change.Change.{Editing, Change, execute, to_change}
use rotty.Change.Pack.{Pack}
use rotty.Document.{InternalDocument, execute_changes, apply_snapshot, apply_changes, settle}

-- `clone` is nil until a user asks for it.
pub record Document (Op Root : Type 0) : Type 0 where
  pub doc : InternalDocument Op Root
  pub clone : Option Root

module _ {Op Root Error : Type 0} (edit : Editing Op Root Error) where
  -- The clone that `ensureClone` leaves.
  abbrev pub ensure_clone : Document Op Root → Root
  ensure_clone d = elim d.clone [ none ↦ edit.deep_copy d.doc.root | some root ↦ root ]

  -- A change that has operations is executed on the root and waits for the server.
  commit : Context Op Root → Document Op Root → Document Op Root × Option Error
  unfolding execute
  commit ctx d =
      let c = to_change ctx in
      let (edited, error) = execute edit c d.doc.root in
      elim error [
        | none ↦ (
          record d {
            doc = record d.doc {
              root = edited;
              local_changes = d.doc.local_changes ++ c ∷ [];
              change_id = ctx.id;
            };
          },
          none,
        )
        | some e ↦ (record d { doc = record d.doc { root = edited } }, some e)
      ]

  pub update :
      (Context Op Root → Context Op Root × Option Error)
      → String
      → Document Op Root
      → Document Op Root × Option Error
  unfolding commit next
  update updater message d =
      let (ctx, error) = updater (new_context (next d.doc.change_id) message (ensure_clone d)) in
      elim error [
        | none ↦
            (let edited = record d { clone = some ctx.root } in
              if has_operations ctx then commit ctx edited else (edited, none))
        | some e ↦ (record d { clone = none }, some e)
      ]

  pub collect_garbage : Option Ticket → Document Op Root → Document Op Root
  collect_garbage ticket d = record {
    doc = record d.doc { root = (edit.garbage_collect ticket d.doc.root).0 };
    clone = elim d.clone [ none ↦ none | some root ↦ some (edit.garbage_collect ticket root).0 ];
  }

  -- The changes of a pack go to the clone first, and to the root if the clone took them all.
  apply_to_both : List (Change Op) → Document Op Root → Document Op Root × Option Error
  unfolding execute_changes apply_changes
  apply_to_both cs d =
      let (cloned, error) = execute_changes edit cs (ensure_clone d) in
      let on_clone = record d { clone = some cloned } in
      elim error [
        | none ↦
            (let (doc, error') = apply_changes edit cs d.doc in
              (record on_clone { doc = doc }, error'))
        | some e ↦ (on_clone, some e)
      ]

  replace_by_snapshot : Pack Op → Document Op Root → Document Op Root × Option Error
  unfolding apply_snapshot
  replace_by_snapshot pack d =
      let (doc, error) = apply_snapshot edit pack.snapshot pack.checkpoint.server_seq d.doc in
      (record { doc = doc; clone = none }, error)

  take_changes : Document Op Root → Pack Op → Document Op Root × Option Error
  unfolding apply_to_both replace_by_snapshot
  take_changes d pack = elim pack.snapshot [
    | [] ↦ apply_to_both pack.changes d
    | b ∷ bs ↦ replace_by_snapshot pack d
  ]

  -- `ApplyChangePack` of a document.
  unfoldable pub apply_pack : Document Op Root → Pack Op → Document Op Root × Option Error
  unfolding take_changes settle collect_garbage
  apply_pack d pack =
      let (applied, error) = take_changes d pack in
      elim error [
        | none ↦ (
          collect_garbage pack.min_synced_ticket (record applied { doc = settle applied.doc pack }),
          none,
        )
        | some e ↦ (applied, some e)
      ]
