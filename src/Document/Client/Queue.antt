-- ===== src/Document/Client/Queue.antt =====
-- `Update` and `ApplyChangePack` of document.go keep the waiting changes numbered without a gap.
use Prim.Native.String.{String}
use rotty.Prelude.{
  ℕ, suc, ◌+◌, ◌^◌, ◌≤◌, ◌<◌, ◌≡◌, refl, ◌∙◌, ap, Bool-cases, inl, inr, List, [], ◌∷◌,
  length-append, Option, none, some, Option-cases, arith,
}
use rotty.Change.Id.{ChangeId, next}
use rotty.Change.Context.{Context, new_context, has_operations}
use rotty.Change.Change.{Editing, Change, execute, to_change}
use rotty.Change.Pack.{Pack}
use rotty.Document.{settle, execute_changes}
use rotty.Document.Queue.{
  IsConsecutive-append, IsQueued, IsSameQueue, IsSameQueue-IsQueued, settle-IsQueued,
  apply_changes-IsSameQueue, apply_snapshot-IsSameQueue,
}
use rotty.Document.Client.{
  Document, update, commit, ensure_clone, apply_pack, take_changes, apply_to_both,
  replace_by_snapshot, collect_garbage,
}

next-client_seq :
    (id : ChangeId) → id.client_seq + 1 < 2 ^ 32 → (next id).client_seq ≡ suc id.client_seq
unfolding next
next-client_seq id b = omega arith

module _ {Op Root Error : Type 0} (edit : Editing Op Root Error) where
  -- A user's function edits the context's root and operations, never its identity.
  abbrev pub KeepsId : (Context Op Root → Context Op Root × Option Error) → Type 0
  KeepsId updater = (ctx : Context Op Root) → (updater ctx).0.id ≡ ctx.id

  commit-IsQueued :
      (ctx : Context Op Root) (d : Document Op Root)
      → ctx.id.client_seq ≡ suc d.doc.change_id.client_seq
      → IsQueued d.doc
      → IsQueued (commit edit ctx d).0.doc
  unfolding commit
  commit-IsQueued ctx d h q = elim (Option-cases (execute edit (to_change ctx) d.doc.root).1) [
    | inl e ↦
        rw (e, commit)
          (record {
            consecutive =
                IsConsecutive-append d.doc.checkpoint.client_seq d.doc.local_changes (to_change ctx)
                  q.consecutive (h ∙ ap suc q.last);
            last =
                rw (length-append d.doc.local_changes (to_change ctx ∷ []))
                  (omega (arith, h, q.last));
          })
    | inr (err, e) ↦ rw (e, commit) (record { consecutive = q.consecutive; last = q.last })
  ]

  -- A local edit, whether it succeeds, does nothing or fails, keeps the waiting changes numbered
  -- without a gap, as long as the number fits in 32 bits and the user's function leaves the
  -- identity of its context.
  pub update-IsQueued :
      (updater : Context Op Root → Context Op Root × Option Error)
      → (message : String) (d : Document Op Root) → KeepsId updater
      → d.doc.change_id.client_seq + 1 < 2 ^ 32
      → IsQueued d.doc
      → IsQueued (update edit updater message d).0.doc
  unfolding update
  update-IsQueued updater message d k b q =
      let opened : Context Op Root =
        new_context (next d.doc.change_id) message (ensure_clone edit d) in
      elim (Option-cases (updater opened).1) [
        | inl e ↦ elim (Bool-cases (has_operations (updater opened).0)) [
          | inl h ↦
              rw (e, update)
                (rw h (
                  commit-IsQueued (updater opened).0
                    (record { doc = d.doc; clone = some (updater opened).0.root })
                    (ap (λ (i : ChangeId). i.client_seq) (k opened)
                      ∙ next-client_seq d.doc.change_id b)
                    q))
          | inr h ↦ rw (e, update) (rw h (record { consecutive = q.consecutive; last = q.last }))
        ]
        | inr (err, e) ↦ rw (e, update) (record { consecutive = q.consecutive; last = q.last })
      ]

  apply_to_both-IsSameQueue :
      (cs : List (Change Op)) (d : Document Op Root)
      → IsSameQueue d.doc (apply_to_both edit cs d).0.doc
  unfolding apply_to_both
  apply_to_both-IsSameQueue cs d =
      elim (Option-cases (execute_changes edit cs (ensure_clone edit d)).1) [
        | inl e ↦ rw (e, apply_to_both) (apply_changes-IsSameQueue edit cs d.doc)
        | inr (err, e) ↦
            rw (e, apply_to_both)
              (record { local_changes = refl; checkpoint = refl; number = refl })
      ]

  take_changes-IsSameQueue :
      (snapshot : List ℕ) (d : Document Op Root) (pack : Pack Op)
      → pack.snapshot ≡ snapshot
      → IsSameQueue d.doc (take_changes edit d pack).0.doc
  unfolding take_changes replace_by_snapshot
  take_changes-IsSameQueue [] d pack h = rw h (apply_to_both-IsSameQueue pack.changes d)
  take_changes-IsSameQueue (b ∷ bs) d pack h =
      rw h (apply_snapshot-IsSameQueue edit (b ∷ bs) pack.checkpoint.server_seq d.doc)

  -- A pack whose acknowledged number is neither below the one of the document's checkpoint nor above
  -- the number of the last change that the document made keeps the waiting changes numbered without
  -- a gap, if they were, and leaves the number of the last change, also when a change of the pack
  -- fails; and if none fails, the document's checkpoint has the number that the pack acknowledges.
  pub apply_pack-IsQueued :
      (d : Document Op Root) (pack : Pack Op)
      → d.doc.checkpoint.client_seq ≤ pack.checkpoint.client_seq
      → pack.checkpoint.client_seq ≤ d.doc.change_id.client_seq
      → IsQueued d.doc
      → IsQueued (apply_pack edit d pack).0.doc
        × ((apply_pack edit d pack).0.doc.change_id.client_seq ≡ d.doc.change_id.client_seq)
        × ((apply_pack edit d pack).1 ≡ none
            → (apply_pack edit d pack).0.doc.checkpoint.client_seq ≡ pack.checkpoint.client_seq)
  unfolding apply_pack collect_garbage settle
  apply_pack-IsQueued d pack l u q =
      let same = take_changes-IsSameQueue pack.snapshot d pack refl in
      let applied = (take_changes edit d pack).0.doc in
      let (queued, number) = settle-IsQueued d.doc applied pack q same l u in
      elim (Option-cases (take_changes edit d pack).1) [
        | inl e ↦
            rw (e, apply_pack)
              (
                record { consecutive = queued.consecutive; last = queued.last },
                same.number,
                λ _. number,
              )
        | inr (err, e) ↦
            rw (e, apply_pack)
              (IsSameQueue-IsQueued d.doc applied same q, same.number, λ f. ground arith)
      ]
