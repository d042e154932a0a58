-- ===== src/Server/Push/Again.antt =====
-- A pack that reaches the server a second time, because the answer to the first was lost, stores nothing.
use Prim.Native.String.{String}
use rotty.Prelude.{ℕ, ◌≤◌, ◌≡◌, refl, ◌∙◌, ap, inl, inr, List, [], ◌∷◌, Option-cases, All, arith}
use rotty.Prelude.Assoc.{string_keyed, lookup-insert_self}
use rotty.Checkpoint.{Checkpoint, next_server_seq, sync_client_seq}
use rotty.Change.Change.{Change, client_seq}
use rotty.Change.Pack.{Pack}
use rotty.Server.ClientInfo.{
  ClientInfo, DocInfo, increase_server_seq, checkpoint_of, update_checkpoint, find_document,
}
use rotty.Server.Push.{Pushed, push_change, push_all, push_changes}
use rotty.Server.Push.Unseen.{push_change-seen}

-- What `UpdateCheckpoint` stores is what `Checkpoint` returns.
pub checkpoint_of-update_checkpoint :
    (i i' : ClientInfo) (doc_id : String) (cp : Checkpoint)
    → update_checkpoint i doc_id cp ≡ inr i'
    → checkpoint_of i' doc_id ≡ cp
unfolding update_checkpoint checkpoint_of
checkpoint_of-update_checkpoint i i' doc_id cp h = elim (Option-cases (find_document i doc_id)) [
  | inl e ↦ ground arith
  | inr (info, e) ↦ ground (
    arith,
    lookup-insert_self doc_id
        (record { status = info.status; server_seq = cp.server_seq; client_seq = cp.client_seq })
        i.documents,
  )
]

pub next_server_seq-client_seq :
    (cp : Checkpoint) (server_seq : ℕ) → (next_server_seq cp server_seq).client_seq ≡ cp.client_seq
unfolding next_server_seq
next_server_seq-client_seq cp server_seq = ground arith

module _ {Op : Type 0} where
  abbrev pub HasSeen : ℕ → List (Change Op) → Type 0
  HasSeen seq = All (λ c. client_seq c ≤ seq)

  push_change-grows :
      (p : Pushed Op) (c : Change Op)
      → (p.checkpoint.client_seq ≤ (push_change p c).checkpoint.client_seq)
        × (client_seq c ≤ (push_change p c).checkpoint.client_seq)
        × ((push_change p c).doc_info.id ≡ p.doc_info.id)
  unfolding push_change sync_client_seq next_server_seq increase_server_seq
  push_change-grows p c = (ground arith, ground arith, ground arith)

  push_all-HasSeen :
      (p : Pushed Op) (cs : List (Change Op))
      → (p.checkpoint.client_seq ≤ (push_all p cs).checkpoint.client_seq)
        × HasSeen (push_all p cs).checkpoint.client_seq cs
        × ((push_all p cs).doc_info.id ≡ p.doc_info.id)
  unfolding push_all
  push_all-HasSeen p [] = (omega arith, tt, refl)
  push_all-HasSeen p (c ∷ cs) =
      let (own, this, same) = push_change-grows p c in
      let (more, rest, id) = push_all-HasSeen (push_change p c) cs in
      (omega arith, (omega arith, rest), id ∙ same)

  push_all-seen :
      (p : Pushed Op) (cs : List (Change Op))
      → HasSeen p.checkpoint.client_seq cs
      → push_all p cs ≡ p
  unfolding push_all
  push_all-seen p [] h = refl
  push_all-seen p (c ∷ cs) h =
      ap (λ q. push_all q cs) (push_change-seen p c (ground (arith, h.0))) ∙ push_all-seen p cs h.1

  -- Once the client's record has the checkpoint that was answered, whatever server number it carries,
  -- the same pack pushed again leaves the document and the checkpoint, and gives nothing to store.
  pub push_changes-again :
      (client_info client_info' : ClientInfo) (doc_info : DocInfo) (pack : Pack Op) (server_seq : ℕ)
      → let p = push_changes client_info doc_info pack in
        let answered = next_server_seq p.checkpoint server_seq in
        update_checkpoint client_info doc_info.id answered ≡ inr client_info'
        → push_changes client_info' p.doc_info pack
          ≡ record { checkpoint = answered; doc_info = p.doc_info; changes = [] }
  unfolding push_changes
  push_changes-again client_info client_info' doc_info pack server_seq h =
      let p = push_changes client_info doc_info pack in
      let cp = next_server_seq p.checkpoint server_seq in
      let start : Pushed Op = record {
        checkpoint = checkpoint_of client_info doc_info.id;
        doc_info = doc_info;
        changes = [];
      } in
      let (grown, seen, same) = push_all-HasSeen start pack.changes in
      let kept = checkpoint_of-update_checkpoint client_info client_info' doc_info.id cp h in
      ap
        (λ c.
          push_all (record { checkpoint = c; doc_info = p.doc_info; changes = [] }) pack.changes)
        (ap (checkpoint_of client_info') same ∙ kept)
      ∙ push_all-seen (record { checkpoint = cp; doc_info = p.doc_info; changes = [] }) pack.changes
          (rw (next_server_seq-client_seq p.checkpoint server_seq) seen)
