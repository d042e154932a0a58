-- ===== src/Server/Exchange.antt =====
-- A client and the server: the pack of `CreateChangePack`, `pushChanges` on it, and `ApplyChangePack` on
-- the answer.
use rotty.Prelude.{ℕ, suc, ◌+◌, ◌≤◌, ◌≡◌, refl, sym, ◌∙◌, List, [], ◌∷◌, length, none, arith}
use rotty.Checkpoint.{next_server_seq, sync_client_seq}
use rotty.Change.Change.{Editing, Change, client_seq}
use rotty.Change.Pack.{Pack}
use rotty.Document.{create_change_pack}
use rotty.Document.Client.{Document, apply_pack}
use rotty.Document.Queue.{IsConsecutive, IsQueued}
use rotty.Document.Client.Queue.{apply_pack-IsQueued}
use rotty.Server.ClientInfo.{ClientInfo, DocInfo, checkpoint_of, increase_server_seq}
use rotty.Server.Push.{Pushed, push_change, push_all, push_changes}

module _ {Op : Type 0} where
  push_change-bounds :
      (n m : ℕ) (p : Pushed Op) (c : Change Op)
      → client_seq c ≡ suc n
      → p.checkpoint.client_seq ≤ m
      → suc n ≤ m
      → (suc n ≤ (push_change p c).checkpoint.client_seq)
        × ((push_change p c).checkpoint.client_seq ≤ m)
  unfolding push_change sync_client_seq next_server_seq increase_server_seq
  push_change-bounds n m p c h k l = (ground arith, ground arith)

  push_all-client_seq :
      (n : ℕ) (p : Pushed Op) (cs : List (Change Op))
      → IsConsecutive n cs
      → n ≤ p.checkpoint.client_seq
      → p.checkpoint.client_seq ≤ n + length cs
      → (push_all p cs).checkpoint.client_seq ≡ n + length cs
  unfolding push_all
  push_all-client_seq n p [] h l u = omega arith
  push_all-client_seq n p (c ∷ cs) h l u =
      let (low, high) =
        push_change-bounds n (suc n + length cs) p c h.0 (omega arith) (omega arith) in
      push_all-client_seq (suc n) (push_change p c) cs h.1 low high ∙ omega arith

  list_end : (cs : List (Change Op)) → length cs ≡ 0 → cs ≡ []
  list_end [] h = refl
  list_end (c ∷ cs) h = ground arith

module _ {Op Root Error : Type 0} (edit : Editing Op Root Error) where
  -- When the waiting changes of a document, numbered without a gap from its checkpoint on, are
  -- pushed to a server that has seen any part of them, the server ends at the number of the
  -- document's last change; and once the document has applied an answer with that number and no
  -- change of the answer fails, no change is waiting, and the document's checkpoint has the same
  -- number.
  pub exchange-drains :
      (d : Document Op Root) (client_info : ClientInfo) (doc_info : DocInfo) (answer : Pack Op)
      → IsQueued d.doc
      → d.doc.checkpoint.client_seq ≤ (checkpoint_of client_info doc_info.id).client_seq
      → (checkpoint_of client_info doc_info.id).client_seq ≤ d.doc.change_id.client_seq
      → let p = push_changes client_info doc_info (create_change_pack d.doc) in
        answer.checkpoint.client_seq ≡ p.checkpoint.client_seq
        → (apply_pack edit d answer).1 ≡ none
        → let e = (apply_pack edit d answer).0.doc in
          (p.checkpoint.client_seq ≡ d.doc.change_id.client_seq)
          × (e.local_changes ≡ [])
          × (e.checkpoint.client_seq ≡ p.checkpoint.client_seq)
  unfolding push_changes create_change_pack
  exchange-drains d client_info doc_info answer q l u a r =
      let start : Pushed Op = record {
        checkpoint = checkpoint_of client_info doc_info.id;
        doc_info = doc_info;
        changes = [];
      } in
      let pushed =
        push_all-client_seq d.doc.checkpoint.client_seq start d.doc.local_changes q.consecutive l
          (rw (← q.last) u)
        ∙ sym q.last in
      let acknowledged = a ∙ pushed in
      let (queued, own, number) =
        apply_pack-IsQueued edit d answer (omega (arith, q.last, acknowledged))
          (omega (arith, acknowledged)) q in
      (
        pushed,
        list_end (apply_pack edit d answer).0.doc.local_changes
            (omega (arith, queued.last, own, number r, acknowledged)),
        number r ∙ a,
      )
