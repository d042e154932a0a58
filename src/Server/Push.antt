-- ===== src/Server/Push.antt =====
-- `pushChanges` of yorkie/packs/packs.go: which changes of a pack are stored, and under which number.
pub mod Unseen
pub mod Again
use rotty.Prelude.{ℕ, ltb, Option, none, some, if◌then◌else◌, List, [], ◌∷◌, ◌++◌}
use rotty.Checkpoint.{Checkpoint, next_server_seq, sync_client_seq}
use rotty.Change.Change.{Change, client_seq, set_server_seq}
use rotty.Change.Pack.{Pack}
use rotty.Server.ClientInfo.{ClientInfo, DocInfo, increase_server_seq, checkpoint_of}

-- The checkpoint, the document and the changes that are to be stored.
pub record Pushed (Op : Type 0) : Type 0 where
  pub checkpoint : Checkpoint
  pub doc_info : DocInfo
  pub changes : List (Change Op)

module _ {Op : Type 0} where
  -- One turn of the loop: a change that the checkpoint has seen is rejected.
  unfoldable pub push_change : Pushed Op → Change Op → Pushed Op
  unfolding sync_client_seq next_server_seq increase_server_seq
  push_change p c =
      if ltb p.checkpoint.client_seq (client_seq c)
      then (let doc_info = increase_server_seq p.doc_info in
          record {
            checkpoint =
                sync_client_seq (next_server_seq p.checkpoint doc_info.server_seq) (client_seq c);
            doc_info = doc_info;
            changes = p.changes ++ set_server_seq c doc_info.server_seq ∷ [];
          })
      else record p { checkpoint = sync_client_seq p.checkpoint (client_seq c) }

  unfoldable pub push_all : Pushed Op → List (Change Op) → Pushed Op
  unfolding push_change
  push_all p [] = p
  push_all p (c ∷ cs) = push_all (push_change p c) cs

  unfoldable pub push_changes : ClientInfo → DocInfo → Pack Op → Pushed Op
  unfolding push_all checkpoint_of
  push_changes client_info doc_info pack =
      push_all
        (record {
          checkpoint = checkpoint_of client_info doc_info.id;
          doc_info = doc_info;
          changes = [];
        })
        pack.changes
