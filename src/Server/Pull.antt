-- ===== src/Server/Pull.antt =====
-- `pullPack` of yorkie/packs/packs.go: what the server answers. The queries of the database and the bytes
-- of an object are parameters.
pub mod Complete
pub mod Tests
use rotty.Prelude.{
  ℕ, ◌+◌, ◌-◌, ◌%◌, ◌^◌, ltb, leb, Option, none, some, if◌then◌else◌, List, [], ◌∷◌, ◌⊎◌, inl, inr,
}
use rotty.Key.{Key, from_bson_key}
use rotty.Checkpoint.{Checkpoint, initial, next_server_seq}
use rotty.Change.Id.{initial_id}
use rotty.Change.Change.{Change, Editing}
use rotty.Change.Pack.{Pack, new_pack}
use rotty.Document.{InternalDocument, new_internal_document, apply_change_pack}
use rotty.Server.ClientInfo.{DocInfo}

pub record SnapshotInfo : Type 0 where
  pub server_seq : ℕ
  pub snapshot : List ℕ

-- The calls of the database for one document, and `converter.ObjectToBytes`.
pub record Backend (Op Root Error : Type 0) : Type 0 where
  pub find_changes_between : ℕ → ℕ → Error ⊎ List (Change Op)
  pub find_last_snapshot : Error ⊎ SnapshotInfo
  pub object_to_bytes : Root → Error ⊎ List ℕ
  pub snapshot_threshold : ℕ

pub data PullError (Error : Type 0) : Type 0 where
  bad_key : PullError Error
  invalid_server_seq : PullError Error
  failed : Error → PullError Error

module _ {Error : Type 0} where
  -- The rest of a step that may have failed.
  abbrev pub on_success :
      {A B : Type 0} → Error ⊎ A → (A → PullError Error ⊎ B) → PullError Error ⊎ B
  on_success (inl e) f = inl (failed e)
  on_success (inr a) f = f a

module _ {Op Root Error : Type 0} (edit : Editing Op Root Error) (be : Backend Op Root Error) where
  -- `+1` is on a uint64.
  pub pull_changes : DocInfo → Key → Pack Op → Checkpoint → ℕ → PullError Error ⊎ Pack Op
  pull_changes doc_info key request pushed_cp initial_server_seq =
      on_success
        (be.find_changes_between ((request.checkpoint.server_seq + 1) % 2 ^ 64) initial_server_seq)
        λ cs. inr (new_pack key (next_server_seq pushed_cp doc_info.server_seq) cs [])

  -- `NewInternalDocumentFromSnapshot`
  abbrev pub document_from_snapshot : Key → ℕ → Root → InternalDocument Op Root
  document_from_snapshot key server_seq object = record (new_internal_document key object) {
    checkpoint = next_server_seq initial server_seq;
  }

  apply_to_snapshot :
      DocInfo → Key → SnapshotInfo → Root → List (Change Op) → PullError Error ⊎ List ℕ
  apply_to_snapshot doc_info key info object cs =
      let (doc, error) =
        apply_change_pack edit (document_from_snapshot key info.server_seq object)
          (new_pack key (next_server_seq initial doc_info.server_seq) cs []) in
      elim error [
        | none ↦ on_success (be.object_to_bytes doc.root) λ bytes. inr bytes
        | some e ↦ inl (failed e)
      ]

  pub pull_snapshot : DocInfo → Key → Checkpoint → ℕ → PullError Error ⊎ Pack Op
  unfolding apply_to_snapshot
  pull_snapshot doc_info key pushed_cp initial_server_seq =
      let answer =
        λ (bytes : List ℕ). new_pack key (next_server_seq pushed_cp doc_info.server_seq) [] bytes in
      on_success be.find_last_snapshot λ info.
        if leb initial_server_seq info.server_seq
        then inr (answer info.snapshot)
        else on_success (edit.bytes_to_object info.snapshot) λ object.
          on_success (be.find_changes_between ((info.server_seq + 1) % 2 ^ 64) initial_server_seq)
            λ cs. elim (apply_to_snapshot doc_info key info object cs) [
              | inl e ↦ inl e
              | inr bytes ↦ inr (answer bytes)
            ]

  pub pull_pack : DocInfo → Pack Op → Checkpoint → ℕ → PullError Error ⊎ Pack Op
  unfolding pull_changes pull_snapshot
  pull_pack doc_info request pushed_cp initial_server_seq = elim (from_bson_key doc_info.key) [
    | none ↦ inl bad_key
    | some key ↦
        if ltb initial_server_seq request.checkpoint.server_seq
        then inl invalid_server_seq
        else if ltb (initial_server_seq - request.checkpoint.server_seq) be.snapshot_threshold
        then pull_changes doc_info key request pushed_cp initial_server_seq
        else pull_snapshot doc_info key pushed_cp initial_server_seq
  ]
