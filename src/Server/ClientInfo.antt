-- ===== src/Server/ClientInfo.antt =====
-- yorkie/backend/db/client_info.go and doc_info.go: what the server keeps of a client and of a document.
-- A nil map of documents is an empty one; the times of creation and update are left out.
pub mod Lifecycle
use Prim.Native.String.{String}
use rotty.Prelude.{
  ℕ, ◌+◌, ◌%◌, ◌^◌, Bool, true, false, Option, none, some, if◌then◌else◌, List, [], ◌∷◌, ◌⊎◌, inl,
  inr,
}
use rotty.Prelude.Assoc.{string_keyed, lookup, insert}
use rotty.Checkpoint.{Checkpoint, new, initial}

pub data ClientStatus : Type 0 where
  deactivated : ClientStatus
  activated : ClientStatus

pub data DocumentStatus : Type 0 where
  attached : DocumentStatus
  detached : DocumentStatus

pub data ClientError : Type 0 where
  client_not_activated : ClientError
  document_not_attached : ClientError
  document_never_attached : ClientError
  document_already_attached : ClientError

pub record ClientDocInfo : Type 0 where
  pub status : DocumentStatus
  pub server_seq : ℕ
  pub client_seq : ℕ

pub record ClientInfo : Type 0 where
  pub id : String
  pub key : String
  pub status : ClientStatus
  pub documents : List (String × ClientDocInfo)

pub record DocInfo : Type 0 where
  pub id : String
  pub key : List ℕ
  pub server_seq : ℕ

-- `server_seq` is a uint64.
unfoldable pub increase_server_seq : DocInfo → DocInfo
increase_server_seq info = record info { server_seq = (info.server_seq + 1) % 2 ^ 64 }

abbrev pub find_document : ClientInfo → String → Option ClientDocInfo
find_document i doc_id = lookup doc_id i.documents

abbrev pub write_document : ClientInfo → String → ClientDocInfo → ClientInfo
write_document i doc_id info = record i { documents = insert doc_id info i.documents }

abbrev pub fresh : ClientDocInfo
fresh = record { status = attached; server_seq = 0; client_seq = 0 }

abbrev attach_unless_attached :
    ClientInfo → String → Option ClientDocInfo → ClientError ⊎ ClientInfo
attach_unless_attached i doc_id none = inr (write_document i doc_id fresh)
attach_unless_attached i doc_id (some info) = elim info.status [
  | attached ↦ inl document_already_attached
  | detached ↦ inr (write_document i doc_id fresh)
]

unfoldable pub attach_document : ClientInfo → String → ClientError ⊎ ClientInfo
attach_document i doc_id = elim i.status [
  | deactivated ↦ inl client_not_activated
  | activated ↦ attach_unless_attached i doc_id (find_document i doc_id)
]

-- The entry of a document that is attached, which `EnsureDocumentAttached` only tests for.
abbrev attached_entry : Option ClientDocInfo → ClientError ⊎ ClientDocInfo
attached_entry none = inl document_not_attached
attached_entry (some info) = elim info.status [
  | attached ↦ inr info
  | detached ↦ inl document_not_attached
]

pub ensure_document_attached : ClientInfo → String → ClientError ⊎ ClientDocInfo
ensure_document_attached i doc_id = elim i.status [
  | deactivated ↦ inl client_not_activated
  | activated ↦ attached_entry (find_document i doc_id)
]

pub detach_document : ClientInfo → String → ClientError ⊎ ClientInfo
unfolding ensure_document_attached
detach_document i doc_id = elim (ensure_document_attached i doc_id) [
  | inl e ↦ inl e
  | inr info ↦
      inr (write_document i doc_id (record { status = detached; server_seq = 0; client_seq = 0 }))
]

pub is_attached : ClientInfo → String → ClientError ⊎ Bool
is_attached i doc_id = elim (find_document i doc_id) [
  | none ↦ inl document_never_attached
  | some info ↦ inr (elim info.status [ attached ↦ true | detached ↦ false ])
]

unfoldable pub checkpoint_of : ClientInfo → String → Checkpoint
checkpoint_of i doc_id = elim (find_document i doc_id) [
  | none ↦ initial
  | some info ↦ new info.server_seq info.client_seq
]

unfoldable pub update_checkpoint : ClientInfo → String → Checkpoint → ClientError ⊎ ClientInfo
update_checkpoint i doc_id cp = elim (find_document i doc_id) [
  | none ↦ inl document_never_attached
  | some info ↦ inr (
      write_document i doc_id
        (record { status = info.status; server_seq = cp.server_seq; client_seq = cp.client_seq }))
]
