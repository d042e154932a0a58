-- ===== src/Server/ClientInfo/Lifecycle.antt =====
-- A document of a client through attachment and detachment.
use Prim.Native.String.{String}
use rotty.Prelude.{◌≡◌, ◌≢◌, refl, true, false, Option-cases, inl, inr, arith}
use rotty.Prelude.Assoc.{string_keyed, insert, lookup-insert, lookup-insert_self}
use rotty.Checkpoint.{initial}
use rotty.Server.ClientInfo.{
  ClientInfo, ClientDocInfo, activated, detached, document_not_attached, document_already_attached,
  fresh, find_document, write_document, attach_document, detach_document, ensure_document_attached,
  is_attached, checkpoint_of,
}

abbrev pub ended : ClientDocInfo
ended = record { status = detached; server_seq = 0; client_seq = 0 }

-- An attachment that succeeds writes a fresh entry.
attach_document-writes :
    (i j : ClientInfo) (doc_id : String)
    → attach_document i doc_id ≡ inr j
    → (i.status ≡ activated) × (j ≡ write_document i doc_id fresh)
unfolding attach_document
attach_document-writes i j doc_id h = elim (Option-cases (find_document i doc_id)) [
  | inl e ↦ ground arith
  | inr (info, e) ↦ ground arith
]

-- A document that a client has attached is attached, from the initial checkpoint, and cannot be
-- attached again; it can be detached, and then is not attached and has the initial checkpoint; and
-- the entries of other documents are what they were.
pub attach_document-detach_document :
    (i j : ClientInfo) (doc_id : String)
    → attach_document i doc_id ≡ inr j
    → (is_attached j doc_id ≡ inr true)
      × (checkpoint_of j doc_id ≡ initial)
      × (attach_document j doc_id ≡ inl document_already_attached)
      × ((k : ClientInfo) × (detach_document j doc_id ≡ inr k)
          × (is_attached k doc_id ≡ inr false)
          × (ensure_document_attached k doc_id ≡ inl document_not_attached)
          × (checkpoint_of k doc_id ≡ initial)
          × ((other : String) → doc_id ≢ other → find_document k other ≡ find_document i other))
unfolding attach_document detach_document ensure_document_attached is_attached checkpoint_of
attach_document-detach_document i j doc_id h =
    let (active, same) = attach_document-writes i j doc_id h in
    let stored = lookup-insert_self doc_id fresh i.documents in
    let erased = lookup-insert_self doc_id ended (insert doc_id fresh i.documents) in
    (
      rw same (rw (stored, is_attached) refl),
      rw same (rw (stored, checkpoint_of) refl),
      rw same (rw active (rw stored refl)),
      (
        write_document (write_document i doc_id fresh) doc_id ended,
        rw same (rw (active, stored, detach_document) (rw active refl)),
        rw (erased, is_attached) refl,
        rw active (rw erased refl),
        rw (erased, checkpoint_of) refl,
        λ other n. ground (
          arith,
          lookup-insert doc_id other ended (insert doc_id fresh i.documents),
          lookup-insert doc_id other fresh i.documents,
          string_keyed.same_iff doc_id other,
        ),
      ),
    )
