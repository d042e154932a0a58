-- ===== src/Server/Tests.antt =====
-- Runs of client_info.go and packs.go, and instances of the theorems on them.
use Prim.Native.String.{String}
use rotty.Prelude.{ℕ, ◌+◌, ◌≡◌, ◌≢◌, refl, sym, true, false, none, [], ◌∷◌, inl, inr, arith, length}
use rotty.Prelude.Assoc.{lookup, insert}
use rotty.Checkpoint.{new, initial, next_server_seq, sync_client_seq}
use rotty.Change.Pack.{Pack, new_pack}
use rotty.Change.Change.{set_server_seq}
use rotty.Document.{create_change_pack}
use rotty.Document.Client.{apply_pack}
use rotty.Document.Tests.{adding, key, add_op, waiting, waiting-IsQueued}
use rotty.Server.ClientInfo.{
  ClientInfo, DocInfo, activated, attached, document_not_attached, document_already_attached, fresh,
  find_document, attach_document, detach_document, ensure_document_attached, is_attached,
  checkpoint_of, update_checkpoint, increase_server_seq,
}
use rotty.Server.ClientInfo.Lifecycle.{attach_document-detach_document}
use rotty.Server.Push.{push_change, push_all, push_changes}
use rotty.Server.Push.Unseen.{unseen, numbered, push_changes-unseen}
use rotty.Server.Push.Again.{push_changes-again}
use rotty.Server.Exchange.{exchange-drains}

abbrev empty : ClientInfo
empty = record { id = "i"; key = "k"; status = activated; documents = [] }

abbrev joined : ClientInfo
joined = record empty { documents = ("d", fresh) ∷ [] }

attach : attach_document empty "d" ≡ inr joined
unfolding attach_document lookup insert
attach = refl

-- The server has the changes of the client up to the second.
abbrev client_info : ClientInfo
client_info = record empty {
  documents = ("d", record { status = attached; server_seq = 5; client_seq = 2 }) ∷ [];
}

abbrev doc_info : DocInfo
doc_info = record { id = "d"; key = b'c' ∷ b'$' ∷ b'd' ∷ []; server_seq = 8 }

abbrev pack : Pack ℕ
pack = new_pack key (new 4 3) (add_op 2 8 3 ∷ add_op 3 9 4 ∷ []) []

pushed : push_changes client_info doc_info pack ≡ record {
  checkpoint = new 9 3;
  doc_info = record doc_info { server_seq = 9 };
  changes = set_server_seq (add_op 3 9 4) 9 ∷ [];
}
unfolding push_changes push_all push_change checkpoint_of lookup increase_server_seq next_server_seq
    sync_client_seq
pushed = refl

attach_document-detach_document_example :
    (is_attached joined "d" ≡ inr true)
    × (checkpoint_of joined "d" ≡ initial)
    × (attach_document joined "d" ≡ inl document_already_attached)
    × ((k : ClientInfo) × (detach_document joined "d" ≡ inr k)
        × (is_attached k "d" ≡ inr false)
        × (ensure_document_attached k "d" ≡ inl document_not_attached)
        × (checkpoint_of k "d" ≡ initial)
        × ((other : String) → "d" ≢ other → find_document k other ≡ find_document empty other))
attach_document-detach_document_example = attach_document-detach_document empty joined "d" attach

push_changes-unseen_example :
    let p = push_changes client_info doc_info pack in
    let new_ones = unseen (checkpoint_of client_info "d").client_seq pack.changes in
    (p.changes ≡ numbered 8 new_ones) × (p.doc_info.server_seq ≡ 8 + length new_ones)
push_changes-unseen_example =
    push_changes-unseen client_info doc_info pack ((omega arith, tt), (tt, tt)) (omega arith)

-- The client's record with the checkpoint of the answer.
abbrev answered : ClientInfo
answered = record empty {
  documents = ("d", record { status = attached; server_seq = 9; client_seq = 3 }) ∷ [];
}

answered-stored :
    update_checkpoint client_info "d"
      (next_server_seq (push_changes client_info doc_info pack).checkpoint 9)
    ≡ inr answered
unfolding update_checkpoint lookup insert push_changes push_all push_change checkpoint_of
    increase_server_seq next_server_seq sync_client_seq
answered-stored = refl

push_changes-again_example :
    push_changes answered (push_changes client_info doc_info pack).doc_info pack ≡ record {
      checkpoint = next_server_seq (push_changes client_info doc_info pack).checkpoint 9;
      doc_info = (push_changes client_info doc_info pack).doc_info;
      changes = [];
    }
push_changes-again_example = push_changes-again client_info answered doc_info pack 9 answered-stored

abbrev last_answer : Pack ℕ
last_answer = new_pack key (new 9 3) [] []

last_answer-applied : (apply_pack adding waiting last_answer).1 ≡ none
unfolding apply_pack
last_answer-applied = refl

seen : (checkpoint_of client_info "d").client_seq ≡ 2
unfolding checkpoint_of lookup
seen = refl

acknowledged :
    (push_changes client_info doc_info (create_change_pack waiting.doc)).checkpoint.client_seq ≡ 3
unfolding create_change_pack push_changes push_all push_change checkpoint_of lookup
    increase_server_seq next_server_seq sync_client_seq
acknowledged = refl

exchange-drains_example :
    let p = push_changes client_info doc_info (create_change_pack waiting.doc) in
    let e = (apply_pack adding waiting last_answer).0.doc in
    (p.checkpoint.client_seq ≡ 3)
    × (e.local_changes ≡ [])
    × (e.checkpoint.client_seq ≡ p.checkpoint.client_seq)
exchange-drains_example =
    exchange-drains adding waiting client_info doc_info last_answer waiting-IsQueued
      (omega (arith, seen)) (omega (arith, seen)) (sym acknowledged) last_answer-applied
