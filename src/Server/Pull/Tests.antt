-- ===== src/Server/Pull/Tests.antt =====
-- A document with two stored changes, and an instance of the theorem on `pullPack`.
use rotty.Prelude.{ℕ, ◌≡◌, refl, some, List, [], ◌∷◌, ◌++◌, inl, inr, arith}
use rotty.Checkpoint.{new}
use rotty.Key.{from_bson_key, split}
use rotty.Change.Change.{Change, set_server_seq}
use rotty.Change.Pack.{Pack, new_pack}
use rotty.Document.Tests.{adding, key, add_op}
use rotty.Prelude.Assoc.{lookup}
use rotty.Server.ClientInfo.{checkpoint_of, ClientInfo, DocInfo, activated, attached}
use rotty.Server.Push.{push_changes}
use rotty.Server.Pull.{Backend, pull_pack}
use rotty.Server.Pull.Complete.{between, newer, pull_pack-newer}

abbrev store : List (Change ℕ)
store = set_server_seq (add_op 1 3 5) 1 ∷ set_server_seq (add_op 1 4 6) 2 ∷ []

abbrev backend : Backend ℕ ℕ ℕ
backend = record {
  find_changes_between = λ from to. inr (between from to store);
  find_last_snapshot = inl 1;
  object_to_bytes = λ root. inl 2;
  snapshot_threshold = 100;
}

abbrev client_info : ClientInfo
client_info = record {
  id = "i";
  key = "k";
  status = activated;
  documents = ("d", record { status = attached; server_seq = 1; client_seq = 1 }) ∷ [];
}

abbrev doc_info : DocInfo
doc_info = record { id = "d"; key = b'c' ∷ b'$' ∷ b'd' ∷ []; server_seq = 2 }

-- The client has the first change, and pushes one of its own.
abbrev request : Pack ℕ
request = new_pack key (new 1 2) (add_op 2 8 3 ∷ []) []

key-read : from_bson_key doc_info.key ≡ some key
unfolding from_bson_key split
key-read = refl

pull_pack-newer_example :
    let p = push_changes client_info doc_info request in
    (answer : Pack ℕ) × (pull_pack adding backend p.doc_info request p.checkpoint 2 ≡ inr answer)
    × (answer.changes ++ p.changes ≡ newer 1 (store ++ p.changes))
    × (answer.checkpoint.server_seq ≡ p.doc_info.server_seq)
    × (answer.checkpoint.client_seq ≡ 2)
unfolding checkpoint_of lookup
pull_pack-newer_example =
    pull_pack-newer adding backend client_info doc_info request key store key-read (λ from to. refl)
      (omega arith, (omega arith, tt)) (tt, tt) (omega arith) (omega arith) (omega arith)
