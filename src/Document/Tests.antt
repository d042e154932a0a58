-- ===== src/Document/Tests.antt =====
-- A document whose root is a number that each operation adds to, and instances of the theorems on documents.
-- An operation of 0 is refused.
use rotty.Prelude.{
  ℕ, ◌+◌, ◌≤◌, ◌==◌, ◌≡◌, refl, true, none, some, Option, [], ◌∷◌, inr, arith, if◌then◌else◌, All,
}
use rotty.Checkpoint.{new}
use rotty.Time.ActorId.{initial_actor_id}
use rotty.Time.Ticket.{Ticket, after}
use rotty.Key.{Key}
use rotty.Change.Id.{new_id, next, new_time_ticket}
use rotty.Change.Context.{Context}
use rotty.Change.Change.{Editing, Change, new_change}
use rotty.Change.Pack.{Pack, new_pack}
use rotty.Document.{InternalDocument, new_internal_document, execute_changes, apply_changes}
use rotty.Document.Client.{Document, update, apply_pack}
use rotty.Document.Queue.{IsQueued}
use rotty.Document.Client.Queue.{update-IsQueued, apply_pack-IsQueued}
use rotty.Document.Clock.{apply_changes-after}

abbrev pub adding : Editing ℕ ℕ ℕ
adding = record {
  execute = λ op root. (root + op, if op == 0 then some 1 else none);
  set_op_actor = λ actor op. op;
  deep_copy = λ root. root;
  garbage_collect = λ ticket root. (root, 0);
  bytes_to_object = λ bytes. inr 100;
}

abbrev pub key : Key
key = record { collection = b'c' ∷ []; document = b'd' ∷ [] }

abbrev pub add_op : ℕ → ℕ → ℕ → Change ℕ
add_op client_seq lamport op =
    new_change (new_id client_seq lamport (some initial_actor_id)) "" (op ∷ [])

-- Two changes wait: the second and the third of the client.
abbrev pub waiting : Document ℕ ℕ
waiting = record {
  doc = record {
    key = key;
    status = rotty.Document.attached;
    root = 7;
    checkpoint = new 4 1;
    change_id = new_id 3 9 (some initial_actor_id);
    local_changes = add_op 2 8 3 ∷ add_op 3 9 4 ∷ [];
  };
  clone = none;
}

pub waiting-IsQueued : IsQueued waiting.doc
waiting-IsQueued = record { consecutive = (refl, (refl, tt)); last = refl }

-- The answer acknowledges the second change and brings one of another client.
abbrev pub answer : Pack ℕ
answer = new_pack key (new 6 2) (add_op 5 20 1 ∷ []) []

abbrev edit_five : Context ℕ ℕ → Context ℕ ℕ × Option ℕ
edit_five ctx = (record ctx { operations = 5 ∷ []; root = ctx.root + 5 }, none)

update-IsQueued_example : IsQueued (update adding edit_five "five" waiting).0.doc
update-IsQueued_example =
    update-IsQueued adding edit_five "five" waiting (λ ctx. refl) (omega arith) waiting-IsQueued

apply_pack-IsQueued_example :
    IsQueued (apply_pack adding waiting answer).0.doc
    × ((apply_pack adding waiting answer).0.doc.change_id.client_seq ≡ 3)
    × ((apply_pack adding waiting answer).1 ≡ none
        → (apply_pack adding waiting answer).0.doc.checkpoint.client_seq ≡ 2)
apply_pack-IsQueued_example =
    apply_pack-IsQueued adding waiting answer (omega arith) (omega arith) waiting-IsQueued

applied : (apply_changes adding answer.changes waiting.doc).1 ≡ none
unfolding apply_changes
applied = refl

apply_changes-after_example :
    let fresh =
      new_time_ticket (next (apply_changes adding answer.changes waiting.doc).0.change_id) 1 in
    All
      (λ (c : Change ℕ). (t : Ticket) → t.lamport ≤ c.id.lamport → after fresh t ≡ some true)
      answer.changes
    × ((t : Ticket) → t.lamport ≤ 9 → after fresh t ≡ some true)
apply_changes-after_example =
    apply_changes-after adding answer.changes waiting.doc 20 1 (omega arith) (omega arith, tt)
      (omega arith) applied
