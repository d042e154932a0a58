-- ===== src/Server/Pull/Complete.antt =====
-- What a client is sent, together with what it pushed itself, is all that it had not seen.
use rotty.Prelude.{
  ℕ, suc, ◌+◌, ◌-◌, ◌%◌, ◌^◌, ◌≤◌, ◌<◌, ◌≡◌, refl, sym, ap, ◌∙◌, ltb, lt→ltb, leb, false, ◌&&◌,
  none, some, if◌then◌else◌, List, [], ◌∷◌, ◌++◌, length, inr, All, arith,
}
use rotty.Key.{Key, from_bson_key}
use rotty.Checkpoint.{Checkpoint, next_server_seq}
use rotty.Change.Change.{Change, Editing}
use rotty.Change.Pack.{Pack, new_pack}
use rotty.Server.ClientInfo.{ClientInfo, DocInfo, checkpoint_of, increase_server_seq}
use rotty.Server.Push.{Pushed, push_change, push_all, push_changes}
use rotty.Server.Push.Unseen.{
  unseen, numbered, last_number, IsInOrder, push_changes-unseen, push_changes-client_seq,
}
use rotty.Server.Push.Again.{next_server_seq-client_seq}
use rotty.Server.Pull.{Backend, pull_changes, pull_pack}

module _ {Op : Type 0} where
  abbrev pub number_of : Change Op → ℕ
  number_of c = elim c.server_seq [ none ↦ 0 | some n ↦ n ]

  -- The changes that the database keeps under the numbers from one to another.
  abbrev pub between : ℕ → ℕ → List (Change Op) → List (Change Op)
  between from to [] = []
  between from to (c ∷ cs) =
      let rest = between from to cs in
      if leb from (number_of c) && leb (number_of c) to then c ∷ rest else rest

  -- The changes above a number.
  abbrev pub newer : ℕ → List (Change Op) → List (Change Op)
  newer n [] = []
  newer n (c ∷ cs) = let rest = newer n cs in if ltb n (number_of c) then c ∷ rest else rest

  between-newer :
      (n top : ℕ) (cs : List (Change Op))
      → All (λ c. number_of c ≤ top) cs
      → between (suc n) top cs ≡ newer n cs
  between-newer n top [] h = refl
  between-newer n top (c ∷ cs) h = ground (arith, h.0, between-newer n top cs h.1)

  newer-append : (n : ℕ) (xs ys : List (Change Op)) → newer n (xs ++ ys) ≡ newer n xs ++ newer n ys
  newer-append n [] ys = refl
  newer-append n (x ∷ xs) ys = ground (arith, newer-append n xs ys)

  newer-numbered :
      (n m : ℕ) (cs : List (Change Op)) → n ≤ m → newer n (numbered m cs) ≡ numbered m cs
  newer-numbered n m [] h = refl
  newer-numbered n m (c ∷ cs) h = ground (arith, newer-numbered n (suc m) cs (omega arith))

next_server_seq-server_seq : (cp : Checkpoint) (n : ℕ) → (next_server_seq cp n).server_seq ≡ n
unfolding next_server_seq
next_server_seq-server_seq cp n = ground arith

module _ {Op : Type 0} where
  push_change-key :
      (p : Pushed Op) (c : Change Op) → (push_change p c).doc_info.key ≡ p.doc_info.key
  unfolding push_change increase_server_seq
  push_change-key p c = ground arith

  push_all-key :
      (p : Pushed Op) (cs : List (Change Op)) → (push_all p cs).doc_info.key ≡ p.doc_info.key
  unfolding push_all
  push_all-key p [] = refl
  push_all-key p (c ∷ cs) = push_all-key (push_change p c) cs ∙ push_change-key p c

  push_changes-key :
      (client_info : ClientInfo) (doc_info : DocInfo) (pack : Pack Op)
      → (push_changes client_info doc_info pack).doc_info.key ≡ doc_info.key
  unfolding push_changes
  push_changes-key client_info doc_info pack =
      push_all-key
        (record {
          checkpoint = checkpoint_of client_info doc_info.id;
          doc_info = doc_info;
          changes = [];
        })
        pack.changes

not_behind : (n m : ℕ) → n ≤ m → ltb m n ≡ false
not_behind n m h = ground arith

next_number : (n : ℕ) → n + 1 < 2 ^ 64 → (n + 1) % 2 ^ 64 ≡ suc n
next_number n b = omega arith

module _ {Op Root Error : Type 0} (edit : Editing Op Root Error) (be : Backend Op Root Error) where
  pull_pack-in_reach :
      (doc_info : DocInfo) (request : Pack Op) (cp : Checkpoint) (initial : ℕ) (key : Key)
      (cs : List (Change Op))
      → from_bson_key doc_info.key ≡ some key
      → request.checkpoint.server_seq ≤ initial
      → initial - request.checkpoint.server_seq < be.snapshot_threshold
      → be.find_changes_between ((request.checkpoint.server_seq + 1) % 2 ^ 64) initial ≡ inr cs
      → pull_pack edit be doc_info request cp initial
        ≡ inr (new_pack key (next_server_seq cp doc_info.server_seq) cs [])
  unfolding pull_pack pull_changes
  pull_pack-in_reach doc_info request cp initial key cs k l t f =
      rw
        (
          k,
          not_behind request.checkpoint.server_seq initial l,
          lt→ltb (initial - request.checkpoint.server_seq) be.snapshot_threshold t,
          f,
          pull_pack,
        )
        refl

  -- A client asks with the server number up to which it has the changes. Suppose that the name of the
  -- document reads as a key, that the database gives the stored changes between two numbers and none
  -- is above the document's number, that the changes of the request are in order and their numbers
  -- fit in 64 bits, and that the client's number is not above the document's and fewer than the
  -- threshold behind it. Then the client is sent the changes that, with the ones of its own pack that
  -- are stored now, are exactly those above its number, in order; and a checkpoint with the new
  -- number of the document and with the client's number of the last change that was stored now, or,
  -- if none was, the one that the server had recorded of the client.
  pub pull_pack-newer :
      (client_info : ClientInfo) (doc_info : DocInfo) (request : Pack Op) (key : Key)
      (store : List (Change Op))
      → from_bson_key doc_info.key ≡ some key
      → ((from to : ℕ) → be.find_changes_between from to ≡ inr (between from to store))
      → All (λ c. number_of c ≤ doc_info.server_seq) store
      → IsInOrder request.changes
      → doc_info.server_seq + length request.changes + 1 < 2 ^ 64
      → request.checkpoint.server_seq ≤ doc_info.server_seq
      → doc_info.server_seq - request.checkpoint.server_seq < be.snapshot_threshold
      → let p = push_changes client_info doc_info request in
        (answer : Pack Op) × (pull_pack edit be p.doc_info request p.checkpoint doc_info.server_seq
          ≡ inr answer)
        × (answer.changes ++ p.changes ≡ newer request.checkpoint.server_seq (store ++ p.changes))
        × (answer.checkpoint.server_seq ≡ p.doc_info.server_seq)
        × (let recorded = (checkpoint_of client_info doc_info.id).client_seq in
            answer.checkpoint.client_seq ≡ last_number recorded (unseen recorded request.changes))
  pull_pack-newer client_info doc_info request key store k f h o b l t =
      let p = push_changes client_info doc_info request in
      let n = request.checkpoint.server_seq in
      let new_ones = unseen (checkpoint_of client_info doc_info.id).client_seq request.changes in
      let (stored, count) = push_changes-unseen client_info doc_info request o (omega arith) in
      (
        new_pack key (next_server_seq p.checkpoint p.doc_info.server_seq)
            (between (suc n) doc_info.server_seq store) [],
        pull_pack-in_reach p.doc_info request p.checkpoint doc_info.server_seq key
            (between (suc n) doc_info.server_seq store)
            (ap from_bson_key (push_changes-key client_info doc_info request) ∙ k) l t
            (ap (λ from. be.find_changes_between from doc_info.server_seq)
                (next_number n (omega arith))
              ∙ f (suc n) doc_info.server_seq),
        ap (λ xs. xs ++ p.changes) (between-newer n doc_info.server_seq store h)
            ∙ sym (
                newer-append n store p.changes
                ∙ ap (λ ys. newer n store ++ ys)
                    (rw stored (newer-numbered n doc_info.server_seq new_ones l))),
        next_server_seq-server_seq p.checkpoint p.doc_info.server_seq,
        next_server_seq-client_seq p.checkpoint p.doc_info.server_seq
            ∙ push_changes-client_seq client_info doc_info request o (omega arith),
      )
