-- ===== src/Server/Push/Unseen.antt =====
-- `pushChanges` stores the changes that the server has not seen, in order, and numbers them.
use mathlib.Core.List.{append_assoc, append-nil}
use rotty.Prelude.{
  ℕ, suc, ◌+◌, ◌%◌, ◌^◌, ◌<◌, ◌≡◌, refl, sym, ◌∙◌, false, ltb, lt→ltb, ltb→lt, Bool-cases, inl, inr,
  if◌then◌else◌, List, [], ◌∷◌, ◌++◌, length, All, All-imp, arith,
}
use rotty.Checkpoint.{next_server_seq, sync_client_seq}
use rotty.Change.Change.{Change, client_seq, set_server_seq}
use rotty.Change.Pack.{Pack}
use rotty.Server.ClientInfo.{ClientInfo, DocInfo, increase_server_seq, checkpoint_of}
use rotty.Server.Push.{Pushed, push_change, push_all, push_changes}

next_number : (n : ℕ) → n + 1 < 2 ^ 64 → (n + 1) % 2 ^ 64 ≡ suc n
next_number n b = omega arith

module _ {Op : Type 0} where
  -- The changes of a client that come after a sequence number.
  abbrev pub unseen : ℕ → List (Change Op) → List (Change Op)
  unseen seq [] = []
  unseen seq (c ∷ cs) =
      let rest = unseen seq cs in if ltb seq (client_seq c) then c ∷ rest else rest

  -- The client's number of the last of some changes, or else another number.
  abbrev pub last_number : ℕ → List (Change Op) → ℕ
  last_number seq [] = seq
  last_number seq (c ∷ cs) = last_number (client_seq c) cs

  -- The changes under the numbers that follow a number of the document.
  abbrev pub numbered : ℕ → List (Change Op) → List (Change Op)
  numbered n [] = []
  numbered n (c ∷ cs) = set_server_seq c (suc n) ∷ numbered (suc n) cs

  abbrev pub IsAbove : ℕ → List (Change Op) → Type 0
  IsAbove seq = All (λ c. seq < client_seq c)

  -- Each change of a pack is numbered above the ones in front of it.
  abbrev pub IsInOrder : List (Change Op) → Type 0
  IsInOrder [] = Unit
  IsInOrder (c ∷ cs) = IsAbove (client_seq c) cs × IsInOrder cs

  unseen-above : (seq : ℕ) (cs : List (Change Op)) → IsAbove seq cs → unseen seq cs ≡ cs
  unseen-above seq [] h = refl
  unseen-above seq (c ∷ cs) h = ground (arith, h.0, unseen-above seq cs h.1)

  IsAbove-trans : (s t : ℕ) (cs : List (Change Op)) → s < t → IsAbove t cs → IsAbove s cs
  IsAbove-trans s t cs l h = All-imp (λ c k. omega arith) cs h

  push_change-new :
      (p : Pushed Op) (c : Change Op)
      → p.checkpoint.client_seq < client_seq c
      → p.doc_info.server_seq + 1 < 2 ^ 64
      → let q = push_change p c in
        (q.checkpoint.client_seq ≡ client_seq c)
        × (q.doc_info.server_seq ≡ suc p.doc_info.server_seq)
        × (q.changes ≡ p.changes ++ set_server_seq c (suc p.doc_info.server_seq) ∷ [])
  unfolding push_change sync_client_seq next_server_seq increase_server_seq
  push_change-new p c l b =
      let e = next_number p.doc_info.server_seq b in
      rw (lt→ltb p.checkpoint.client_seq (client_seq c) l, e) (ground arith, refl, refl)

  pub push_change-seen :
      (p : Pushed Op) (c : Change Op)
      → ltb p.checkpoint.client_seq (client_seq c) ≡ false
      → push_change p c ≡ p
  unfolding push_change sync_client_seq
  push_change-seen p c h = rw h refl

  push_all-unseen :
      (p : Pushed Op) (cs : List (Change Op))
      → IsInOrder cs
      → p.doc_info.server_seq + length cs < 2 ^ 64
      → ((push_all p cs).changes
          ≡ p.changes ++ numbered p.doc_info.server_seq (unseen p.checkpoint.client_seq cs))
        × ((push_all p cs).doc_info.server_seq
            ≡ p.doc_info.server_seq + length (unseen p.checkpoint.client_seq cs))
  unfolding push_all
  push_all-unseen p [] o b = (sym (append-nil p.changes), ground arith)
  push_all-unseen p (c ∷ cs) o b = elim (Bool-cases (ltb p.checkpoint.client_seq (client_seq c))) [
    | inl h ↦
        (let q = push_change p c in
          let l = ltb→lt p.checkpoint.client_seq (client_seq c) h in
          let (seq, number, stored) = push_change-new p c l (omega arith) in
          let (changes, count) = push_all-unseen q cs o.1 (omega arith) in
          let above = unseen-above (client_seq c) cs o.0 in
          let above' =
            unseen-above p.checkpoint.client_seq cs
              (IsAbove-trans p.checkpoint.client_seq (client_seq c) cs l o.0) in
          (
            changes ∙ rw (stored, number, seq, above, h, above') (simp append_assoc),
            count ∙ rw (number, seq, above, h, above') (ground arith),
          ))
    | inr h ↦ rw (h, push_all) (push_all-unseen p cs o.1 (omega arith))
  ]

  push_all-client_seq :
      (p : Pushed Op) (cs : List (Change Op))
      → IsInOrder cs
      → p.doc_info.server_seq + length cs < 2 ^ 64
      → (push_all p cs).checkpoint.client_seq
        ≡ last_number p.checkpoint.client_seq (unseen p.checkpoint.client_seq cs)
  unfolding push_all
  push_all-client_seq p [] o b = refl
  push_all-client_seq p (c ∷ cs) o b =
      elim (Bool-cases (ltb p.checkpoint.client_seq (client_seq c))) [
        | inl h ↦
            (let q = push_change p c in
              let l = ltb→lt p.checkpoint.client_seq (client_seq c) h in
              let (seq, number, stored) = push_change-new p c l (omega arith) in
              let rest = push_all-client_seq q cs o.1 (omega arith) in
              let above = unseen-above (client_seq c) cs o.0 in
              let above' =
                unseen-above p.checkpoint.client_seq cs
                  (IsAbove-trans p.checkpoint.client_seq (client_seq c) cs l o.0) in
              rest ∙ rw (seq, above, h, above') refl)
        | inr h ↦ rw (h, push_all) (push_all-client_seq p cs o.1 (omega arith))
      ]

  -- After a pack the checkpoint has the client's number of the last change that was stored.
  pub push_changes-client_seq :
      (client_info : ClientInfo) (doc_info : DocInfo) (pack : Pack Op)
      → IsInOrder pack.changes
      → doc_info.server_seq + length pack.changes < 2 ^ 64
      → let recorded = (checkpoint_of client_info doc_info.id).client_seq in
        (push_changes client_info doc_info pack).checkpoint.client_seq
        ≡ last_number recorded (unseen recorded pack.changes)
  unfolding push_changes
  push_changes-client_seq client_info doc_info pack o b =
      push_all-client_seq
        (record {
          checkpoint = checkpoint_of client_info doc_info.id;
          doc_info = doc_info;
          changes = [];
        })
        pack.changes o b

  -- Of a pack whose changes are in order, the server stores those that come after the sequence number
  -- that it has of the client, in their order and no others, under the numbers that follow the
  -- document's, and the document's number goes up by as many; as long as the numbers fit in 64 bits.
  pub push_changes-unseen :
      (client_info : ClientInfo) (doc_info : DocInfo) (pack : Pack Op)
      → IsInOrder pack.changes
      → doc_info.server_seq + length pack.changes < 2 ^ 64
      → let p = push_changes client_info doc_info pack in
        let new_ones = unseen (checkpoint_of client_info doc_info.id).client_seq pack.changes in
        (p.changes ≡ numbered doc_info.server_seq new_ones)
        × (p.doc_info.server_seq ≡ doc_info.server_seq + length new_ones)
  unfolding push_changes
  push_changes-unseen client_info doc_info pack o b =
      push_all-unseen
        (record {
          checkpoint = checkpoint_of client_info doc_info.id;
          doc_info = doc_info;
          changes = [];
        })
        pack.changes o b
