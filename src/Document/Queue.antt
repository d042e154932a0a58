-- ===== src/Document/Queue.antt =====
-- The changes that wait for the server are numbered without a gap from the checkpoint on.
use rotty.Prelude.{
  ℕ, suc, ◌+◌, ◌≤◌, ◌≡◌, refl, sym, ◌∙◌, true, ltb, Bool-cases, ◌⊎◌, inl, inr, List, [], ◌∷◌, ◌++◌,
  length, Option-cases, arith,
}
use rotty.Checkpoint.{Checkpoint, forward, equals}
use rotty.Change.Id.{ChangeId, sync_lamport}
use rotty.Change.Change.{Editing, Change, client_seq, execute}
use rotty.Change.Pack.{Pack}
use rotty.Document.{
  InternalDocument, drop_applied, settle, apply_changes, apply_snapshot, adopt, execute_changes,
}

forward-client_seq :
    (a b : Checkpoint) → a.client_seq ≤ b.client_seq → (forward a b).client_seq ≡ b.client_seq
unfolding forward equals
forward-client_seq a b l = ground arith

same_number : (n m k : ℕ) → k ≡ suc n → n ≤ m → ltb m k ≡ true → m ≡ n
same_number n m k h l e = ground arith

module _ {Op : Type 0} where
  abbrev pub IsConsecutive : ℕ → List (Change Op) → Type 0
  IsConsecutive n [] = Unit
  IsConsecutive n (c ∷ cs) = (client_seq c ≡ suc n) × IsConsecutive (suc n) cs

  pub IsConsecutive-append :
      (n : ℕ) (cs : List (Change Op)) (c : Change Op)
      → IsConsecutive n cs
      → client_seq c ≡ suc (n + length cs)
      → IsConsecutive n (cs ++ c ∷ [])
  IsConsecutive-append n [] c h e = (omega arith, tt)
  IsConsecutive-append n (d ∷ cs) c h e = (h.0, IsConsecutive-append (suc n) cs c h.1 (omega arith))

  -- Dropping up to a number within the list leaves the changes behind it.
  pub drop_applied-IsConsecutive :
      (n m : ℕ) (cs : List (Change Op))
      → IsConsecutive n cs
      → n ≤ m
      → m ≤ n + length cs
      → IsConsecutive m (drop_applied m cs) × (m + length (drop_applied m cs) ≡ n + length cs)
  unfolding drop_applied
  drop_applied-IsConsecutive n m [] h l u = (tt, omega arith)
  drop_applied-IsConsecutive n m (c ∷ cs) h l u = elim (Bool-cases (ltb m (client_seq c))) [
    | inl e ↦ rw (e, same_number n m (client_seq c) h.0 l e) (h, refl)
    | inr e ↦
        (let (kept, count) =
            drop_applied-IsConsecutive (suc n) m cs h.1 (ground (arith, h.0)) (omega arith) in
          rw e (kept, omega arith))
  ]

module _ {Op Root : Type 0} where
  -- The waiting changes follow the checkpoint, and the document's own number is that of the last.
  pub record IsQueued (d : InternalDocument Op Root) : Type 0 where
    pub consecutive : IsConsecutive d.checkpoint.client_seq d.local_changes
    pub last : d.change_id.client_seq ≡ d.checkpoint.client_seq + length d.local_changes

  -- What the remote changes leave alone.
  pub record IsSameQueue (d e : InternalDocument Op Root) : Type 0 where
    pub local_changes : e.local_changes ≡ d.local_changes
    pub checkpoint : e.checkpoint ≡ d.checkpoint
    pub number : e.change_id.client_seq ≡ d.change_id.client_seq

  IsSameQueue-trans :
      (d e f : InternalDocument Op Root) → IsSameQueue d e → IsSameQueue e f → IsSameQueue d f
  IsSameQueue-trans d e f h k = record {
    local_changes = k.local_changes ∙ h.local_changes;
    checkpoint = k.checkpoint ∙ h.checkpoint;
    number = k.number ∙ h.number;
  }

  pub IsSameQueue-IsQueued :
      (d e : InternalDocument Op Root) → IsSameQueue d e → IsQueued d → IsQueued e
  IsSameQueue-IsQueued d e s q = record {
    consecutive = rw (s.checkpoint, s.local_changes) q.consecutive;
    last = rw (s.checkpoint, s.local_changes) (s.number ∙ q.last);
  }

  -- A pack that acknowledges no more than what waits leaves the document queued, from the
  -- acknowledged number on.
  pub settle-IsQueued :
      (d e : InternalDocument Op Root) (pack : Pack Op)
      → IsQueued d
      → IsSameQueue d e
      → d.checkpoint.client_seq ≤ pack.checkpoint.client_seq
      → pack.checkpoint.client_seq ≤ d.change_id.client_seq
      → IsQueued (settle e pack)
        × ((settle e pack).checkpoint.client_seq ≡ pack.checkpoint.client_seq)
  unfolding settle
  settle-IsQueued d e pack q s l u =
      let f = forward-client_seq e.checkpoint pack.checkpoint (rw s.checkpoint l) in
      let (kept, count) =
        drop_applied-IsConsecutive d.checkpoint.client_seq pack.checkpoint.client_seq
          d.local_changes q.consecutive l (rw (← q.last) u) in
      (
        record {
          consecutive = rw (f, s.local_changes) kept;
          last = rw (f, s.local_changes) (s.number ∙ q.last ∙ sym count);
        },
        f,
      )

module _ {Op Root Error : Type 0} (edit : Editing Op Root Error) where
  sync_lamport-client_seq : (id : ChangeId) (n : ℕ) → (sync_lamport id n).client_seq ≡ id.client_seq
  unfolding sync_lamport
  sync_lamport-client_seq id n = ground arith

  -- The document when a change has been executed on it.
  abbrev after_change : Change Op → InternalDocument Op Root → InternalDocument Op Root
  after_change c d = record d {
    root = (execute edit c d.root).0;
    change_id = sync_lamport d.change_id c.id.lamport;
  }

  pub apply_changes-IsSameQueue :
      (cs : List (Change Op)) (d : InternalDocument Op Root)
      → IsSameQueue d (apply_changes edit cs d).0
  unfolding apply_changes
  apply_changes-IsSameQueue [] d = record { local_changes = refl; checkpoint = refl; number = refl }
  apply_changes-IsSameQueue (c ∷ cs) d = elim (Option-cases (execute edit c d.root).1) [
    | inl h ↦
        rw (h, apply_changes)
          (IsSameQueue-trans d (after_change c d) (apply_changes edit cs (after_change c d)).0
            (record {
              local_changes = refl;
              checkpoint = refl;
              number = sync_lamport-client_seq d.change_id c.id.lamport;
            })
            (apply_changes-IsSameQueue cs (after_change c d)))
    | inr (e, h) ↦
        rw (h, apply_changes) (record { local_changes = refl; checkpoint = refl; number = refl })
  ]

  adopt-IsSameQueue :
      (loaded : Error ⊎ Root) (n : ℕ) (d : InternalDocument Op Root)
      → IsSameQueue d (adopt edit loaded n d).0
  unfolding adopt
  adopt-IsSameQueue (inl e) n d = record { local_changes = refl; checkpoint = refl; number = refl }
  adopt-IsSameQueue (inr object) n d =
      elim (Option-cases (execute_changes edit d.local_changes object).1) [
        | inl h ↦
            rw (h, adopt)
              (record {
                local_changes = refl;
                checkpoint = refl;
                number = sync_lamport-client_seq d.change_id n;
              })
        | inr (e, h) ↦
            rw (h, adopt) (record { local_changes = refl; checkpoint = refl; number = refl })
      ]

  pub apply_snapshot-IsSameQueue :
      (snapshot : List ℕ) (n : ℕ) (d : InternalDocument Op Root)
      → IsSameQueue d (apply_snapshot edit snapshot n d).0
  unfolding apply_snapshot
  apply_snapshot-IsSameQueue snapshot n d = adopt-IsSameQueue (edit.bytes_to_object snapshot) n d
