-- ===== src/Document/Clock.antt =====
-- The clock of a document after the changes of others.
use rotty.Prelude.{
  ℕ, ◌+◌, ◌^◌, ◌≤◌, ◌<◌, ◌≡◌, refl, subst, sym, ap, ◌∙◌, true, inl, inr, List, [], ◌∷◌, length,
  none, some, Option-cases, All, All-imp, arith,
}
use rotty.Time.Ticket.{Ticket, after, compare_tickets}
use rotty.Change.Id.{ChangeId, next, sync_lamport, new_time_ticket}
use rotty.Change.Change.{Editing, Change, execute}
use rotty.Document.{InternalDocument, apply_changes}

some_not_none : {A : Type 0} (a : A) → some a ≡ none → ⊥
some_not_none a h = cc

sync_lamport-bounds :
    (id : ChangeId) (other top : ℕ)
    → id.lamport ≤ top
    → other ≤ top
    → top + 1 < 2 ^ 64
    → (id.lamport ≤ (sync_lamport id other).lamport)
      × (other ≤ (sync_lamport id other).lamport)
      × ((sync_lamport id other).lamport ≤ top + 1)
unfolding sync_lamport
sync_lamport-bounds id other top h k b = (ground arith, ground arith, ground arith)

next-after :
    (id : ChangeId) (delimiter : ℕ) (t : Ticket)
    → id.lamport + 1 < 2 ^ 64
    → t.lamport ≤ id.lamport
    → after (new_time_ticket (next id) delimiter) t ≡ some true
unfolding next new_time_ticket after compare_tickets
next-after id delimiter t b l = ground arith

module _ {Op Root Error : Type 0} (edit : Editing Op Root Error) where
  abbrev pub HasReached : ℕ → List (Change Op) → Type 0
  HasReached lamport = All (λ c. c.id.lamport ≤ lamport)

  abbrev after_change : Change Op → InternalDocument Op Root → InternalDocument Op Root
  after_change c d = record d {
    root = (execute edit c d.root).0;
    change_id = sync_lamport d.change_id c.id.lamport;
  }

  apply_changes-nil : (d : InternalDocument Op Root) → apply_changes edit [] d ≡ (d, none)
  unfolding apply_changes
  apply_changes-nil d = refl

  apply_changes-step :
      (c : Change Op) (cs : List (Change Op)) (d : InternalDocument Op Root)
      → (execute edit c d.root).1 ≡ none
      → apply_changes edit (c ∷ cs) d ≡ apply_changes edit cs (after_change c d)
  unfolding apply_changes
  apply_changes-step c cs d h = rw (h, apply_changes) refl

  apply_changes-stop :
      (c : Change Op) (cs : List (Change Op)) (d : InternalDocument Op Root) (e : Error)
      → (execute edit c d.root).1 ≡ some e
      → (apply_changes edit (c ∷ cs) d).1 ≡ some e
  unfolding apply_changes
  apply_changes-stop c cs d e h = rw (h, apply_changes) refl

  -- The clock never goes back, and reaches every change that was applied.
  apply_changes-HasReached :
      (cs : List (Change Op)) (d : InternalDocument Op Root) (top : ℕ)
      → d.change_id.lamport ≤ top
      → HasReached top cs
      → top + length cs + 1 < 2 ^ 64
      → (apply_changes edit cs d).1 ≡ none
      → (d.change_id.lamport ≤ (apply_changes edit cs d).0.change_id.lamport)
        × HasReached (apply_changes edit cs d).0.change_id.lamport cs
        × ((apply_changes edit cs d).0.change_id.lamport ≤ top + length cs)
  apply_changes-HasReached [] d top l h b e =
      rw (apply_changes-nil d) (omega arith, tt, omega arith)
  apply_changes-HasReached (c ∷ cs) d top l h b e = elim (Option-cases (execute edit c d.root).1) [
    | inl k ↦
        (let step = apply_changes-step c cs d k in
          let d' = after_change c d in
          let (own, other, bound) =
            sync_lamport-bounds d.change_id c.id.lamport top l h.0 (omega arith) in
          let (more, reached, end) =
            apply_changes-HasReached cs d' (top + 1) bound (All-imp (λ x m. omega arith) cs h.1)
              (omega arith) (ap (λ r. r.1) (sym step) ∙ e) in
          let same = ap (λ r. r.0.change_id.lamport) step in
          (
            omega (arith, own, more, same),
            (omega (arith, other, more, same), subst (λ n. HasReached n cs) (sym same) reached),
            omega (arith, end, same),
          ))
    | inr (err, k) ↦ absurd (some_not_none err (sym (apply_changes-stop c cs d err k) ∙ e))
  ]

  -- A change that is made after remote changes were applied without an error carries tickets that
  -- are after every ticket of those changes and of the document's own earlier ones, when no
  -- lamport time among them is above a bound that leaves room below the end of uint64.
  pub apply_changes-after :
      (cs : List (Change Op)) (d : InternalDocument Op Root) (top delimiter : ℕ)
      → d.change_id.lamport ≤ top
      → HasReached top cs
      → top + length cs + 1 < 2 ^ 64
      → (apply_changes edit cs d).1 ≡ none
      → let fresh = new_time_ticket (next (apply_changes edit cs d).0.change_id) delimiter in
        All (λ c. (t : Ticket) → t.lamport ≤ c.id.lamport → after fresh t ≡ some true) cs
        × ((t : Ticket) → t.lamport ≤ d.change_id.lamport → after fresh t ≡ some true)
  apply_changes-after cs d top delimiter l h b e =
      let (more, reached, end) = apply_changes-HasReached cs d top l h b e in
      let id = (apply_changes edit cs d).0.change_id in
      (
        All-imp (λ c m t k. next-after id delimiter t (omega arith) (omega arith)) cs reached,
        λ t k. next-after id delimiter t (omega arith) (omega arith),
      )
