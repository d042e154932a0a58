-- ===== src/Change/Pack.antt =====
-- pkg/document/change/pack.go: what a client and the server send each other.
use rotty.Prelude.{ℕ, Bool, true, false, Option, none, List, [], ◌∷◌}
use rotty.Time.Ticket.{Ticket}
use rotty.Key.{Key}
use rotty.Checkpoint.{Checkpoint}
use rotty.Change.Change.{Change}

pub record Pack (Op : Type 0) : Type 0 where
  pub document_key : Key
  pub checkpoint : Checkpoint
  pub changes : List (Change Op)
  pub snapshot : List ℕ
  pub min_synced_ticket : Option Ticket

module _ {Op : Type 0} where
  abbrev pub new_pack : Key → Checkpoint → List (Change Op) → List ℕ → Pack Op
  new_pack key cp changes snapshot = record {
    document_key = key;
    checkpoint = cp;
    changes = changes;
    snapshot = snapshot;
    min_synced_ticket = none;
  }

  abbrev pub has_changes : Pack Op → Bool
  has_changes p = elim p.changes [ [] ↦ false | c ∷ cs ↦ true ]
