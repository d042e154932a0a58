-- ===== src/Element.antt =====
-- The life of a JSON element, which every kind of element of pkg/document/json (object.go, array.go,
-- primitive.go, counter.go, text.go, rich_text.go) writes out in the same words: the times at which
-- it was created, moved and removed. The times are any totally ordered type, as `After` orders
-- tickets; what the element holds is any type.
pub mod Removal
pub mod Tests
use rotty.Prelude.{Bool, true, false, ◌&&◌, Option, none, some, Ord, if◌then◌else◌, is_gt}

pub record Elem (T C : Type 0) : Type 0 where
  pub created_at : T
  pub moved_at : Option T
  pub removed_at : Option T
  pub content : C

module _ {T C : Type 0} where
  abbrev pub is_removed : Elem T C → Bool
  is_removed e = elim e.removed_at [ none ↦ false | some t ↦ true ]

  -- The time that decides where an element of an array stands.
  abbrev pub positioned_at : Elem T C → T
  positioned_at e = elim e.moved_at [ none ↦ e.created_at | some t ↦ t ]

module _ {T : Type 0} ⦃o : Ord T⦄ where
  abbrev pub after : T → T → Bool
  after t other = is_gt (o.cmp t other)

  abbrev pub after_removal : T → Option T → Bool
  after_removal t none = true
  after_removal t (some r) = after t r

module _ {T C : Type 0} ⦃o : Ord T⦄ where
  -- The test of `Remove`, at a time that is not nil.
  abbrev pub removes : Elem T C → T → Bool
  removes e removed_at = after removed_at e.created_at && after_removal removed_at e.removed_at

  -- `Remove`: the element, and whether the removal took.
  unfoldable pub remove : Elem T C → T → Elem T C × Bool
  remove e removed_at =
      if removes e removed_at then (record e { removed_at = some removed_at }, true) else (e, false)
