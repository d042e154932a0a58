-- ===== src/Element/Removal.antt =====
-- Removals of one element commute: the latest one stays.
use rotty.Prelude.{◌≡◌, some, Ord, arith, Option-cases, inl, inr}
use rotty.Element.{Elem, remove}

module _ {T C : Type 0} ⦃o : Ord T⦄ where
  remove_swap_at :
      (e : Elem T C) (r s t : T)
      → e.removed_at ≡ some r
      → (remove (remove e s).0 t).0 ≡ (remove (remove e t).0 s).0
  unfolding remove
  remove_swap_at e r s t h = ground (
    arith,
    o.cmp_eq s t,
    o.cmp_flip s t,
    o.cmp_flip r s,
    o.cmp_flip r t,
    o.cmp_eq s r,
    o.cmp_eq t r,
    o.cmp_trans r s t,
    o.cmp_trans r t s,
  )

  -- In whichever order two removals of one element arrive, they leave the same element.
  pub remove_swap :
      (e : Elem T C) (s t : T) → (remove (remove e s).0 t).0 ≡ (remove (remove e t).0 s).0
  unfolding remove
  remove_swap e s t = elim (Option-cases e.removed_at) [
    | inl h ↦ ground (arith, o.cmp_eq s t, o.cmp_flip s t)
    | inr (r, h) ↦ remove_swap_at e r s t h
  ]
