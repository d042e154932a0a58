-- ===== src/RgaList/Positions.antt =====
-- Two insertions into the list of rga_tree_list.go end at the same sequence in either order.
use rotty.Prelude.{
  ◌≡◌, ◌≢◌, refl, sym, false, some, ◌>>=◌, Ord, List, [], ◌∷◌, arith, Bool-cases, inl, inr,
}
use rotty.Element.{Elem, positioned_at}
use rotty.RgaList.{is_at, skip_later, place_after}

module _ {T C : Type 0} ⦃o : Ord T⦄ where
  -- Two elements that are positioned at different times, each at the time of its insertion.
  skip_later_swap :
      (d e : Elem T C) (s t : T) (xs : List (Elem T C))
      → positioned_at d ≡ s
      → positioned_at e ≡ t
      → s ≢ t
      → skip_later s d (skip_later t e xs) ≡ skip_later t e (skip_later s d xs)
  unfolding skip_later
  skip_later_swap d e s t [] ds et n = ground (arith, o.cmp_eq s t, o.cmp_flip s t)
  skip_later_swap d e s t (x ∷ xs) ds et n = ground (
    arith,
    o.cmp_eq s t,
    o.cmp_flip s t,
    o.cmp_flip (positioned_at x) s,
    o.cmp_flip (positioned_at x) t,
    o.cmp_trans (positioned_at x) s t,
    o.cmp_trans (positioned_at x) t s,
    o.cmp_trans t s (positioned_at x),
    o.cmp_trans s t (positioned_at x),
    o.cmp_eq (positioned_at x) s,
    o.cmp_eq (positioned_at x) t,
    skip_later_swap d e s t xs ds et n,
  )

  pub is_at-false : (p : T) (e : Elem T C) → e.created_at ≢ p → is_at p e ≡ false
  is_at-false p e n = elim (Bool-cases (is_at p e)) [
    | inl h ↦ absurd (n (o.cmp_eq e.created_at p (ground arith)))
    | inr h ↦ h
  ]

  place_after-skip_later :
      (p : T) (d e : Elem T C) (s t : T) (xs : List (Elem T C))
      → positioned_at d ≡ s
      → positioned_at e ≡ t
      → s ≢ t
      → e.created_at ≢ p
      → place_after p s d (skip_later t e xs)
        ≡ (place_after p s d xs >>= λ ys. some (skip_later t e ys))
  unfolding place_after
  place_after-skip_later p d e s t [] ds et n m = rw (is_at-false p e m) refl
  place_after-skip_later p d e s t (x ∷ xs) ds et n m = ground (
    arith,
    is_at-false p e m,
    skip_later_swap d e s t xs ds et n,
    place_after-skip_later p d e s t xs ds et n m,
  )

  -- Two insertions commute: of different elements, positioned at different times, neither of which
  -- names the other as the element to stand behind.
  pub place_after_swap :
      (p q : T) (d e : Elem T C) (s t : T) (xs : List (Elem T C))
      → positioned_at d ≡ s
      → positioned_at e ≡ t
      → s ≢ t
      → e.created_at ≢ p
      → d.created_at ≢ q
      → (place_after q t e xs >>= λ ys. place_after p s d ys)
        ≡ (place_after p s d xs >>= λ ys. place_after q t e ys)
  unfolding place_after
  place_after_swap p q d e s t [] ds et n mp mq = refl
  place_after_swap p q d e s t (x ∷ xs) ds et n mp mq = ground (
    arith,
    skip_later_swap d e s t xs ds et n,
    place_after-skip_later p d e s t xs ds et n mp,
    place_after-skip_later q e d t s xs et ds (λ h. n (sym h)) mq,
    place_after_swap p q d e s t xs ds et n mp mq,
  )
