-- ===== src/RgaList/Copy.antt =====
-- `DeepCopy` of array.go, which adds the nodes of a list to a new one.
use mathlib.Core.List.{append_assoc}
use rotty.Prelude.{
  ℕ, suc, ◌+◌, ◌%◌, ◌^◌, ◌<◌, ◌≡◌, refl, sym, ap, ◌∙◌, false, none, some, Ord, List, [], ◌∷◌, ◌++◌,
  length, arith, Bool-cases, inl, inr, subst,
}
use rotty.Element.{Elem}
use rotty.RgaList.{
  RgaList, is_at, find_node, place_after, skip_later, find_next_before_executed_at, node_before,
  insert_after, add, add_all, deep_copy, increment, ElementKind, Copies, copy_as, copy_elem,
  copy_all,
}

module _ {T C : Type 0} ⦃o : Ord T⦄ where
  -- No creation time stands twice in a list.
  abbrev pub IsDistinct : List (Elem T C) → Type 0
  IsDistinct [] = ℕ
  IsDistinct (x ∷ xs) = (find_node x.created_at xs ≡ none) × IsDistinct xs

  abbrev last_of : T → List (Elem T C) → T
  last_of t [] = t
  last_of t (x ∷ xs) = last_of x.created_at xs

  find_node-none :
      (t : T) (xs ys : List (Elem T C)) (x : Elem T C)
      → find_node t (xs ++ x ∷ ys) ≡ none
      → is_at t x ≡ false
  find_node-none t [] ys x h = ground (arith, h)
  find_node-none t (y ∷ xs) ys x h = elim (Bool-cases (is_at t y)) [
    | inl e ↦ absurd (ground (arith, e, h))
    | inr e ↦ find_node-none t xs ys x (rw e at h)
  ]

  distinct_before :
      (xs ys : List (Elem T C)) (x : Elem T C)
      → IsDistinct (xs ++ x ∷ ys)
      → find_node x.created_at xs ≡ none
  distinct_before [] ys x d = refl
  distinct_before (y ∷ xs) ys x (no_more, d) =
      let other : is_at x.created_at y ≡ false = ground (
        arith,
        find_node-none y.created_at xs ys x no_more,
        o.cmp_flip x.created_at y.created_at,
      ) in
      rw other (distinct_before xs ys x d)

  place_after-last :
      (xs : List (Elem T C)) (x e : Elem T C)
      → find_node x.created_at xs ≡ none
      → place_after x.created_at e.created_at e (xs ++ x ∷ []) ≡ some (xs ++ x ∷ e ∷ [])
  unfolding place_after skip_later
  place_after-last [] x e h = ground (arith, o.cmp_refl x.created_at)
  place_after-last (y ∷ xs) x e h = ground (arith, h, place_after-last xs x e)

  find_next-last :
      (xs : List (Elem T C)) (x : Elem T C) (t : T)
      → find_node x.created_at xs ≡ none
      → find_next_before_executed_at x.created_at t (xs ++ x ∷ []) ≡ some x
  unfolding find_next_before_executed_at node_before
  find_next-last [] x t h = ground (arith, o.cmp_refl x.created_at)
  find_next-last (y ∷ xs) x t h = ground (arith, h, find_next-last xs x t)

  abbrev list_of : List (Elem T C) → T → ℕ → RgaList T C
  list_of ns last n = record { nodes = ns; last = last; size = n }

  add-last :
      (xs : List (Elem T C)) (x e : Elem T C) (n : ℕ)
      → find_node x.created_at xs ≡ none
      → add (list_of (xs ++ x ∷ []) x.created_at n) e
        ≡ some (list_of ((xs ++ x ∷ []) ++ e ∷ []) e.created_at (increment n))
  unfolding add insert_after
  add-last xs x e n h =
      rw (find_next-last xs x e.created_at h, place_after-last xs x e h, add, insert_after)
        (rw (o.cmp_refl x.created_at, append_assoc) refl)

  add_all-last :
      (xs es : List (Elem T C)) (x : Elem T C) (n : ℕ)
      → IsDistinct (xs ++ x ∷ es)
      → n < 2 ^ 64
      → add_all (list_of (xs ++ x ∷ []) x.created_at n) es
        ≡ some (list_of (xs ++ x ∷ es) (last_of x.created_at es) ((n + length es) % 2 ^ 64))
  unfolding add_all
  add_all-last xs [] x n d lt =
      ap (λ (k : ℕ). some (list_of (xs ++ x ∷ []) x.created_at k)) (omega arith)
  add_all-last xs (e ∷ es) x n d lt =
      let apart = distinct_before xs (e ∷ es) x d in
      let assoc : (xs ++ x ∷ []) ++ e ∷ es ≡ xs ++ x ∷ e ∷ es = append_assoc xs (x ∷ []) (e ∷ es) in
      let more =
        add_all-last (xs ++ x ∷ []) es e (increment n) (subst IsDistinct (sym assoc) d)
          (omega arith) in
      rw (add-last xs x e n apart) (
        more
        ∙ ap
            (λ (l : List (Elem T C)).
              some (list_of l (last_of e.created_at es) ((increment n + length es) % 2 ^ 64)))
            assoc
        ∙ ap (λ (k : ℕ). some (list_of (xs ++ x ∷ e ∷ es) (last_of e.created_at es) k))
            (omega arith))

module _ {T C : Type 0} ⦃o : Ord T⦄ (copies : Copies C) where
  created_at-copy_as :
      (k : ElementKind) (e : Elem T C) → (copy_as copies k e).created_at ≡ e.created_at
  unfolding copy_as
  created_at-copy_as ElementKind.struct_kind e = refl
  created_at-copy_as ElementKind.container_kind e = refl
  created_at-copy_as ElementKind.text_kind e = refl

  created_at-copy_elem : (e : Elem T C) → (copy_elem copies e).created_at ≡ e.created_at
  unfolding copy_elem
  created_at-copy_elem e = created_at-copy_as (copies.kind_of e.content) e

  find_node-copy_all :
      (t : T) (xs : List (Elem T C))
      → find_node t xs ≡ none
      → find_node t (copy_all copies xs) ≡ none
  unfolding copy_all
  find_node-copy_all t [] h = refl
  find_node-copy_all t (x ∷ xs) h =
      ground (arith, h, created_at-copy_elem x, find_node-copy_all t xs)

  copy_all-IsDistinct : (xs : List (Elem T C)) → IsDistinct xs → IsDistinct (copy_all copies xs)
  unfolding copy_all
  copy_all-IsDistinct [] d = d
  copy_all-IsDistinct (x ∷ xs) d = (
    rw (created_at-copy_elem x) (find_node-copy_all x.created_at xs d.0),
    copy_all-IsDistinct xs d.1,
  )

  length-copy_all : (xs : List (Elem T C)) → length (copy_all copies xs) ≡ length xs
  unfolding copy_all
  length-copy_all [] = refl
  length-copy_all (x ∷ xs) = ap suc (length-copy_all xs)

  last_of-copy_all : (t : T) (xs : List (Elem T C)) → last_of t (copy_all copies xs) ≡ last_of t xs
  unfolding copy_all
  last_of-copy_all t [] = refl
  last_of-copy_all t (x ∷ xs) = rw (created_at-copy_elem x) (last_of-copy_all x.created_at xs)

  -- A copied array, whose nodes differ in creation time, has the copies of the nodes, removed or not,
  -- in the order of the nodes, and its length counts every one of them, as a word. Of its times a copy
  -- keeps what `DeepCopy` of its kind keeps.
  pub deep_copy_lem :
      (a : RgaList T C) (head : Elem T C) (xs : List (Elem T C))
      → a.nodes ≡ head ∷ xs
      → IsDistinct (head ∷ xs)
      → deep_copy copies a
        ≡ some (record {
          nodes = head ∷ copy_all copies xs;
          last = last_of head.created_at xs;
          size = length xs % 2 ^ 64;
        })
  unfolding deep_copy
  deep_copy_lem a head xs e d =
      rw (e, deep_copy)
        (add_all-last [] (copy_all copies xs) head 0
            (find_node-copy_all head.created_at xs d.0, copy_all-IsDistinct xs d.1) (omega arith)
          ∙ ap
              (λ (k : ℕ). some (
                list_of (head ∷ copy_all copies xs) (last_of head.created_at (copy_all copies xs))
                  (k % 2 ^ 64)))
              (omega arith)
          ∙ ap
              (λ (t : T).
                some (list_of (head ∷ copy_all copies xs) t (length (copy_all copies xs) % 2 ^ 64)))
              (last_of-copy_all head.created_at xs)
          ∙ ap
              (λ (k : ℕ).
                some
                  (list_of (head ∷ copy_all copies xs) (last_of head.created_at xs) (k % 2 ^ 64)))
              (length-copy_all xs))
