-- ===== src/RgaList/Nodes.antt =====
-- The operations of rga_tree_list.go on the sequence of elements alone.
use rotty.Prelude.{
  ◌≡◌, ◌≢◌, refl, false, Option, none, some, ◌>>=◌, Ord, List, [], ◌∷◌, if◌then◌else◌, arith,
  Option-cases, inl, inr,
}
use rotty.Element.{Elem, positioned_at, remove}
use rotty.Element.Removal.{remove_swap}
use rotty.RgaList.{
  RgaList, is_at, find_node, skip_later, place_after, find_next_before_executed_at, insert_after,
  insert_new_after, update, delete_by_created_at,
}
use rotty.RgaList.Positions.{is_at-false}

module _ {T C : Type 0} where
  abbrev pub nodes_of : Option (RgaList T C) → Option (List (Elem T C))
  nodes_of none = none
  nodes_of (some a) = some a.nodes

module _ {T C : Type 0} ⦃o : Ord T⦄ where
  -- The removal of the element that was created at a time.
  pub delete_in : T → T → List (Elem T C) → Option (List (Elem T C))
  delete_in c t [] = none
  delete_in c t (x ∷ xs) =
      let rest = delete_in c t xs in
      if is_at c x then some ((remove x t).0 ∷ xs) else do ys ← rest; some (x ∷ ys)

  find_next-place_after :
      (p s : T) (d : Elem T C) (xs : List (Elem T C))
      → (find_next_before_executed_at p s xs >>= λ _. place_after p s d xs) ≡ place_after p s d xs
  unfolding place_after find_next_before_executed_at
  find_next-place_after p s d [] = refl
  find_next-place_after p s d (x ∷ xs) = ground (arith, find_next-place_after p s d xs)

  pub nodes_of-insert_new_after :
      (a : RgaList T C) (p : T) (e : Elem T C)
      → nodes_of (insert_new_after a p e) ≡ place_after p e.created_at e a.nodes
  unfolding insert_new_after insert_after
  nodes_of-insert_new_after a p e = ground (arith, find_next-place_after p e.created_at e a.nodes)

  remove_refused : (e : Elem T C) (t : T) → (remove e t).1 ≡ false → (remove e t).0 ≡ e
  unfolding remove
  remove_refused e t h = ground arith

  delete_in-update :
      (c t : T) (xs : List (Elem T C))
      → delete_in c t xs ≡ (find_node c xs >>= λ _. some (update c (λ x. (remove x t).0) xs))
  unfolding delete_in update
  delete_in-update c t [] = refl
  delete_in-update c t (x ∷ xs) = ground (arith, delete_in-update c t xs)

  update_refused :
      (c t : T) (xs : List (Elem T C)) (e : Elem T C)
      → find_node c xs ≡ some e
      → (remove e t).1 ≡ false
      → update c (λ x. (remove x t).0) xs ≡ xs
  unfolding update
  update_refused c t [] e h r = refl
  update_refused c t (x ∷ xs) e h r = ground (arith, remove_refused x t, update_refused c t xs e)

  pub nodes_of-delete :
      (a : RgaList T C) (c t : T) → nodes_of (delete_by_created_at a c t) ≡ delete_in c t a.nodes
  unfolding delete_by_created_at
  nodes_of-delete a c t = elim (Option-cases (find_node c a.nodes)) [
    | inl h ↦ ground (arith, delete_in-update c t a.nodes)
    | inr (e, h) ↦ ground (arith, delete_in-update c t a.nodes, update_refused c t a.nodes e h)
  ]

  created_at-remove : (e : Elem T C) (t : T) → (remove e t).0.created_at ≡ e.created_at
  unfolding remove
  created_at-remove e t = ground arith

  positioned_at-remove : (e : Elem T C) (t : T) → positioned_at (remove e t).0 ≡ positioned_at e
  unfolding remove
  positioned_at-remove e t = ground arith

  -- Removals commute.
  pub delete_in_swap :
      (c d s t : T) (xs : List (Elem T C))
      → (delete_in c s xs >>= λ ys. delete_in d t ys)
        ≡ (delete_in d t xs >>= λ ys. delete_in c s ys)
  unfolding delete_in
  delete_in_swap c d s t [] = refl
  delete_in_swap c d s t (x ∷ xs) = ground (
    arith,
    created_at-remove x s,
    created_at-remove x t,
    remove_swap x s t,
    delete_in_swap c d s t xs,
  )

  delete_in-skip_later :
      (c t s : T) (e : Elem T C) (xs : List (Elem T C))
      → e.created_at ≢ c
      → delete_in c t (skip_later s e xs) ≡ (delete_in c t xs >>= λ ys. some (skip_later s e ys))
  unfolding delete_in skip_later
  delete_in-skip_later c t s e [] n = rw (is_at-false c e n) refl
  delete_in-skip_later c t s e (x ∷ xs) n =
      ground (arith, is_at-false c e n, positioned_at-remove x t, delete_in-skip_later c t s e xs n)

  -- A removal commutes with the insertion of another element.
  pub delete_in-place_after :
      (c t p s : T) (e : Elem T C) (xs : List (Elem T C))
      → e.created_at ≢ c
      → (delete_in c t xs >>= λ ys. place_after p s e ys)
        ≡ (place_after p s e xs >>= λ ys. delete_in c t ys)
  unfolding delete_in place_after
  delete_in-place_after c t p s e [] n = refl
  delete_in-place_after c t p s e (x ∷ xs) n = ground (
    arith,
    created_at-remove x t,
    delete_in-skip_later c t s e xs n,
    delete_in-place_after c t p s e xs n,
  )
