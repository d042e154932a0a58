-- ===== src/RgaList/Convergence.antt =====
-- Replicas of an array converge under insertions and removals.
use rotty.Prelude.{
  ◌≡◌, ◌≢◌, refl, ap, sym, fun_ext, ◌∙◌, Option, none, some, ◌>>=◌, Ord, List, [], ◌∷◌, arith,
  Option-cases, >>=_assoc, inl, inr,
}
use rotty.Element.{Elem}
use rotty.RgaList.{RgaList, insert_new_after, delete_by_created_at, place_after}
use rotty.RgaList.Positions.{place_after_swap}
use rotty.RgaList.Nodes.{
  nodes_of, delete_in, nodes_of-insert_new_after, nodes_of-delete, delete_in_swap,
  delete_in-place_after,
}

-- What reaches a replica: an element to insert behind another, or a removal at a time.
pub data Op (T C : Type 0) : Type 0 where
  inserts : T → Elem T C → Op T C
  deletes : T → T → Op T C

module _ {T C : Type 0} ⦃o : Ord T⦄ where
  abbrev pub apply : RgaList T C → Op T C → Option (RgaList T C)
  apply a (inserts prev e) = insert_new_after a prev e
  apply a (deletes c t) = delete_by_created_at a c t

  pub run : RgaList T C → List (Op T C) → Option (RgaList T C)
  run a [] = some a
  run a (op ∷ ops) = do b ← apply a op; run b ops

module _ {T C : Type 0} where
  -- Neither operation needs the other: they may have been made at the same time by two replicas. An
  -- element that is inserted has not been moved.
  abbrev pub Independent : Op T C → Op T C → Type 0
  Independent (inserts p d) (inserts q e) =
      (d.created_at ≢ e.created_at)
      × (d.created_at ≢ q)
      × (e.created_at ≢ p)
      × (d.moved_at ≡ none)
      × (e.moved_at ≡ none)
  Independent (inserts p d) (deletes c t) = d.created_at ≢ c
  Independent (deletes c t) (inserts p d) = d.created_at ≢ c
  Independent (deletes c s) (deletes d t) = Unit

  -- One history is the other with independent operations exchanged.
  pub data Reordered : List (Op T C) → List (Op T C) → Type 0 where
    same : (xs : List (Op T C)) → Reordered xs xs
    swapped :
        (x y : Op T C) (xs : List (Op T C)) → Independent x y → Reordered (x ∷ y ∷ xs) (y ∷ x ∷ xs)
    behind : (x : Op T C) {xs ys : List (Op T C)} → Reordered xs ys → Reordered (x ∷ xs) (x ∷ ys)
    chained : {xs ys zs : List (Op T C)} → Reordered xs ys → Reordered ys zs → Reordered xs zs

module _ {T C : Type 0} ⦃o : Ord T⦄ where
  apply_nodes : List (Elem T C) → Op T C → Option (List (Elem T C))
  apply_nodes xs (inserts prev e) = place_after prev e.created_at e xs
  apply_nodes xs (deletes c t) = delete_in c t xs

  run_nodes : List (Elem T C) → List (Op T C) → Option (List (Elem T C))
  run_nodes xs [] = some xs
  run_nodes xs (op ∷ ops) = do ys ← apply_nodes xs op; run_nodes ys ops

  nodes_of-apply : (a : RgaList T C) (op : Op T C) → nodes_of (apply a op) ≡ apply_nodes a.nodes op
  unfolding apply_nodes
  nodes_of-apply a (inserts prev e) = nodes_of-insert_new_after a prev e
  nodes_of-apply a (deletes c t) = nodes_of-delete a c t

  nodes_of-run :
      (a : RgaList T C) (ops : List (Op T C)) → nodes_of (run a ops) ≡ run_nodes a.nodes ops
  unfolding run run_nodes
  nodes_of-run a [] = refl
  nodes_of-run a (op ∷ ops) = elim (Option-cases (apply a op)) [
    | inl h ↦ rw (h, ← nodes_of-apply a op) (rw h)
    | inr (b, h) ↦ rw (h, ← nodes_of-apply a op) (rw h (nodes_of-run b ops))
  ]

  apply_nodes_swap :
      (x y : Op T C) (xs : List (Elem T C))
      → Independent x y
      → (apply_nodes xs x >>= λ ys. apply_nodes ys y)
        ≡ (apply_nodes xs y >>= λ ys. apply_nodes ys x)
  unfolding apply_nodes
  apply_nodes_swap (inserts p d) (inserts q e) xs i = sym (
      place_after_swap p q d e d.created_at e.created_at xs (ground (arith, i.3))
        (ground (arith, i.4)) i.0 i.2 i.1)
  apply_nodes_swap (inserts p d) (deletes c t) xs i =
      sym (delete_in-place_after c t p d.created_at d xs i)
  apply_nodes_swap (deletes c t) (inserts p d) xs i =
      delete_in-place_after c t p d.created_at d xs i
  apply_nodes_swap (deletes c s) (deletes d t) xs i = delete_in_swap c d s t xs

  run_nodes-Reordered :
      {xs ys : List (Op T C)}
      → Reordered xs ys
      → (ns : List (Elem T C)) → run_nodes ns xs ≡ run_nodes ns ys
  unfolding run_nodes
  run_nodes-Reordered (same xs) ns = refl
  run_nodes-Reordered (swapped x y xs i) ns =
      sym (>>=_assoc (apply_nodes ns x) (λ ys. apply_nodes ys y) (λ ys. run_nodes ys xs))
      ∙ ap (λ m. m >>= λ ys. run_nodes ys xs) (apply_nodes_swap x y ns i)
      ∙ >>=_assoc (apply_nodes ns y) (λ ys. apply_nodes ys x) (λ ys. run_nodes ys xs)
  run_nodes-Reordered (behind x r) ns =
      ap (λ f. apply_nodes ns x >>= f) (fun_ext (run_nodes-Reordered r))
  run_nodes-Reordered (chained r s) ns = run_nodes-Reordered r ns ∙ run_nodes-Reordered s ns

  -- Two replicas of an array that start from the same list and have taken in the same insertions
  -- and removals hold the same elements in the same order, with the same removal times, if one
  -- history is the other with neighbouring independent operations exchanged: ones that do not name
  -- each other's element, with inserted elements that were not moved and differ in creation time.
  -- And one of them fails only if the other does.
  pub run-Reordered :
      (a : RgaList T C) {xs ys : List (Op T C)}
      → Reordered xs ys
      → nodes_of (run a xs) ≡ nodes_of (run a ys)
  run-Reordered a {xs} {ys} r =
      nodes_of-run a xs ∙ run_nodes-Reordered r a.nodes ∙ sym (nodes_of-run a ys)
