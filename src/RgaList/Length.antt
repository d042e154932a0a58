-- ===== src/RgaList/Length.antt =====
-- `Len` of rga_tree_list.go: the counter `size` against the elements that are not removed.
use rotty.Prelude.{
  ℕ, suc, ◌+◌, ◌-◌, ◌%◌, ◌^◌, ◌≡◌, ◌≢◌, refl, ◌∙◌, true, false, none, some, ◌>>=◌, Ord, ◌≺◌, List,
  [], ◌∷◌, arith, Option-cases, inl, inr, if◌then◌else◌,
}
use rotty.Element.{Elem, is_removed, remove}
use rotty.RgaList.{
  RgaList, insert_new_after, insert_after, delete_by_created_at, place_after, skip_later, find_node,
  update, find_next_before_executed_at, decrement,
}

module _ {T C : Type 0} ⦃o : Ord T⦄ where
  abbrev pub live : List (Elem T C) → ℕ
  live [] = 0
  live (x ∷ xs) = if is_removed x then live xs else suc (live xs)

  abbrev pub IsCounted : RgaList T C → Type 0
  IsCounted a = a.size ≡ live a.nodes % 2 ^ 64

  live-skip_later :
      (s : T) (e : Elem T C) (xs : List (Elem T C))
      → is_removed e ≡ false
      → live (skip_later s e xs) ≡ suc (live xs)
  unfolding skip_later
  live-skip_later s e [] h = ground arith
  live-skip_later s e (x ∷ xs) h = ground (arith, live-skip_later s e xs h)

  live-place_after :
      (p s : T) (e : Elem T C) (xs ys : List (Elem T C))
      → is_removed e ≡ false
      → place_after p s e xs ≡ some ys
      → live ys ≡ suc (live xs)
  unfolding place_after
  live-place_after p s e [] ys h q = ground arith
  live-place_after p s e (x ∷ xs) ys h q = elim (Option-cases (place_after p s e xs)) [
    | inl n ↦ ground (arith, live-skip_later s e xs h)
    | inr (zs, n) ↦ ground (arith, live-skip_later s e xs h, live-place_after p s e xs zs h n)
  ]

  -- If `size` counts the elements that are not removed, as a word, it does so after `InsertAfter` of an
  -- element that is not removed, when the predecessor is there.
  pub insert_new_after-IsCounted :
      (a b : RgaList T C) (p : T) (e : Elem T C)
      → is_removed e ≡ false
      → insert_new_after a p e ≡ some b
      → IsCounted a
      → IsCounted b
  unfolding insert_new_after insert_after
  insert_new_after-IsCounted a b p e h q c =
      elim (Option-cases (find_next_before_executed_at p e.created_at a.nodes)) [
        | inl n ↦ ground arith
        | inr (x, n) ↦ elim (Option-cases (place_after p e.created_at e a.nodes)) [
          | inl m ↦ ground arith
          | inr (ys, m) ↦ ground (arith, live-place_after p e.created_at e a.nodes ys h m)
        ]
      ]

  find_node-update :
      (c : T) (f : Elem T C → Elem T C) (e : Elem T C) (xs : List (Elem T C))
      → ((x : Elem T C) → (f x).created_at ≡ x.created_at)
      → find_node c xs ≡ some e
      → find_node c (update c f xs) ≡ some (f e)
  unfolding update
  find_node-update c f e [] k h = ground arith
  find_node-update c f e (x ∷ xs) k h = ground (arith, k x, find_node-update c f e xs k)

  update_twice :
      (c : T) (f g : Elem T C → Elem T C) (xs : List (Elem T C))
      → ((x : Elem T C) → (f x).created_at ≡ x.created_at)
      → update c g (update c f xs) ≡ update c (λ x. g (f x)) xs
  unfolding update
  update_twice c f g [] k = refl
  update_twice c f g (x ∷ xs) k = ground (arith, k x, update_twice c f g xs k)

  update_agree :
      (c : T) (f g : Elem T C → Elem T C) (e : Elem T C) (xs : List (Elem T C))
      → find_node c xs ≡ some e
      → f e ≡ g e
      → update c f xs ≡ update c g xs
  unfolding update
  update_agree c f g e [] h k = refl
  update_agree c f g e (x ∷ xs) h k = ground (arith, update_agree c f g e xs)

  removes_live :
      (e : Elem T C) (t : T) → e.removed_at ≡ none → e.created_at ≺ t → (remove e t).1 ≡ true
  unfolding remove
  removes_live e t n k = ground (arith, o.cmp_flip e.created_at t)

  removes_again :
      (e : Elem T C) (s t : T)
      → e.removed_at ≡ none
      → e.created_at ≺ s
      → s ≺ t
      → ((remove (remove e s).0 t).1 ≡ true)
        × ((remove (remove e t).0 s).1 ≡ false)
        × ((remove (remove e s).0 t).0 ≡ (remove e t).0)
  unfolding remove
  removes_again e s t n k l =
      let m = o.cmp_trans e.created_at s t k l in
      let p = o.cmp_flip e.created_at s in
      let q = o.cmp_flip e.created_at t in
      let r = o.cmp_flip s t in (ground arith, ground arith, ground arith)

  created_at-remove : (t : T) (e : Elem T C) → (remove e t).0.created_at ≡ e.created_at
  unfolding remove
  created_at-remove t e = ground arith

  -- A removal that takes marks its element and counts down.
  delete_takes :
      (a : RgaList T C) (c t : T) (e : Elem T C)
      → find_node c a.nodes ≡ some e
      → (remove e t).1 ≡ true
      → delete_by_created_at a c t
        ≡ some
            (record a { nodes = update c (λ x. (remove x t).0) a.nodes; size = decrement a.size })
  unfolding delete_by_created_at
  delete_takes a c t e h k = rw (h, k) refl

  delete_refused :
      (a : RgaList T C) (c t : T) (e : Elem T C)
      → find_node c a.nodes ≡ some e
      → (remove e t).1 ≡ false
      → delete_by_created_at a c t ≡ some a
  unfolding delete_by_created_at
  delete_refused a c t e h k = rw (h, k) refl

  -- Two removals of an element that is not removed, both after its creation, leave the same
  -- elements in either order, but the size, a word of 64 bits, goes down by two when the earlier
  -- comes first and by one when it comes second; so the two sizes differ.
  pub delete_twice_sizes :
      (a : RgaList T C) (c s t : T) (e : Elem T C)
      → find_node c a.nodes ≡ some e
      → e.removed_at ≡ none
      → e.created_at ≺ s
      → s ≺ t
      → (b : RgaList T C) × (d : RgaList T C) × ((delete_by_created_at a c s >>= λ x.
            delete_by_created_at x c t)
          ≡ some b)
        × ((delete_by_created_at a c t >>= λ x. delete_by_created_at x c s) ≡ some d)
        × (b.nodes ≡ d.nodes)
        × (b.size ≡ (a.size + (2 ^ 64 - 2)) % 2 ^ 64)
        × (d.size ≡ (a.size + (2 ^ 64 - 1)) % 2 ^ 64)
        × (b.size ≢ d.size)
  delete_twice_sizes a c s t e f n cs st =
      let after_s = record a {
        nodes = update c (λ x. (remove x s).0) a.nodes;
        size = decrement a.size;
      } in
      let after_t = record a {
        nodes = update c (λ x. (remove x t).0) a.nodes;
        size = decrement a.size;
      } in
      let found_s = find_node-update c (λ x. (remove x s).0) e a.nodes (created_at-remove s) f in
      let found_t = find_node-update c (λ x. (remove x t).0) e a.nodes (created_at-remove t) f in
      let again = removes_again e s t n cs st in
      (
        record a {
          nodes = update c (λ x. (remove x t).0) after_s.nodes;
          size = decrement (decrement a.size);
        },
        after_t,
        rw (delete_takes a c s e f (removes_live e s n cs))
            (delete_takes after_s c t (remove e s).0 found_s again.0),
        rw (delete_takes a c t e f (removes_live e t n (o.cmp_trans e.created_at s t cs st)))
            (delete_refused after_t c s (remove e t).0 found_t again.1),
        update_twice c (λ x. (remove x s).0) (λ x. (remove x t).0) a.nodes (created_at-remove s)
            ∙ update_agree c (λ x. (remove (remove x s).0 t).0) (λ x. (remove x t).0) e a.nodes f
                again.2,
        omega arith,
        refl,
        λ h. omega (arith, h),
      )
