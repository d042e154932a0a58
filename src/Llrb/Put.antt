-- ===== src/Llrb/Put.antt =====
-- `Put` of llrb.go never dereferences nil, and inserts into the sorted listing of the tree.
use mathlib.Core.List.{append_assoc}
use rotty.Prelude.{
  ◌<◌, Ordering-cases, Bool-cases, inl, inr, ◌&&◌, not, ℕ, ◌+◌, ◌≡◌, refl, sym, ap, ◌∙◌, Bool, true,
  false, Option, some, Ord, List, [], ◌∷◌, ◌++◌, IsSorted, IsSorted-middle, insert_sorted,
  insert_sorted-left, insert_sorted-right, insert_sorted-here, insert_sorted-IsSorted, arith,
  if◌then◌else◌, length, length-append,
}
use rotty.Llrb.{
  Tree, is_red, leaf, node, to_list, lean_left, break_left_pair, split_four, repair, blacken,
  insert, put, Llrb,
}

module _ {ℓ κ} {K : Type ℓ} {V : Type κ} where
  -- There is a result, and it has this listing.
  abbrev Lists : List (K × V) → Option (Tree K V) → Type (ℓ ⊔ κ)
  Lists xs o = (t : Tree K V) × (o ≡ some t) × (to_list t ≡ xs)

  lean_left-Lists : (t : Tree K V) → Lists (to_list t) (lean_left t)
  unfolding lean_left
  lean_left-Lists leaf = (leaf, refl, refl)
  lean_left-Lists (node c l k v leaf) = (node c l k v leaf, refl, refl)
  lean_left-Lists (node c l k v (node c' rl rk rv rr)) = elim (Bool-cases (c' && not (is_red l))) [
    | inl e ↦ (node c (node true l k v rl) rk rv rr, rw e, simp append_assoc)
    | inr e ↦ (node c l k v (node c' rl rk rv rr), rw e, refl)
  ]

  break_left_pair-Lists : (t : Tree K V) → Lists (to_list t) (break_left_pair t)
  unfolding break_left_pair
  break_left_pair-Lists leaf = (leaf, refl, refl)
  break_left_pair-Lists (node c leaf k v r) = (node c leaf k v r, refl, refl)
  break_left_pair-Lists (node c (node c' ll lk lv lr) k v r) = elim (Bool-cases (c' && is_red ll)) [
    | inl e ↦ (node c ll lk lv (node true lr k v r), rw e, simp append_assoc)
    | inr e ↦ (node c (node c' ll lk lv lr) k v r, rw e, refl)
  ]

  split_four-Lists : (t : Tree K V) → Lists (to_list t) (split_four t)
  unfolding split_four
  split_four-Lists leaf = (leaf, refl, refl)
  split_four-Lists (node c leaf k v r) = (node c leaf k v r, refl, refl)
  split_four-Lists (node c (node c' ll lk lv lr) k v leaf) =
      (node c (node c' ll lk lv lr) k v leaf, ground arith, refl)
  split_four-Lists (node c (node c' ll lk lv lr) k v (node c'' rl rk rv rr)) =
      elim (Bool-cases (c' && c'')) [
        | inl e ↦
            (node (not c) (node (not c') ll lk lv lr) k v (node (not c'') rl rk rv rr), rw e, refl)
        | inr e ↦ (node c (node c' ll lk lv lr) k v (node c'' rl rk rv rr), rw e, refl)
      ]

  repair-Lists : (t : Tree K V) → Lists (to_list t) (repair t)
  repair-Lists t =
      let (t₁, e₁, l₁) = lean_left-Lists t in
      let (t₂, e₂, l₂) = break_left_pair-Lists t₁ in
      let (t₃, e₃, l₃) = split_four-Lists t₂ in
      (t₃, unfold repair in rw e₁ (rw e₂ e₃), l₃ ∙ l₂ ∙ l₁)

  blacken-Lists : (t : Tree K V) → 0 < length (to_list t) → Lists (to_list t) (blacken t)
  unfolding blacken
  blacken-Lists leaf h = absurd (omega arith)
  blacken-Lists (node c l k v r) h = (node false l k v r, refl, refl)

abbrev count : Bool → ℕ → ℕ
count grown n = if grown then n + 1 else n

module _ {ℓ κ} {K : Type ℓ} {V : Type κ} ⦃o : Ord K⦄ where
  -- What a run of `insert` is: there is a result, with this listing, and the flag counts its entry.
  abbrev Inserts : Tree K V → K → V → Option (Tree K V × Bool) → Type (ℓ ⊔ κ)
  Inserts t q w r =
      (t' : Tree K V) × (grown : Bool) × (r ≡ some (t', grown))
      × (to_list t' ≡ insert_sorted q w (to_list t))
      × (length (to_list t') ≡ count grown (length (to_list t)))

  length_around :
      (xs xs' ys ys' : List (K × V)) (e e' : K × V) (grown : Bool)
      → count grown (length xs + length ys) ≡ length xs' + length ys'
      → length (xs' ++ e' ∷ ys') ≡ count grown (length (xs ++ e ∷ ys))
  length_around xs xs' ys ys' e e' grown h =
      ground (arith, length-append xs (e ∷ ys), length-append xs' (e' ∷ ys'))

  insert-Inserts :
      (t : Tree K V) (q : K) (w : V) → IsSorted (to_list t) → Inserts t q w (insert t q w)
  unfolding insert
  insert-Inserts leaf q w s =
      (node true leaf q w leaf, true, refl, unfold insert_sorted in refl, omega arith)
  insert-Inserts (node c l k v r) q w s =
      let (sl, bl, ar, sr) = IsSorted-middle (to_list l) k v (to_list r) s in
      elim (Ordering-cases (o.cmp q k)) [
        | inl h ↦
            (let (l', grown, e, el, en) = insert-Inserts l q w sl in
              let (t', e', et) = repair-Lists (node c l' k v r) in
              (
                t',
                grown,
                rw (h, insert) (rw e (rw e')),
                et ∙ rw el (sym (insert_sorted-left q w (to_list l) k v (to_list r) h)),
                ap length et
                    ∙ length_around (to_list l) (to_list l') (to_list r) (to_list r) (k, v) (k, v)
                        grown (ground (arith, en)),
              ))
        | inr (inl h) ↦
            (let (t', e', et) = repair-Lists (node c l k w r) in
              (
                t',
                false,
                rw (h, insert) (rw e'),
                et ∙ sym (insert_sorted-here q w (to_list l) k v (to_list r) bl h),
                ap length et
                    ∙ length_around (to_list l) (to_list l) (to_list r) (to_list r) (k, v) (k, w)
                        false refl,
              ))
        | inr (inr h) ↦
            (let (r', grown, e, er, en) = insert-Inserts r q w sr in
              let (t', e', et) = repair-Lists (node c l k v r') in
              (
                t',
                grown,
                rw (h, insert) (rw e (rw e')),
                et
                    ∙ rw er (
                        sym (
                          insert_sorted-right q w (to_list l) k v (to_list r) bl
                            (rw (o.cmp_flip q k) (rw h)))),
                ap length et
                    ∙ length_around (to_list l) (to_list l) (to_list r) (to_list r') (k, v) (k, v)
                        grown (ground (arith, en)),
              ))
      ]

  insert_sorted_pos : (q : K) (w : V) (xs : List (K × V)) → 0 < length (insert_sorted q w xs)
  unfolding insert_sorted
  insert_sorted_pos q w [] = omega arith
  insert_sorted_pos q w ((k, v) ∷ xs) = ground arith

  -- `size` counts the entries.
  pub record IsSized (t : Llrb K V) : Type 0 where
    pub counts : t.size ≡ length (to_list t.root)
    pub sorted : IsSorted (to_list t.root)

  -- `Put` on a tree whose listing is sorted and whose size counts its entries does not panic; the
  -- new listing is the old one with the entry inserted, or its value replaced, and `size` goes on
  -- counting the entries.
  pub put-insert_sorted :
      (t : Llrb K V) (q : K) (w : V)
      → IsSized t
      → (t' : Llrb K V) × (put t q w ≡ some t')
        × (to_list t'.root ≡ insert_sorted q w (to_list t.root))
        × IsSized t'
  unfolding put
  put-insert_sorted t q w s =
      let (r, grown, e, el, en) = insert-Inserts t.root q w s.sorted in
      let (b, e', eb) = blacken-Lists r (rw el (insert_sorted_pos q w (to_list t.root))) in
      (
        record { root = b; size = if grown then t.size + 1 else t.size },
        rw e (rw e'),
        eb ∙ el,
        record {
          counts = ground (arith, ap length eb, en, s.counts);
          sorted = rw (eb ∙ el) (insert_sorted-IsSorted q w (to_list t.root) s.sorted);
        },
      )
