-- ===== src/Splay/Find.antt =====
-- `Find` of splay.go against a scan of the listing from the left.
use rotty.Prelude.{
  ℤ, pos, negsuc, minus, Bool, true, Bool-cases, inl, inr, ◌⊎◌, ℕ, ◌+◌, ◌-◌, ◌≤◌, ◌<◌, ◌≡◌, ◌≢◌,
  refl, ap, sym, ◌∙◌, false, not, List, [], ◌∷◌, ◌++◌, Option, none, some, arith, leb, ltb,
  if◌then◌else◌, ◌&&◌,
}
use rotty.Splay.{Measured, Tree, leaf, node, to_list, is_nil, found, out_of_bound, descend, find}
use rotty.Splay.Weights.{total, IsWeighted, weight-total}

module _ {V : Type 0} ⦃m : Measured V⦄ where
  -- From the left: the first value that the index does not pass, or else the last.
  unfoldable pub scan : List V → ℕ → Option (V × ℕ)
  scan [] i = none
  scan (v ∷ []) i = some (v, i)
  scan (v ∷ w ∷ vs) i =
      let rest = scan (w ∷ vs) (i - m.len v) in if leb i (m.len v) then some (v, i) else rest

  pub scan-append_left :
      (x : V) (xs ys : List V) (i : ℕ)
      → i ≤ total (x ∷ xs)
      → scan ((x ∷ xs) ++ ys) i ≡ scan (x ∷ xs) i
  unfolding scan
  scan-append_left x [] [] i h = refl
  scan-append_left x [] (y ∷ ys) i h = ground arith
  scan-append_left x (w ∷ xs) ys i h = ground (arith, scan-append_left w xs ys (i - m.len x))

  scan-append_right :
      (xs : List V) (y : V) (ys : List V) (i : ℕ)
      → total xs < i
      → scan (xs ++ y ∷ ys) i ≡ scan (y ∷ ys) (i - total xs)
  unfolding scan
  scan-append_right [] y ys i h = ap (scan (y ∷ ys)) (omega arith)
  scan-append_right (x ∷ []) y ys i h = ground (arith, scan-append_right [] y ys (i - m.len x))
  scan-append_right (x ∷ w ∷ xs) y ys i h =
      ground (arith, scan-append_right (w ∷ xs) y ys (i - m.len x))

  cons_form :
      (xs : List V) (y : V) (ys : List V) → (w : V) × (ws : List V) × (xs ++ y ∷ ys ≡ w ∷ ws)
  cons_form [] y ys = (y, ys, refl)
  cons_form (x ∷ xs) y ys = (x, xs ++ y ∷ ys, refl)

  -- The turn at a node, between it and its right subtree.
  scan-right :
      (v : V) (r : Tree V) (j : ℕ)
      → scan (v ∷ to_list r) j ≡ (
          if not (is_nil r) && ltb (m.len v) j then scan (to_list r) (j - m.len v) else some (v, j))
  unfolding scan
  scan-right v leaf j = refl
  scan-right v (node l x w r) j =
      let (y, ys, e) = cons_form (to_list l) x (to_list r) in rw e (ground arith)

  scan-left :
      (t : Tree V) (ys : List V) (i : ℕ)
      → is_nil t ≡ false
      → i ≤ total (to_list t)
      → scan (to_list t ++ ys) i ≡ scan (to_list t) i
  scan-left leaf ys i n h = absurd (ground arith)
  scan-left (node l x w r) ys i n h =
      let (y, zs, e) = cons_form (to_list l) x (to_list r) in
      rw e (scan-append_left y zs ys i (rw e at h))

  scan_past :
      (t : Tree V) (y : V) (ys : List V) (i : ℕ)
      → (not (is_nil t) && leb i (total (to_list t))) ≡ false
      → scan (to_list t ++ y ∷ ys) i ≡ scan (y ∷ ys) (i - total (to_list t))
  scan_past leaf y ys i h = ap (scan (y ∷ ys)) (omega arith)
  scan_past (node l x w r) y ys i h =
      scan-append_right (to_list (node l x w r)) y ys i (ground arith)

  -- The weight of the root itself does not matter.
  abbrev pub IsWeightedBelow : Tree V → Type 0
  IsWeightedBelow leaf = Unit
  IsWeightedBelow (node l v w r) = IsWeighted l × IsWeighted r

  below : (t : Tree V) → IsWeighted t → IsWeightedBelow t
  below leaf h = tt
  below (node l v w r) h = (h.1, h.2)

  -- An offset that is not negative, as an `int`.
  abbrev pub as_int : Option (V × ℕ) → Option (V × ℤ)
  as_int none = none
  as_int (some (v, offset)) = some (v, pos offset)

  past_left :
      (t : Tree V) (i : ℕ)
      → (not (is_nil t) && leb i (total (to_list t))) ≡ false
      → total (to_list t) ≤ i
  past_left leaf i h = omega arith
  past_left (node l v w r) i h = ground arith

  -- The turn to the right, or the end there.
  turn_right :
      (c : Bool) (on_right : ℤ → Option (V × ℤ)) (scanned : ℕ → Option (V × ℕ)) (v : V) (a b i : ℕ)
      → a ≤ i
      → on_right (pos (i - (a + b))) ≡ as_int (scanned (i - (a + b)))
      → (if c && ltb (a + b) i then on_right (minus (pos i) (a + b)) else some (v, minus (pos i) a))
        ≡ as_int (if c && ltb b (i - a) then scanned (i - a - b) else some (v, i - a))
  turn_right c on_right scanned v a b i le h =
      let here : leb a i ≡ true = ground arith in
      elim (Bool-cases (c && ltb b (i - a))) [
        | inl past ↦
            (let past' : (c && ltb (a + b) i) ≡ true = ground arith in
              let fits : leb (a + b) i ≡ true = ground arith in
              let sum : i - a - b ≡ i - (a + b) = omega arith in rw (past, past', fits, sum) h)
        | inr within ↦
            (let within' : (c && ltb (a + b) i) ≡ false = ground arith in
              rw (within, within', here) refl)
      ]

  descend-scan :
      (t : Tree V) (i : ℕ) → IsWeightedBelow t → descend t (pos i) ≡ as_int (scan (to_list t) i)
  unfolding descend
  descend-scan leaf i h = unfold scan in refl
  descend-scan (node l v w r) i h =
      rw (weight-total l h.0) (elim (Bool-cases (not (is_nil l) && leb i (total (to_list l)))) [
        | inl low ↦ rw low (
            descend-scan l i (below l h.0)
            ∙ ap as_int (sym (scan-left l (v ∷ to_list r) i (ground arith) (ground arith))))
        | inr high ↦
            rw (high, scan_past l v (to_list r) i high, scan-right v r (i - total (to_list l)))
              (turn_right (not (is_nil r)) (descend r) (scan (to_list r)) v (total (to_list l))
                (m.len v) i (past_left l i high)
                (descend-scan r (i - (total (to_list l) + m.len v)) (below r h.1)))
      ])

  -- A negative index leads to the left as far as it goes.
  descend-first :
      (t : Tree V) (i : ℕ)
      → t ≢ leaf
      → (v : V) × (after : List V) × (descend t (negsuc i) ≡ some (v, negsuc i))
        × (to_list t ≡ v ∷ after)
  unfolding descend
  descend-first leaf i n = absurd (n refl)
  descend-first (node leaf v w r) i n = (v, to_list r, ground arith, refl)
  descend-first (node (node l u x k) v w r) i n =
      let (first, after, e, list) = descend-first (node l u x k) i (λ p. cc) in
      (first, after ++ v ∷ to_list r, e, ap (λ xs. xs ++ v ∷ to_list r) list)

  -- Where an index falls in a list: in the first value that it does not pass.
  pub scan_cut :
      (vs : List V) (i : ℕ)
      → vs ≢ []
      → i ≤ total vs
      → (before : List V) × (v : V) × (after : List V) × (offset : ℕ) × (scan vs i
          ≡ some (v, offset))
        × (vs ≡ before ++ v ∷ after)
        × (total before + offset ≡ i)
        × (offset ≤ m.len v)
        × ((before ≡ []) ⊎ (0 < offset))
  unfolding scan
  scan_cut [] i n h = absurd (n refl)
  scan_cut (v ∷ []) i n h = ([], v, [], i, refl, refl, omega arith, omega arith, inl refl)
  scan_cut (v ∷ w ∷ vs) i n h = elim (Bool-cases (leb i (m.len v))) [
    | inl le ↦ ([], v, w ∷ vs, i, rw le, refl, omega arith, ground arith, inl refl)
    | inr gt ↦
        (let (before, u, after, offset, e, cut, sum, fits, earliest) =
            scan_cut (w ∷ vs) (i - m.len v) (λ p. cc) (omega arith) in
          (
            v ∷ before,
            u,
            after,
            offset,
            rw gt e,
            ap (◌∷◌ v) cut,
            ground (arith, sum),
            fits,
            inr (elim earliest [ inl p ↦ ground (arith, ap total p, sum) | inr p ↦ p ]),
          ))
  ]

  pub scan_beyond :
      (vs : List V) (i : ℕ)
      → vs ≢ []
      → total vs < i
      → (v : V) × (offset : ℕ) × (scan vs i ≡ some (v, offset)) × (m.len v < offset)
  unfolding scan
  scan_beyond [] i n h = absurd (n refl)
  scan_beyond (v ∷ []) i n h = (v, i, refl, omega arith)
  scan_beyond (v ∷ w ∷ vs) i n h =
      let (u, offset, e, past) = scan_beyond (w ∷ vs) (i - m.len v) (λ p. cc) (omega arith) in
      (u, offset, ground (arith, e), past)

  to_list-ne-nil : (t : Tree V) → t ≢ leaf → to_list t ≢ []
  to_list-ne-nil leaf n e = n refl
  to_list-ne-nil (node l v w r) n e =
      let (y, ys, p) = cons_form (to_list l) v (to_list r) in cc (p, e)

  -- `Find` on a tree that is not empty and whose weights below the root are right. An index from 0 up
  -- to the listed length cuts the listing at the value that is returned, at an offset within it, and
  -- in the earliest value that fits; a greater index ends the program; and a negative index gives the
  -- first value of the listing, with the index itself as the offset.
  pub find_cut :
      (t : Tree V) (i : ℕ)
      → t ≢ leaf
      → IsWeightedBelow t
      → (i ≤ total (to_list t)
          → (before : List V) × (v : V) × (after : List V) × (offset : ℕ) × (find t (pos i)
              ≡ found v (pos offset))
            × (to_list t ≡ before ++ v ∷ after)
            × (total before + offset ≡ i)
            × (offset ≤ m.len v)
            × ((before ≡ []) ⊎ (0 < offset)))
        × (total (to_list t) < i → find t (pos i) ≡ out_of_bound)
        × ((v : V) × (after : List V) × (find t (negsuc i) ≡ found v (negsuc i))
            × (to_list t ≡ v ∷ after))
  unfolding find
  find_cut t i n h = (
    λ le.
        (let (before, v, after, offset, e, cut, sum, fits, earliest) =
            scan_cut (to_list t) i (to_list-ne-nil t n) le in
          (
            before,
            v,
            after,
            offset,
            rw (descend-scan t i h, find) (ground (arith, e)),
            cut,
            sum,
            fits,
            earliest,
          )),
    λ gt.
        (let (v, offset, e, past) = scan_beyond (to_list t) i (to_list-ne-nil t n) gt in
          rw (descend-scan t i h, find) (ground (arith, e))),
    let (v, after, e, list) = descend-first t i n in (v, after, rw (e, find) refl, list),
  )
