-- ===== src/Llrb/Floor.antt =====
-- `Floor` of llrb.go finds the greatest key that is not above the given one.
use rotty.Prelude.{
  ◌≡◌, ◌≢◌, ◌⊎◌, inl, inr, refl, ◌∙◌, false, Option, none, some, lt, Ord, List, [], ◌∷◌, ◌++◌,
  IsSorted, IsSorted-middle, KeysAbove, last_le, last_le-left, last_le-right, last_le-here,
  or_entry, last_le-some, last_le-none, arith, if◌then◌else◌, Ordering-cases,
}
use rotty.Llrb.{
  Tree, leaf, node, to_list, is_leaf, Turn, went_left, went_right, FloorResult, found, missing,
  above_root, climb, descend, floor, Llrb,
}

module _ {ℓ κ} {K : Type ℓ} {V : Type κ} ⦃o : Ord K⦄ where
  abbrev answer : Option (K × V) → FloorResult K V → FloorResult K V
  answer none r = r
  answer (some (k, v)) r = found k v

  answer-or_entry :
      (o' : Option (K × V)) (k : K) (v : V) (r : FloorResult K V)
      → answer o' (found k v) ≡ answer (or_entry o' (k, v)) r
  answer-or_entry none k v r = refl
  answer-or_entry (some e) k v r = refl

  below_left :
      (l : Tree K V) (q : K) (r d : FloorResult K V)
      → (is_leaf l ≡ false → d ≡ answer (last_le q (to_list l)) r)
      → (if is_leaf l then r else d) ≡ answer (last_le q (to_list l)) r
  unfolding last_le
  below_left leaf q r d h = refl
  below_left (node c l k v r') q r d h = h refl

  below_right :
      (t : Tree K V) (q k : K) (v : V) (r d : FloorResult K V)
      → (is_leaf t ≡ false → d ≡ answer (last_le q (to_list t)) (found k v))
      → (if is_leaf t then found k v else d) ≡ answer (or_entry (last_le q (to_list t)) (k, v)) r
  unfolding last_le
  below_right leaf q k v r d h = refl
  below_right (node c l k' v' r') q k v r d h =
      h refl ∙ answer-or_entry (last_le q (to_list (node c l k' v' r'))) k v r

  descend-last_le :
      (t : Tree K V) (q : K) (turns : List (Turn K V))
      → is_leaf t ≡ false
      → IsSorted (to_list t)
      → descend t q turns ≡ answer (last_le q (to_list t)) (climb turns)
  unfolding descend
  descend-last_le leaf q turns h s = absurd (ground arith)
  descend-last_le (node c l k v r) q turns h s =
      let (sl, bl, ar, sr) = IsSorted-middle (to_list l) k v (to_list r) s in
      elim (Ordering-cases (o.cmp q k)) [
        | inl lo ↦
            rw (lo, descend, last_le-left q (to_list l) k v (to_list r) lo ar)
              (below_left l q (climb turns) _ (λ n. descend-last_le l q (went_left ∷ turns) n sl))
        | inr (inl here) ↦ rw (here, descend, last_le-here q (to_list l) k v (to_list r) here ar)
        | inr (inr hi) ↦
            rw (hi, descend, last_le-right q (to_list l) k v (to_list r) hi)
              (below_right r q k v (climb turns) _
                (λ n. descend-last_le r q (went_right k v ∷ turns) n sr))
      ]

  -- What `Floor` returns, case by case.
  abbrev pub IsFloor : Llrb K V → K → FloorResult K V → Type (ℓ ⊔ κ)
  IsFloor t q missing = t.root ≡ leaf
  IsFloor t q above_root = (t.root ≢ leaf) × KeysAbove q (to_list t.root)
  IsFloor t q (found k v) =
      (before after : List (K × V)) × (to_list t.root ≡ before ++ (k, v) ∷ after)
      × (o.cmp q k ≢ lt)
      × KeysAbove q after

  answer-IsFloor :
      (t : Llrb K V) (q : K) (e : Option (K × V))
      → t.root ≢ leaf
      → last_le q (to_list t.root) ≡ e
      → IsFloor t q (answer e above_root)
  answer-IsFloor t q none n h = (n, last_le-none q (to_list t.root) h)
  answer-IsFloor t q (some (k, v)) n h = last_le-some q (to_list t.root) (k, v) h

  root_cases : (r : Tree K V) → (r ≡ leaf) ⊎ ((is_leaf r ≡ false) × (r ≢ leaf))
  root_cases leaf = inl refl
  root_cases (node c l k v r) = inr (refl, λ e. cc)

  -- On a tree with a sorted listing `Floor` returns the entry with the greatest key that is not above
  -- `q`: every key behind it in the listing is above `q`. It returns the two nils on the empty tree
  -- only, and it climbs past the root only if every key is above `q`.
  pub floor-IsFloor : (t : Llrb K V) (q : K) → IsSorted (to_list t.root) → IsFloor t q (floor t q)
  unfolding floor
  floor-IsFloor t q s = elim (root_cases t.root) [
    | inl e ↦ rw (e, descend)
    | inr (n, m) ↦
        rw (descend-last_le t.root q [] n s, climb)
          (answer-IsFloor t q (last_le q (to_list t.root)) m refl)
  ]
