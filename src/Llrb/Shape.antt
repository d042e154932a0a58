-- ===== src/Llrb/Shape.antt =====
-- The three invariants that the comment on `Tree` in llrb.go lists, and that `Put` keeps them.
use rotty.Prelude.{
  ℕ, suc, ◌+◌, ◌≡◌, refl, subst, sym, ◌∙◌, Bool, true, false, ◌&&◌, Option, some, Ord, arith,
  if◌then◌else◌, Ordering-cases, inl, inr,
}
use rotty.Llrb.{
  Tree, leaf, node, is_red, is_leaf, lean_left, break_left_pair, split_four, repair, blacken,
  insert, put, Llrb,
}

module _ {ℓ κ} {K : Type ℓ} {V : Type κ} where
  -- The number of black nodes on the leftmost path.
  abbrev pub black_height : Tree K V → ℕ
  black_height leaf = 0
  black_height (node c l k v r) = if c then black_height l else suc (black_height l)

  -- Every path to a leaf has the same number of black nodes.
  abbrev pub IsBalanced : Tree K V → Type 0
  IsBalanced leaf = Unit
  IsBalanced (node c l k v r) = (black_height l ≡ black_height r) × IsBalanced l × IsBalanced r

  -- No right child is red, and no red node has a red child.
  abbrev pub IsLean : Tree K V → Type 0
  IsLean leaf = Unit
  IsLean (node c l k v r) = (is_red r ≡ false) × ((c && is_red l) ≡ false) × IsLean l × IsLean r

  -- A subtree in the middle of `put`: its root and its left child may both be red.
  abbrev IsAlmostLean : Tree K V → Type 0
  IsAlmostLean leaf = Unit
  IsAlmostLean (node c l k v r) = (is_red r ≡ false) × IsLean l × IsLean r

  IsLean-almost : (t : Tree K V) → IsLean t → IsAlmostLean t
  IsLean-almost leaf h = tt
  IsLean-almost (node c l k v r) h = (h.0, h.2, h.3)

  -- The subtree that takes the place of one of colour `c` and black height `n`.
  abbrev Replaces : Bool → ℕ → Tree K V → Type 0
  Replaces c n t =
      IsAlmostLean t
      × (c ≡ false → IsLean t)
      × IsBalanced t
      × (black_height t ≡ n)
      × (is_leaf t ≡ false)

  abbrev Repaired : Bool → ℕ → Option (Tree K V) → Type (ℓ ⊔ κ)
  Repaired c n o = (t : Tree K V) × (o ≡ some t) × Replaces c n t

  -- `repair` above a left child that `put` has changed.
  repair-left :
      (c : Bool) (l : Tree K V) (k : K) (v : V) (r : Tree K V)
      → IsAlmostLean l
      → (c ≡ true → IsLean l)
      → is_red r ≡ false
      → IsLean r
      → IsBalanced (node c l k v r)
      → Repaired c (black_height (node c l k v r)) (repair (node c l k v r))
  unfolding repair lean_left break_left_pair split_four
  repair-left c leaf k v r a al n lr b = (node c leaf k v r, ground arith, ground arith)
  repair-left c (node false ll lk lv lr') k v r a al n lr b =
      (node c (node false ll lk lv lr') k v r, ground arith, ground arith)
  repair-left c (node true leaf lk lv lr') k v r a al n lr b =
      (node c (node true leaf lk lv lr') k v r, ground arith, ground arith)
  repair-left c (node true (node false x y z w) lk lv lr') k v r a al n lr b =
      (node c (node true (node false x y z w) lk lv lr') k v r, ground arith, ground arith)
  repair-left true (node true (node true x y z w) lk lv lr') k v r a al n lr b =
      absurd (ground (arith, al refl))
  repair-left false (node true (node true x y z w) lk lv lr') k v r a al n lr b =
      (node true (node false x y z w) lk lv (node false lr' k v r), ground arith, ground arith)

  -- `repair` above a right child that `put` has changed, which was black.
  repair-right :
      (c : Bool) (l : Tree K V) (k : K) (v : V) (r : Tree K V)
      → IsLean l
      → (c && is_red l) ≡ false
      → IsLean r
      → IsBalanced (node c l k v r)
      → Repaired c (black_height (node c l k v r)) (repair (node c l k v r))
  unfolding repair lean_left break_left_pair split_four
  repair-right c leaf k v leaf ll n lr b = (node c leaf k v leaf, ground arith, ground arith)
  repair-right c leaf k v (node false x y z w) ll n lr b =
      (node c leaf k v (node false x y z w), ground arith, ground arith)
  repair-right c leaf k v (node true x y z w) ll n lr b =
      (node c (node true leaf k v x) y z w, ground arith, ground arith)
  repair-right c (node false p q s t) k v leaf ll n lr b =
      (node c (node false p q s t) k v leaf, ground arith, ground arith)
  repair-right c (node false p q s t) k v (node false x y z w) ll n lr b =
      (node c (node false p q s t) k v (node false x y z w), ground arith, ground arith)
  repair-right c (node false p q s t) k v (node true x y z w) ll n lr b =
      (node c (node true (node false p q s t) k v x) y z w, ground arith, ground arith)
  repair-right c (node true p q s t) k v leaf ll n lr b =
      (node c (node true p q s t) k v leaf, ground arith, ground arith)
  repair-right c (node true p q s t) k v (node false x y z w) ll n lr b =
      (node c (node true p q s t) k v (node false x y z w), ground arith, ground arith)
  repair-right true (node true p q s t) k v (node true x y z w) ll n lr b = absurd (ground arith)
  repair-right false (node true p q s t) k v (node true x y z w) ll n lr b =
      (node true (node false p q s t) k v (node false x y z w), ground arith, ground arith)

  blacken-IsLean :
      (t : Tree K V)
      → is_leaf t ≡ false
      → IsLean t
      → IsBalanced t
      → (t' : Tree K V) × (blacken t ≡ some t') × ((is_red t' ≡ false) × IsLean t' × IsBalanced t')
  unfolding blacken
  blacken-IsLean leaf h s b = absurd (ground arith)
  blacken-IsLean (node c l k v r) h s b =
      (node false l k v r, refl, (refl, (s.0, refl, s.2, s.3), b))

module _ {ℓ κ} {K : Type ℓ} {V : Type κ} ⦃o : Ord K⦄ where
  insert-Replaces :
      (t : Tree K V) (q : K) (w : V)
      → IsLean t
      → IsBalanced t
      → (t' : Tree K V) × (grown : Bool) × (insert t q w ≡ some (t', grown))
        × Replaces (is_red t) (black_height t) t'
  unfolding insert
  insert-Replaces leaf q w s b = (node true leaf q w leaf, true, refl, ground arith)
  insert-Replaces (node c l k v r) q w s b = elim (Ordering-cases (o.cmp q k)) [
    | inl h ↦
        (let (l', grown, e, m) = insert-Replaces l q w s.2 b.1 in
          let (t', e', rep) =
            repair-left c l' k v r m.0 (λ p. m.1 (rw p at s.1)) s.0 s.3 (m.3 ∙ b.0, m.2, b.2) in
          (
            t',
            grown,
            rw (h, insert) (rw e (rw e')),
            subst (λ n. Replaces c (if c then n else suc n) t') m.3 rep,
          ))
    | inr (inl h) ↦
        (let (t', e', rep) = repair-left c l k w r (IsLean-almost l s.2) (λ _. s.2) s.0 s.3 b in
          (t', false, rw (h, insert) (rw e'), rep))
    | inr (inr h) ↦
        (let (r', grown, e, m) = insert-Replaces r q w s.3 b.2 in
          let (t', e', rep) = repair-right c l k v r' s.2 s.1 (m.1 s.0) (b.0 ∙ sym m.3, b.1, m.2) in
          (t', grown, rw (h, insert) (rw e (rw e')), rep))
  ]

  -- The three invariants of a tree whose root is black.
  pub record IsLeftLeaning (t : Llrb K V) : Type 0 where
    pub black_root : is_red t.root ≡ false
    pub lean : IsLean t.root
    pub balanced : IsBalanced t.root

  -- `Put` does not panic on a left-leaning red-black tree, and its result is one.
  pub put-IsLeftLeaning :
      (t : Llrb K V) (q : K) (w : V)
      → IsLeftLeaning t
      → (t' : Llrb K V) × (put t q w ≡ some t') × IsLeftLeaning t'
  unfolding put
  put-IsLeftLeaning t q w s =
      let (r, grown, e, m) = insert-Replaces t.root q w s.lean s.balanced in
      let (b, e', v) = blacken-IsLean r m.4 (m.1 s.black_root) m.2 in
      (
        record { root = b; size = if grown then t.size + 1 else t.size },
        rw e (rw e'),
        record { black_root = v.0; lean = v.1; balanced = v.2 },
      )
