-- ===== src/TextSplit/Similar.antt =====
-- Lists of blocks that differ in nothing but what the blocks hold and when they were removed: the
-- shape of rga_tree_split.go does not see the difference.
use rotty.Prelude.{
  ◌≡◌, refl, sym, ap, ◌∙◌, none, some, Ord, List, [], ◌∷◌, ◌++◌, arith, Bool-cases, Option-cases,
  inl, inr,
}
use rotty.Prelude.Assoc.{lookup}
use rotty.TextSplit.{SplitValue, NodeId, Node, TextSplit, content_len, find_node, id_keyed, is_id}
use rotty.TextSplit.Nodes.{IsUnique, is_id_iff}
use rotty.TextSplit.Shape.{IsWf, end}

module _ {T C : Type 0} ⦃m : SplitValue C⦄ where
  abbrev pub Similar : List (Node T C) → List (Node T C) → Type 0
  Similar [] [] = Unit
  Similar [] (y ∷ ys) = ⊥
  Similar (x ∷ xs) [] = ⊥
  Similar (x ∷ xs) (y ∷ ys) = (x.id ≡ y.id) × (content_len x ≡ content_len y) × Similar xs ys

  pub Similar-refl : (xs : List (Node T C)) → Similar xs xs
  Similar-refl [] = tt
  Similar-refl (x ∷ xs) = (refl, refl, Similar-refl xs)

  pub Similar-sym : (xs ys : List (Node T C)) → Similar xs ys → Similar ys xs
  Similar-sym [] [] h = tt
  Similar-sym [] (y ∷ ys) h = h
  Similar-sym (x ∷ xs) [] h = h
  Similar-sym (x ∷ xs) (y ∷ ys) h = (sym h.0, sym h.1, Similar-sym xs ys h.2)

  pub Similar-append :
      (xs ys us vs : List (Node T C))
      → Similar xs us
      → Similar ys vs
      → Similar (xs ++ ys) (us ++ vs)
  Similar-append [] ys [] vs h k = k
  Similar-append [] ys (u ∷ us) vs h k = absurd h
  Similar-append (x ∷ xs) ys [] vs h k = absurd h
  Similar-append (x ∷ xs) ys (u ∷ us) vs h k = (h.0, h.1, Similar-append xs ys us vs h.2 k)

  Similar-nil : (xs ys : List (Node T C)) → Similar xs ys → ys ≡ [] → xs ≡ []
  Similar-nil [] ys h e = refl
  Similar-nil (x ∷ xs) [] h e = absurd h
  Similar-nil (x ∷ xs) (y ∷ ys) h e = absurd (ground (arith, e))

module _ {T C : Type 0} ⦃o : Ord T⦄ ⦃m : SplitValue C⦄ where
  find_node-Similar :
      (i : NodeId T) (xs ys : List (Node T C)) (x : Node T C)
      → Similar xs ys
      → find_node i xs ≡ some x
      → (y : Node T C) × (find_node i ys ≡ some y) × (x.id ≡ y.id) × (content_len x ≡ content_len y)
  unfolding find_node
  find_node-Similar i [] [] x h f = absurd (ground arith)
  find_node-Similar i [] (y ∷ ys) x h f = absurd h
  find_node-Similar i (z ∷ xs) [] x h f = absurd h
  find_node-Similar i (z ∷ xs) (y ∷ ys) x h f = elim (Bool-cases (is_id i z)) [
    | inl p ↦ (
      y,
      ground (arith, is_id_iff i z, is_id_iff i y, h.0, p),
      ground (arith, h.0, p, f),
      ground (arith, h.1, p, f),
    )
    | inr p ↦
        (let (w, g, a, b) = find_node-Similar i xs ys x h.2 (ground (arith, p, f)) in
          (w, ground (arith, is_id_iff i z, is_id_iff i y, h.0, p, g), a, b))
  ]

  find_node-Similar-none :
      (i : NodeId T) (xs ys : List (Node T C))
      → Similar xs ys
      → find_node i xs ≡ none
      → find_node i ys ≡ none
  find_node-Similar-none i xs ys h f = elim (Option-cases (find_node i ys)) [
    | inl e ↦ e
    | inr (y, e) ↦
        (let (x, g, _, _) = find_node-Similar i ys xs y (Similar-sym xs ys h) e in
          absurd (ground (arith, f, g)))
  ]

  pub Similar-IsUnique : (xs ys : List (Node T C)) → Similar xs ys → IsUnique xs → IsUnique ys
  Similar-IsUnique [] [] h u = tt
  Similar-IsUnique [] (y ∷ ys) h u = absurd h
  Similar-IsUnique (x ∷ xs) [] h u = absurd h
  Similar-IsUnique (x ∷ xs) (y ∷ ys) h u = (
    find_node-Similar-none y.id xs ys h.2 (ap (λ i. find_node i xs) (sym h.0) ∙ u.0),
    Similar-IsUnique xs ys h.2 u.1,
  )

  Similar-first :
      (initial : T) (xs ys zs : List (Node T C)) (z : Node T C)
      → Similar xs ys
      → ((x : Node T C) (rest : List (Node T C)) → xs ≡ x ∷ rest → x.id.created_at ≡ initial)
      → ys ≡ z ∷ zs
      → z.id.created_at ≡ initial
  Similar-first initial [] [] zs z h first e = absurd (ground arith)
  Similar-first initial [] (y ∷ ys) zs z h first e = absurd h
  Similar-first initial (x ∷ xs) [] zs z h first e = absurd h
  Similar-first initial (x ∷ xs) (y ∷ ys) zs z h first e = ground (arith, first x xs refl, h.0, e)

  -- Where a block stands in a list that is like another one.
  counterpart :
      (xs ys : List (Node T C)) (y : Node T C)
      → Similar xs ys
      → find_node y.id ys ≡ some y
      → (x : Node T C) × (find_node x.id xs ≡ some x) × (x.id ≡ y.id) × (end x ≡ end y)
  counterpart xs ys y h f =
      let (x, g, a, b) = find_node-Similar y.id ys xs y (Similar-sym xs ys h) f in
      (x, ap (λ i. find_node i xs) (sym a) ∙ g, sym a, ground (arith, a, b))

  counterpart_solid :
      (xs ys : List (Node T C)) (y : Node T C)
      → Similar xs ys
      → find_node y.id ys ≡ some y
      → (x : Node T C) × (find_node x.id xs ≡ some x)
        × (x.id ≡ y.id)
        × (content_len x ≡ content_len y)
  counterpart_solid xs ys y h f =
      let (x, g, a, b) = find_node-Similar y.id ys xs y (Similar-sym xs ys h) f in
      (x, ap (λ i. find_node i xs) (sym a) ∙ g, sym a, sym b)

  pub Similar-IsWf :
      (initial : T) (s : TextSplit T C) (ns : List (Node T C))
      → Similar s.nodes ns
      → IsWf initial s
      → IsWf initial (record s { nodes = ns })
  Similar-IsWf initial s ns h wf = record {
    unique = Similar-IsUnique s.nodes ns h wf.unique;
    filled = λ e. wf.filled (Similar-nil s.nodes ns h e);
    first = λ z zs e. Similar-first initial s.nodes ns zs z h wf.first e;
    solid = λ y in_y n.
        (let (x, f, a, b) = counterpart_solid s.nodes ns y h in_y in
          let k = wf.solid x f (λ e. n (ap (λ i. i.created_at) (sym a) ∙ e)) in
          ground (arith, k, b));
    headed = λ y in_y n.
        (let (x, f, a, b) = counterpart_solid s.nodes ns y h in_y in
          let k = wf.headed x f (ap (λ i. i.created_at) a ∙ n) in ground (arith, k, a, b));
    apart = λ y z in_y in_z n.
        (let (x, f, a, b) = counterpart s.nodes ns y h in_y in
          let (w, g, c, d) = counterpart s.nodes ns z h in_z in
          let k =
            wf.apart x w f g (ap (λ i. i.created_at) a ∙ n ∙ ap (λ i. i.created_at) (sym c)) in
          ground (arith, k, a, b, c, d));
    led = λ y in_y pos.
        (let (x, f, a, b) = counterpart s.nodes ns y h in_y in
          let (w, g, created, fits, prev, next) = wf.led x f (ground (arith, pos, a)) in
          let (z, k, c, d) = counterpart ns s.nodes w (Similar-sym s.nodes ns h) g in
          (
            z,
            k,
            ground (arith, created, a, c),
            ground (arith, fits, a, d),
            ap (λ i. lookup i s.ins_prev) (sym a) ∙ prev ∙ ap some (sym c),
            ap (λ i. lookup i s.ins_next) c ∙ next ∙ ap some a,
          ));
    leads = λ i n e.
        (let (w, g, same, created, offset) = wf.leads i n e in
          let (z, k, c, d) = counterpart ns s.nodes w (Similar-sym s.nodes ns h) g in
          (z, k, c ∙ same, created, offset ∙ sym d));
  }
