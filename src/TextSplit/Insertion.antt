-- ===== src/TextSplit/Insertion.antt =====
-- A new block, as `edit` of rga_tree_split.go inserts it, keeps the shape of the list.
use rotty.Prelude.{
  ◌≡◌, ◌≢◌, ◌<◌, ◌≤◌, refl, sym, ap, subst, ◌∙◌, none, some, Ord, List, [], ◌∷◌, arith, Bool-cases,
  Option-cases, inl, inr, if◌then◌else◌, ◌⊎◌, ◌≺◌, All,
}
use rotty.Prelude.Assoc.{lookup}
use rotty.TextSplit.{
  SplitValue, NodeId, Node, TextSplit, content_len, find_node, is_id, insert_behind, insert_after,
  id_keyed,
}
use rotty.TextSplit.Nodes.{find_node-id, is_id_iff, find_node-insert_behind, insert_behind-IsUnique}
use rotty.TextSplit.Shape.{IsWf, IsIn, end}

module _ {T C : Type 0} ⦃o : Ord T⦄ ⦃m : SplitValue C⦄ where
  All-found :
      (P : Node T C → Type 0) (xs : List (Node T C)) (i : NodeId T) (x : Node T C)
      → All P xs
      → find_node i xs ≡ some x
      → P x
  unfolding find_node
  All-found P [] i x a f = absurd (ground arith)
  All-found P (y ∷ xs) i x a f = elim (Bool-cases (is_id i y)) [
    | inl p ↦ subst P (ground (arith, p, f)) a.0
    | inr p ↦ All-found P xs i x a.1 (ground (arith, p, f))
  ]

module _ {T C : Type 0} ⦃o : Ord T⦄ ⦃m : SplitValue C⦄ (initial t : T) (s : TextSplit T C)
    (prev n : Node T C) (wf : IsWf initial s) (in_prev : IsIn s prev)
    (before : All (λ y. y.id.created_at ≺ t) s.nodes) (made : n.id.created_at ≡ t)
    (start : n.id.offset ≡ 0) (later : t ≢ initial) (solid_n : 0 < content_len n) where
  abbrev after : TextSplit T C
  after = insert_after s prev.id n

  earlier : (y : Node T C) → IsIn s y → y.id.created_at ≢ t
  earlier y in_y e =
      ground
        (arith, All-found (λ y. y.id.created_at ≺ t) s.nodes y.id y before in_y, e, o.cmp_refl t)

  new_absent : find_node n.id s.nodes ≡ none
  new_absent = elim (Option-cases (find_node n.id s.nodes)) [
    | inl e ↦ e
    | inr (y, e) ↦
        (let same = find_node-id n.id s.nodes y e in
          absurd (
            earlier y (ap (λ i. find_node i s.nodes) same ∙ e)
              (ap (λ i. i.created_at) same ∙ made)))
  ]

  find_new :
      (q : NodeId T) → find_node q after.nodes ≡ (if is_id q n then some n else find_node q s.nodes)
  find_new q = find_node-insert_behind q prev.id n prev s.nodes in_prev new_absent

  still-IsIn : (y : Node T C) → IsIn s y → IsIn after y
  still-IsIn y in_y =
      ground
        (arith, find_new y.id, in_y, is_id_iff y.id n, new_absent, ap (λ i. find_node i s.nodes))

  new_elim :
      (P : Node T C → Type 0)
      → P n
      → ((y : Node T C) → IsIn s y → P y)
      → (z : Node T C) → IsIn after z
      → P z
  new_elim P at_n old z in_z = elim (Bool-cases (is_id z.id n)) [
    | inl p ↦ subst P (ground (arith, find_new z.id, in_z, p)) at_n
    | inr p ↦ old z (ground (arith, find_new z.id, in_z, p))
  ]

  abbrev AreApart : Node T C → Node T C → Type 0
  AreApart z w =
      z.id.created_at ≡ w.id.created_at
      → (z.id ≡ w.id) ⊎ (end z ≤ w.id.offset) ⊎ (end w ≤ z.id.offset)

  insert_first :
      (xs zs : List (Node T C)) (z : Node T C)
      → ((y : Node T C) (rest : List (Node T C)) → xs ≡ y ∷ rest → y.id.created_at ≡ initial)
      → insert_behind prev.id n xs ≡ z ∷ zs
      → z.id.created_at ≡ initial
  unfolding insert_behind
  insert_first [] zs z first e = absurd (ground arith)
  insert_first (y ∷ xs) zs z first e = ground (arith, first y xs refl, e)

  pub insert_after-IsWf : IsWf initial after
  unfolding find_node
  insert_after-IsWf = record {
    unique = insert_behind-IsUnique prev.id n prev s.nodes in_prev new_absent wf.unique;
    filled = λ e. ground (arith, still-IsIn prev in_prev, ap (find_node prev.id) e);
    first = λ z zs e. insert_first s.nodes zs z wf.first e;
    solid = new_elim (λ z. z.id.created_at ≢ initial → 0 < content_len z) (λ _. solid_n) wf.solid;
    headed =
        new_elim (λ z. z.id.created_at ≡ initial → (z.id.offset ≡ 0) × (content_len z ≡ 0))
          (λ e. absurd (later (sym made ∙ e))) wf.headed;
    apart = λ z w in_z in_w.
        new_elim (λ z. AreApart z w)
          (new_elim (λ w. AreApart n w) (λ _. inl refl)
            (λ y in_y e. absurd (earlier y in_y (sym e ∙ made))) w in_w)
          (λ v in_v.
            new_elim (λ w. AreApart v w) (λ e. absurd (earlier v in_v (e ∙ made)))
              (λ y in_y. wf.apart v y in_v in_y) w in_w)
          z in_z;
    led =
        new_elim
          (λ y.
            0 < y.id.offset
            → (x : Node T C) × IsIn after x
              × (x.id.created_at ≡ y.id.created_at)
              × (end x ≡ y.id.offset)
              × (lookup y.id s.ins_prev ≡ some x.id)
              × (lookup x.id s.ins_next ≡ some y.id))
          (λ pos. absurd (ground (arith, pos, start)))
          (λ y in_y pos.
            (let (x, in_x, created, fits, prev', next) = wf.led y in_y pos in
              (x, still-IsIn x in_x, created, fits, prev', next)));
    leads = λ i next e.
        (let (x, in_x, same, created, offset) = wf.leads i next e in
          (x, still-IsIn x in_x, same, created, offset));
  }
