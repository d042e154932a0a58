-- ===== src/TextSplit/Cut.antt =====
-- `splitNode` of rga_tree_split.go keeps the shape of the list.
use rotty.Prelude.{
  ◌+◌, ◌≡◌, ◌≢◌, ◌<◌, none, some, Ord, List, [], ◌∷◌, ◌⊎◌, inl, inr, arith, Option-cases,
  Bool-cases, refl, sym, ap, subst, ◌∙◌, if◌then◌else◌,
}
use rotty.Prelude.Assoc.{lookup}
use rotty.TextSplit.{
  SplitValue, NodeId, Node, TextSplit, id_ord, id_keyed, content_len, is_id, find_node, replace,
  link_cut,
}
use rotty.TextSplit.Nodes.{
  IsUnique, is_id_iff, find_node-id, find_node-replace_two, replace_two-IsUnique,
}
use rotty.TextSplit.Links.{
  nodes-link_cut, prev-link_cut, prev-link_cut_next, prev-link_cut_other, next-link_cut,
  next-link_cut_right, next-link_cut_other,
}
use rotty.TextSplit.Shape.{IsIn, IsWf, at_offset}

module _ {T C : Type 0} ⦃o : Ord T⦄ ⦃m : SplitValue C⦄ where
  -- The two parts of a node that is cut inside.
  pub record Halves (x a b : Node T C) : Type 0 where
    pub left_id : a.id ≡ x.id
    pub right_id : b.id ≡ at_offset x (content_len a)
    pub lengths : content_len a + content_len b ≡ content_len x
    pub left_solid : 0 < content_len a
    pub right_solid : 0 < content_len b

  unfoldable pub cut_state : TextSplit T C → Node T C → Node T C → TextSplit T C
  cut_state s a b =
      let cut : TextSplit T C = record s { nodes = replace a.id (a ∷ b ∷ []) s.nodes } in
      link_cut cut a.id b.id (lookup a.id s.ins_next)

  right_fresh :
      (initial : T) (s : TextSplit T C) (x a b : Node T C)
      → IsWf initial s
      → IsIn s x
      → Halves x a b
      → find_node b.id s.nodes ≡ none
  right_fresh initial s x a b wf in_x h = elim (Option-cases (find_node b.id s.nodes)) [
    | inl e ↦ e
    | inr (y, e) ↦
        (let y_id : y.id ≡ b.id = find_node-id b.id s.nodes y e in
          let in_y : IsIn s y = ap (λ i. find_node i s.nodes) y_id ∙ e in
          let x_solid = wf.headed x in_x in
          absurd (
            ground (
              arith,
              wf.apart x y in_x in_y,
              y_id,
              h.right_id,
              h.lengths,
              h.left_solid,
              h.right_solid,
              wf.solid y in_y,
              wf.headed y in_y,
            )))
  ]

module _ {T C : Type 0} ⦃o : Ord T⦄ ⦃m : SplitValue C⦄ (initial : T) (s : TextSplit T C)
    (x a b : Node T C) (wf : IsWf initial s) (in_x : IsIn s x) (h : Halves x a b) where
  pub fresh : find_node b.id s.nodes ≡ none
  fresh = right_fresh initial s x a b wf in_x h

  pub in_left : find_node a.id s.nodes ≡ some x
  in_left = ap (λ i. find_node i s.nodes) h.left_id ∙ in_x

  pub ids_differ : a.id ≢ b.id
  ids_differ e = ground (arith, in_left, fresh, ap (λ i. find_node i s.nodes) e)

  pub cut_find :
      (q : NodeId T)
      → find_node q (cut_state s a b).nodes
        ≡ (if is_id q b then some b else if is_id q a then some a else find_node q s.nodes)
  unfolding cut_state
  cut_find q =
      ap (find_node q) (nodes-link_cut _ a.id b.id (lookup a.id s.ins_next))
      ∙ find_node-replace_two q a b x s.nodes in_left fresh

  cut-IsIn :
      (z : Node T C)
      → IsIn (cut_state s a b) z
      → (z ≡ b) ⊎ (z ≡ a) ⊎ (IsIn s z × (z.id ≢ x.id) × (z.id ≢ b.id))
  cut-IsIn z in_z = elim (Bool-cases (is_id z.id b)) [
    | inl e ↦ inl (ground (arith, in_z, cut_find z.id))
    | inr e ↦ elim (Bool-cases (is_id z.id a)) [
      | inl f ↦ inr (inl (ground (arith, in_z, cut_find z.id)))
      | inr f ↦ inr (
          inr (
            ground (arith, in_z, cut_find z.id),
            λ p. ground (arith, is_id_iff z.id a, h.left_id, p),
            λ p. ground (arith, is_id_iff z.id b, p),
          ))
    ]
  ]

  pub cut-IsIn_right : IsIn (cut_state s a b) b
  cut-IsIn_right = ground (arith, cut_find b.id, is_id_iff b.id b)

  pub cut-IsIn_left : IsIn (cut_state s a b) a
  cut-IsIn_left = ground (arith, cut_find a.id, is_id_iff a.id a, is_id_iff a.id b, ids_differ)

  pub cut-IsIn_old : (z : Node T C) → IsIn s z → z.id ≢ x.id → IsIn (cut_state s a b) z
  cut-IsIn_old z in_z other = ground (
    arith,
    cut_find z.id,
    is_id_iff z.id a,
    is_id_iff z.id b,
    h.left_id,
    in_z,
    fresh,
    ap (λ i. find_node i s.nodes),
  )

  -- What holds of both parts and of every other node holds of the nodes behind the cut.
  pub cut_elim :
      (P : Node T C → Type 0)
      → P b
      → P a
      → ((z : Node T C) → IsIn s z → z.id ≢ x.id → z.id ≢ b.id → P z)
      → (z : Node T C) → IsIn (cut_state s a b) z
      → P z
  cut_elim P right left old z in_z = elim (cut-IsIn z in_z) [
    | inl e ↦ subst P (sym e) right
    | inr (inl e) ↦ subst P (sym e) left
    | inr (inr (in_s, n, k)) ↦ old z in_s n k
  ]

  pub cut-IsUnique : IsUnique (cut_state s a b).nodes
  unfolding cut_state
  cut-IsUnique =
      subst IsUnique (sym (nodes-link_cut _ a.id b.id (lookup a.id s.ins_next)))
        (replace_two-IsUnique a b x s.nodes in_left fresh wf.unique)

  pub cut_filled : (cut_state s a b).nodes ≢ []
  unfolding find_node
  cut_filled e = ground (arith, cut_find b.id, is_id_iff b.id b, ap (find_node b.id) e)

  replace_first :
      (xs ys : List (Node T C)) (z : Node T C)
      → ((y : Node T C) (rest : List (Node T C)) → xs ≡ y ∷ rest → y.id.created_at ≡ initial)
      → x.id.created_at ≢ initial
      → replace a.id (a ∷ b ∷ []) xs ≡ z ∷ ys
      → z.id.created_at ≡ initial
  unfolding replace
  replace_first [] ys z first n e = absurd (ground arith)
  replace_first (y ∷ xs) ys z first n e = elim (Bool-cases (is_id a.id y)) [
    | inl p ↦
        absurd
          (n (sym (ap (λ i. i.created_at) ((is_id_iff a.id y).0 p ∙ h.left_id)) ∙ first y xs refl))
    | inr p ↦ ground (arith, first y xs refl, p)
  ]

  pub cut_first :
      x.id.created_at ≢ initial
      → (z : Node T C) (zs : List (Node T C)) → (cut_state s a b).nodes ≡ z ∷ zs
      → z.id.created_at ≡ initial
  unfolding cut_state
  cut_first n z zs e =
      replace_first s.nodes zs z wf.first n
        (sym (nodes-link_cut _ a.id b.id (lookup a.id s.ins_next)) ∙ e)

  pub cut_nodes : (cut_state s a b).nodes ≡ replace a.id (a ∷ b ∷ []) s.nodes
  unfolding cut_state
  cut_nodes = nodes-link_cut _ a.id b.id (lookup a.id s.ins_next)

module _ {T C : Type 0} ⦃o : Ord T⦄ ⦃m : SplitValue C⦄ (s : TextSplit T C) (a b : Node T C) where
  pub cut_prev_right : lookup b.id (cut_state s a b).ins_prev ≡ some a.id
  unfolding cut_state
  cut_prev_right = prev-link_cut _ a.id b.id (lookup a.id s.ins_next)

  pub cut_prev_next :
      (n : NodeId T)
      → b.id ≢ n
      → lookup a.id s.ins_next ≡ some n
      → lookup n (cut_state s a b).ins_prev ≡ some b.id
  unfolding cut_state
  cut_prev_next n d e =
      rw e
        (prev-link_cut_next (record s { nodes = replace a.id (a ∷ b ∷ []) s.nodes }) a.id b.id n d)

  pub cut_prev_other :
      (q : NodeId T)
      → b.id ≢ q
      → lookup a.id s.ins_next ≢ some q
      → lookup q (cut_state s a b).ins_prev ≡ lookup q s.ins_prev
  unfolding cut_state
  cut_prev_other q d n = prev-link_cut_other _ a.id b.id q (lookup a.id s.ins_next) d n

  pub cut_next_left : lookup a.id (cut_state s a b).ins_next ≡ some b.id
  unfolding cut_state
  cut_next_left = next-link_cut _ a.id b.id (lookup a.id s.ins_next)

  pub cut_next_right :
      a.id ≢ b.id
      → lookup b.id s.ins_next ≡ none
      → lookup b.id (cut_state s a b).ins_next ≡ lookup a.id s.ins_next
  unfolding cut_state
  cut_next_right d e = next-link_cut_right _ a.id b.id (lookup a.id s.ins_next) d e

  pub cut_next_other :
      (q : NodeId T)
      → a.id ≢ q
      → b.id ≢ q
      → lookup q (cut_state s a b).ins_next ≡ lookup q s.ins_next
  unfolding cut_state
  cut_next_other q d e = next-link_cut_other _ a.id b.id q (lookup a.id s.ins_next) d e
