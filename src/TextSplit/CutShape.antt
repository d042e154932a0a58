-- ===== src/TextSplit/CutShape.antt =====
-- A cut of a block, as `splitNode` of rga_tree_split.go makes it, keeps the shape of the list.
use rotty.Prelude.{
  ◌≡◌, ◌≢◌, ◌≤◌, ◌<◌, none, some, Ord, ◌⊎◌, inl, inr, arith, refl, sym, ap, subst, ◌∙◌,
  Option-cases, Bool-cases,
}
use rotty.Prelude.Assoc.{lookup}
use rotty.TextSplit.{SplitValue, NodeId, Node, TextSplit, id_keyed, content_len, find_node, is_id}
use rotty.TextSplit.Nodes.{is_id_iff}
use rotty.TextSplit.Shape.{IsIn, IsWf, end, same_node}
use rotty.TextSplit.Cut.{
  Halves, cut_state, fresh, ids_differ, cut-IsIn_right, cut-IsIn_left, cut-IsIn_old, cut_elim,
  cut-IsUnique, cut_filled, cut_first, cut_prev_right, cut_prev_next, cut_prev_other, cut_next_left,
  cut_next_right, cut_next_other,
}

module _ {T C : Type 0} ⦃o : Ord T⦄ ⦃m : SplitValue C⦄ (initial : T) (s : TextSplit T C)
    (x a b : Node T C) (wf : IsWf initial s) (in_x : IsIn s x) (h : Halves x a b) where
  cut_solid :
      (z : Node T C) → IsIn (cut_state s a b) z → z.id.created_at ≢ initial → 0 < content_len z
  cut_solid =
      cut_elim initial s x a b wf in_x h (λ z. z.id.created_at ≢ initial → 0 < content_len z)
        (λ _. h.right_solid) (λ _. h.left_solid) (λ z in_z _ _. wf.solid z in_z)

  not_head : x.id.created_at ≢ initial
  not_head e = ground (arith, wf.headed x in_x e, h.lengths, h.left_solid)

  cut_headed :
      (z : Node T C)
      → IsIn (cut_state s a b) z
      → z.id.created_at ≡ initial
      → (z.id.offset ≡ 0) × (content_len z ≡ 0)
  cut_headed =
      cut_elim initial s x a b wf in_x h
        (λ z. z.id.created_at ≡ initial → (z.id.offset ≡ 0) × (content_len z ≡ 0))
        (λ e. absurd (ground (arith, not_head, h.right_id, e)))
        (λ e. absurd (ground (arith, not_head, h.left_id, e))) (λ z in_z _ _. wf.headed z in_z)

  abbrev AreApart : Node T C → Node T C → Type 0
  AreApart z w =
      z.id.created_at ≡ w.id.created_at
      → (z.id ≡ w.id) ⊎ (end z ≤ w.id.offset) ⊎ (end w ≤ z.id.offset)

  left_apart : (w : Node T C) → IsIn s w → w.id ≢ x.id → AreApart a w
  left_apart w in_w n e = ground (arith, wf.apart x w in_x in_w, h.left_id, h.lengths, e)

  right_apart : (w : Node T C) → IsIn s w → w.id ≢ x.id → AreApart b w
  right_apart w in_w n e =
      ground (arith, wf.apart x w in_x in_w, h.left_id, h.right_id, h.lengths, e)

  flip_apart : (z w : Node T C) → AreApart z w → AreApart w z
  flip_apart z w f e = elim (f (sym e)) [
    | inl p ↦ inl (sym p)
    | inr (inl p) ↦ inr (inr p)
    | inr (inr p) ↦ inr (inl p)
  ]

  halves_apart : AreApart a b
  halves_apart e = ground (arith, h.left_id, h.right_id)

  cut_apart : (z w : Node T C) → IsIn (cut_state s a b) z → IsIn (cut_state s a b) w → AreApart z w
  cut_apart z w in_z in_w =
      cut_elim initial s x a b wf in_x h (λ z. AreApart z w)
        (cut_elim initial s x a b wf in_x h (λ w. AreApart b w) (λ _. inl refl)
          (flip_apart a b halves_apart) (λ v in_v n _. right_apart v in_v n) w in_w)
        (cut_elim initial s x a b wf in_x h (λ w. AreApart a w) halves_apart (λ _. inl refl)
          (λ v in_v n _. left_apart v in_v n) w in_w)
        (λ u in_u n _.
          cut_elim initial s x a b wf in_x h (λ w. AreApart u w)
            (flip_apart b u (right_apart u in_u n)) (flip_apart a u (left_apart u in_u n))
            (λ v in_v _ _. wf.apart u v in_u in_v) w in_w)
        z in_z

  in_other : (w : Node T C) → IsIn s w → w.id ≢ x.id → (a.id ≢ w.id) × (b.id ≢ w.id)
  in_other w in_w n = (
    λ e. n (sym e ∙ h.left_id),
    λ e. ground (arith, in_w, fresh initial s x a b wf in_x h, ap (λ i. find_node i s.nodes) e),
  )

  -- What the node that is cut leads to starts at its end.
  next_at_end :
      (n : NodeId T)
      → lookup a.id s.ins_next ≡ some n
      → (n.created_at ≡ x.id.created_at) × (n.offset ≡ end x)
  next_at_end n e =
      let (w, in_w, same, created, offset) = wf.leads a.id n e in
      let w_is : w ≡ x = same_node s.nodes w x in_w in_x (same ∙ h.left_id) in
      (created ∙ ap (λ i. i.created_at) h.left_id, offset ∙ ap end w_is)

  right_leads_nowhere : lookup b.id s.ins_next ≡ none
  right_leads_nowhere = elim (Option-cases (lookup b.id s.ins_next)) [
    | inl e ↦ e
    | inr (n, e) ↦
        (let (w, in_w, same, created, offset) = wf.leads b.id n e in
          absurd (
            ground
              (arith, in_w, fresh initial s x a b wf in_x h, ap (λ i. find_node i s.nodes) same)))
  ]

  abbrev IsLed : TextSplit T C → Node T C → Type 0
  IsLed t y =
      0 < y.id.offset
      → (x : Node T C) × IsIn t x
        × (x.id.created_at ≡ y.id.created_at)
        × (end x ≡ y.id.offset)
        × (lookup y.id t.ins_prev ≡ some x.id)
        × (lookup x.id t.ins_next ≡ some y.id)

  IsLed-right : IsLed (cut_state s a b) b
  IsLed-right pos = (
    a,
    cut-IsIn_left initial s x a b wf in_x h,
    ground (arith, h.left_id, h.right_id),
    ground (arith, h.left_id, h.right_id),
    cut_prev_right s a b,
    cut_next_left s a b,
  )

  IsLed-left : IsLed (cut_state s a b) a
  IsLed-left pos =
      let (w, in_w, created, fits, prev, next) = wf.led x in_x (ground (arith, pos, h.left_id)) in
      let other : w.id ≢ x.id = λ e.
        ground (arith, fits, h.lengths, h.left_solid, ap end (same_node s.nodes w x in_w in_x e)) in
      let (not_left, not_right) = in_other w in_w other in
      (
        w,
        cut-IsIn_old initial s x a b wf in_x h w in_w other,
        ground (arith, created, h.left_id),
        ground (arith, fits, h.left_id),
        cut_prev_other s a b a.id (λ e. ids_differ initial s x a b wf in_x h (sym e))
              (λ e. ground (arith, next_at_end a.id e, h.left_id, h.lengths, h.left_solid))
            ∙ ap (λ i. lookup i s.ins_prev) h.left_id
            ∙ prev,
        cut_next_other s a b w.id not_left not_right ∙ next ∙ ap some (sym h.left_id),
      )

  -- A block that the node led to is led to by the part at the right.
  IsLed-moved :
      (z : Node T C)
      → IsIn s z
      → z.id ≢ x.id
      → b.id ≢ z.id
      → z.id.created_at ≡ x.id.created_at
      → z.id.offset ≡ end x
      → lookup x.id s.ins_next ≡ some z.id
      → IsLed (cut_state s a b) z
  IsLed-moved z in_z n d created at_end next pos =
      let next_a : lookup a.id s.ins_next ≡ some z.id =
        ap (λ i. lookup i s.ins_next) h.left_id ∙ next in
      (
        b,
        cut-IsIn_right initial s x a b wf in_x h,
        ground (arith, h.right_id, created),
        ground (arith, h.right_id, h.lengths, at_end),
        cut_prev_next s a b z.id d next_a,
        cut_next_right s a b (ids_differ initial s x a b wf in_x h) right_leads_nowhere ∙ next_a,
      )

  led_kept :
      (z w : Node T C)
      → IsIn s z
      → b.id ≢ z.id
      → IsIn s w
      → w.id ≢ x.id
      → w.id.created_at ≡ z.id.created_at
      → end w ≡ z.id.offset
      → 0 < z.id.offset
      → lookup a.id s.ins_next ≢ some z.id
  led_kept z w in_z d in_w n created fits pos e =
      let (same, at_end) = next_at_end z.id e in
      ground (
        arith,
        wf.apart x w in_x in_w (sym same ∙ sym created),
        n,
        created,
        same,
        fits,
        at_end,
        pos,
        h.lengths,
        h.left_solid,
        wf.solid w in_w,
        wf.headed z in_z,
      )

  IsLed-old : (z : Node T C) → IsIn s z → z.id ≢ x.id → z.id ≢ b.id → IsLed (cut_state s a b) z
  IsLed-old z in_z n d pos =
      let (w, in_w, created, fits, prev, next) = wf.led z in_z pos in
      let b_z : b.id ≢ z.id = λ e. d (sym e) in
      elim (Bool-cases (is_id x.id w)) [
        | inl same ↦
            (let e : w ≡ x = same_node s.nodes w x in_w in_x ((is_id_iff x.id w).0 same) in
              IsLed-moved z in_z n b_z (sym created ∙ ap (λ v. v.id.created_at) e)
                (sym fits ∙ ap end e) (ap (λ v. lookup v.id s.ins_next) (sym e) ∙ next) pos)
        | inr other ↦
            (let w_x : w.id ≢ x.id = λ e. ground (arith, other, (is_id_iff x.id w).1 e) in
              let (not_left, not_right) = in_other w in_w w_x in
              (
                w,
                cut-IsIn_old initial s x a b wf in_x h w in_w w_x,
                created,
                fits,
                cut_prev_other s a b z.id b_z (led_kept z w in_z b_z in_w w_x created fits pos)
                    ∙ prev,
                cut_next_other s a b w.id not_left not_right ∙ next,
              ))
      ]

  cut-IsLed : (z : Node T C) → IsIn (cut_state s a b) z → IsLed (cut_state s a b) z
  cut-IsLed =
      cut_elim initial s x a b wf in_x h (IsLed (cut_state s a b)) IsLed-right IsLed-left IsLed-old

  abbrev Leads : TextSplit T C → NodeId T → NodeId T → Type 0
  Leads t i next =
      (x : Node T C) × IsIn t x
      × (x.id ≡ i)
      × (next.created_at ≡ i.created_at)
      × (next.offset ≡ end x)

  Leads-left : (n : NodeId T) → b.id ≡ n → Leads (cut_state s a b) a.id n
  Leads-left n e = (
    a,
    cut-IsIn_left initial s x a b wf in_x h,
    refl,
    ground (arith, h.left_id, h.right_id, ap (λ i. i.created_at) e),
    ground (arith, h.left_id, h.right_id, ap (λ i. i.offset) e),
  )

  Leads-right : (n : NodeId T) → lookup a.id s.ins_next ≡ some n → Leads (cut_state s a b) b.id n
  Leads-right n e =
      let (created, offset) = next_at_end n e in
      (
        b,
        cut-IsIn_right initial s x a b wf in_x h,
        refl,
        ground (arith, h.right_id, created),
        ground (arith, h.right_id, h.lengths, offset),
      )

  Leads-old :
      (i n : NodeId T) → a.id ≢ i → lookup i s.ins_next ≡ some n → Leads (cut_state s a b) i n
  Leads-old i n d e =
      let (w, in_w, same, created, offset) = wf.leads i n e in
      (
        w,
        cut-IsIn_old initial s x a b wf in_x h w in_w (λ p. d (h.left_id ∙ sym p ∙ same)),
        same,
        created,
        offset,
      )

  cut-Leads :
      (i n : NodeId T) → lookup i (cut_state s a b).ins_next ≡ some n → Leads (cut_state s a b) i n
  cut-Leads i n e = elim (Bool-cases (is_id i a)) [
    | inl p ↦
        (let q : a.id ≡ i = (is_id_iff i a).0 p in
          subst (λ j. Leads (cut_state s a b) j n) q
            (Leads-left n (
              ground
                (arith, cut_next_left s a b, e, ap (λ j. lookup j (cut_state s a b).ins_next) q))))
    | inr p ↦ elim (Bool-cases (is_id i b)) [
      | inl r ↦
          (let q : b.id ≡ i = (is_id_iff i b).0 r in
            subst (λ j. Leads (cut_state s a b) j n) q
              (Leads-right n (
                sym
                  (cut_next_right s a b (ids_differ initial s x a b wf in_x h) right_leads_nowhere)
                ∙ ap (λ j. lookup j (cut_state s a b).ins_next) q
                ∙ e)))
      | inr r ↦
          (let not_a : a.id ≢ i = λ q. ground (arith, p, (is_id_iff i a).1 q) in
            Leads-old i n not_a (
              sym (cut_next_other s a b i not_a (λ q. ground (arith, r, (is_id_iff i b).1 q))) ∙ e))
    ]
  ]

  pub cut-IsWf : IsWf initial (cut_state s a b)
  cut-IsWf = record {
    unique = cut-IsUnique initial s x a b wf in_x h;
    filled = cut_filled initial s x a b wf in_x h;
    first = cut_first initial s x a b wf in_x h not_head;
    solid = cut_solid;
    headed = cut_headed;
    apart = cut_apart;
    led = cut-IsLed;
    leads = cut-Leads;
  }
