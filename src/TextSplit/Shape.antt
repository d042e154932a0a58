-- ===== src/TextSplit/Shape.antt =====
-- The shape that the operations of rga_tree_split.go keep: the blocks of one insertion do not
-- overlap, and a block behind another one of its insertion is linked to it.
use rotty.Prelude.{
  ℕ, ◌+◌, ◌≡◌, ◌≢◌, ◌≤◌, ◌<◌, none, some, Ord, List, [], ◌∷◌, ◌⊎◌, inl, inr, arith, length,
  Bool-cases, Option-cases, ◌++◌, sym, ap, ◌∙◌,
}
use rotty.Prelude.Assoc.{lookup}
use rotty.TextSplit.{
  SplitValue, NodeId, Node, TextSplit, id_ord, id_keyed, content_len, find_node, floor,
  find_floor_node, find_floor_node_prefer_to_left,
}
use rotty.TextSplit.Nodes.{IsUnique, find_node-id}
use rotty.TextSplit.Floor.{IsPassed, above, floor-best, found-All}

-- A value is a sequence of characters, and `Split` cuts it.
pub record Spelled (C X : Type 0) ⦃m : SplitValue C⦄ : Type 0 where
  pub chars : C → List X
  pub length-chars : (c : C) → length (chars c) ≡ m.value_len c
  pub len-split : (n : ℕ) (c : C) → n ≤ m.value_len c → m.value_len (m.split_value n c).0 ≡ n
  pub chars-split :
      (n : ℕ) (c : C)
      → n ≤ m.value_len c
      → chars (m.split_value n c).0 ++ chars (m.split_value n c).1 ≡ chars c

module _ {T C : Type 0} ⦃o : Ord T⦄ ⦃m : SplitValue C⦄ where
  -- The offset behind a node.
  abbrev pub end : Node T C → ℕ
  end n = n.id.offset + content_len n

  abbrev pub IsIn : TextSplit T C → Node T C → Type 0
  IsIn s n = find_node n.id s.nodes ≡ some n

  -- The head is the only node of the first ticket, and the only one without content.
  pub record IsWf (initial : T) (s : TextSplit T C) : Type 0 where
    pub unique : IsUnique s.nodes
    pub filled : s.nodes ≢ []
    pub first : (x : Node T C) (xs : List (Node T C)) → s.nodes ≡ x ∷ xs → x.id.created_at ≡ initial
    pub solid : (x : Node T C) → IsIn s x → x.id.created_at ≢ initial → 0 < content_len x
    pub headed :
        (x : Node T C)
        → IsIn s x
        → x.id.created_at ≡ initial
        → (x.id.offset ≡ 0) × (content_len x ≡ 0)
    pub apart :
        (x y : Node T C)
        → IsIn s x
        → IsIn s y
        → x.id.created_at ≡ y.id.created_at
        → (x.id ≡ y.id) ⊎ (end x ≤ y.id.offset) ⊎ (end y ≤ x.id.offset)
    pub led :
        (y : Node T C)
        → IsIn s y
        → 0 < y.id.offset
        → (x : Node T C) × IsIn s x
          × (x.id.created_at ≡ y.id.created_at)
          × (end x ≡ y.id.offset)
          × (lookup y.id s.ins_prev ≡ some x.id)
          × (lookup x.id s.ins_next ≡ some y.id)
    pub leads :
        (i next : NodeId T)
        → lookup i s.ins_next ≡ some next
        → (x : Node T C) × IsIn s x
          × (x.id ≡ i)
          × (next.created_at ≡ i.created_at)
          × (next.offset ≡ end x)

  abbrev pub at_offset : Node T C → ℕ → NodeId T
  at_offset x rel = record { created_at = x.id.created_at; offset = x.id.offset + rel }

  -- A position in a node: not in front of its first character, unless it starts its insertion.
  abbrev pub IsWithin : Node T C → ℕ → Type 0
  IsWithin x rel =
      ((0 < rel) × (rel ≤ content_len x)) ⊎ ((rel ≡ 0) × (x.id.offset ≡ 0) × (content_len x ≡ 0))

  IsPassed-apart :
      (x w : Node T C) (rel : ℕ)
      → IsWithin x rel
      → w.id ≢ at_offset x rel
      → (x.id.created_at ≡ w.id.created_at
          → (x.id ≡ w.id) ⊎ (end x ≤ w.id.offset) ⊎ (end w ≤ x.id.offset))
      → IsPassed (at_offset x rel) x.id w
  IsPassed-apart x w rel within other apart =
      ground (arith, o.cmp_eq w.id.created_at x.id.created_at, o.cmp_refl x.id.created_at)

  pub same_node :
      (xs : List (Node T C)) (x y : Node T C)
      → find_node x.id xs ≡ some x
      → find_node y.id xs ≡ some y
      → x.id ≡ y.id
      → x ≡ y
  same_node xs x y h k e = ground (arith, h, k, e, ap (λ i. find_node i xs) e)

  -- The node in front of a boundary is the one that the search prefers.
  led_here :
      (initial : T) (s : TextSplit T C) (x y : Node T C) (rel : ℕ)
      → IsWf initial s
      → IsIn s x
      → IsIn s y
      → y.id ≡ at_offset x rel
      → 0 < rel
      → rel ≤ content_len x
      → lookup y.id s.ins_prev ≡ some x.id
  led_here initial s x y rel wf in_x in_y e pos le =
      let (x', in_x', same, fits, prev, next) = wf.led y in_y (ground (arith, e)) in
      let x'_solid : 0 < content_len x' =
        wf.solid x' in_x' (λ i. ground (arith, e, same, wf.headed y in_y)) in
      let x'_is : x.id ≡ x'.id = elim (wf.apart x x' in_x in_x' (ground (arith, e, same))) [
        | inl p ↦ p
        | inr (inl p) ↦ absurd (ground (arith, e, fits, p))
        | inr (inr p) ↦ absurd (ground (arith, e, fits, p))
      ] in
      prev ∙ ap some (sym x'_is)

  floor_absent :
      (initial : T) (s : TextSplit T C) (x : Node T C) (rel : ℕ)
      → IsWf initial s
      → IsIn s x
      → IsWithin x rel
      → find_node (at_offset x rel) s.nodes ≡ none
      → floor (at_offset x rel) s.nodes ≡ some x
  floor_absent initial s x rel wf in_x within absent =
      floor-best (at_offset x rel) x s.nodes in_x (ground (arith, o.cmp_refl x.id.created_at)) (
        found-All (IsPassed (at_offset x rel) x.id) s.nodes wf.unique (λ w in_w.
          IsPassed-apart x w rel within
            (λ e. ground (arith, in_w, absent, ap (λ i. find_node i s.nodes) e))
            (wf.apart x w in_x in_w)))

  IsPassed-self : (id : NodeId T) (w : Node T C) → IsPassed id id w
  IsPassed-self id w = elim (Bool-cases (above w.id id)) [ inl h ↦ inl h | inr h ↦ inr h ]

  floor_found :
      (xs : List (Node T C)) (y : Node T C)
      → IsUnique xs
      → find_node y.id xs ≡ some y
      → floor y.id xs ≡ some y
  floor_found xs y unique in_y =
      floor-best y.id y xs in_y (ground (arith, o.cmp_refl y.id.created_at))
        (found-All (IsPassed y.id y.id) xs unique (λ w _. IsPassed-self y.id w))

  -- `findFloorNodePreferToLeft` leads from a position back to the node that it was made from.
  pub find_floor-within :
      (initial : T) (s : TextSplit T C) (x : Node T C) (rel : ℕ)
      → IsWf initial s
      → IsIn s x
      → IsWithin x rel
      → find_floor_node_prefer_to_left s (at_offset x rel) ≡ some x
  unfolding find_floor_node_prefer_to_left find_floor_node
  find_floor-within initial s x rel wf in_x within =
      elim (Option-cases (find_node (at_offset x rel) s.nodes)) [
        | inl absent ↦
            ground (
              arith,
              floor_absent initial s x rel wf in_x within absent,
              o.cmp_refl x.id.created_at,
            )
        | inr (y, found) ↦
            (let e : y.id ≡ at_offset x rel = find_node-id (at_offset x rel) s.nodes y found in
              let in_y : IsIn s y = ap (λ i. find_node i s.nodes) e ∙ found in
              let here : floor (at_offset x rel) s.nodes ≡ some y =
                ap (λ i. floor i s.nodes) (sym e) ∙ floor_found s.nodes y wf.unique in_y in
              elim within [
                | inl (pos, le) ↦
                    rw (here, find_floor_node_prefer_to_left, find_floor_node)
                      (ground (
                        arith,
                        e,
                        in_x,
                        o.cmp_refl x.id.created_at,
                        led_here initial s x y rel wf in_x in_y e pos le,
                      ))
                | inr (z, start, empty) ↦
                    rw (here, find_floor_node_prefer_to_left, find_floor_node)
                      (ground (
                        arith,
                        e,
                        o.cmp_refl x.id.created_at,
                        same_node s.nodes x y in_x in_y (ground (arith, e)),
                      ))
              ])
      ]
