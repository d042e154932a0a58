-- ===== src/TextSplit/Index.antt =====
-- From an index of the text to the cut that `findNodeWithSplit` of rga_tree_split.go makes there.
use mathlib.Core.List.{append_assoc}
use rotty.Prelude.{
  ℕ, ◌+◌, ◌≡◌, ◌≢◌, ◌≤◌, ◌<◌, ◌⊎◌, inl, inr, refl, sym, ap, subst, ◌∙◌, some, Ord, List, [], ◌∷◌,
  ◌++◌, arith,
}
use rotty.Splay.Find.{scan, scan_cut, scan-append_left}
use rotty.Splay.Weights.{total}
use rotty.TextSplit.{
  SplitValue, NodePos, Node, TextSplit, content_len, node_len, node_measured, find_node_pos,
  find_node,
}
use rotty.TextSplit.Shape.{Spelled, IsWf, IsWithin, IsIn}
use rotty.TextSplit.Nodes.{find_node-middle, IsUnique}
use rotty.TextSplit.Contents.{find_node_pos-scan}
use rotty.TextSplit.Locate.{IsBefore, CutAt, whole, inside}

le_cases : (a b : ℕ) → a ≤ b → (a < b) ⊎ (a ≡ b)
le_cases a b h = ground arith

module _ {T C : Type 0} ⦃o : Ord T⦄ ⦃m : SplitValue C⦄ where
  -- An index falls into a block, or in front of everything behind the head.
  scanned-IsWithin :
      (initial : T) (s : TextSplit T C) (l : List (Node T C)) (x : Node T C) (r : List (Node T C))
      (offset : ℕ)
      → IsWf initial s
      → s.nodes ≡ l ++ x ∷ r
      → offset ≤ node_len x
      → (l ≡ []) ⊎ (0 < offset)
      → IsWithin x offset
  scanned-IsWithin initial s l x r offset wf nodes fits (inr pos) = inl (pos, ground arith)
  scanned-IsWithin initial s l x r offset wf nodes fits (inl e) =
      let here : IsIn s x =
        subst (λ ns. find_node x.id ns ≡ some x) (sym nodes)
          (find_node-middle l x r (subst IsUnique nodes wf.unique)) in
      let is_head = wf.headed x here (wf.first x r (nodes ∙ ap (λ k. k ++ x ∷ r) e)) in
      ground (arith, is_head)

  scan-part : (p q : List (Node T C)) (j : ℕ) → p ≢ [] → j ≤ total p → scan (p ++ q) j ≡ scan p j
  scan-part [] q j n h = absurd (n refl)
  scan-part (x ∷ p) q j n h = scan-append_left x p q j h

  pub find_node_pos-scanned :
      (s : TextSplit T C) (j : ℕ) (x : Node T C) (offset : ℕ)
      → scan s.nodes j ≡ some (x, offset)
      → offset ≤ node_len x
      → find_node_pos s j ≡ some (record { id = x.id; relative_offset = offset })
  find_node_pos-scanned s j x offset e fits = rw (find_node_pos-scan s j) (rw e (ground arith))

module _ {T C X : Type 0} ⦃o : Ord T⦄ ⦃m : SplitValue C⦄ (sp : Spelled C X) (initial : T) where
  -- At an index within the first part of the list.
  pub cut_at :
      (s : TextSplit T C) (t : T) (p q : List (Node T C)) (j : ℕ)
      → IsWf initial s
      → IsBefore t s.nodes
      → s.nodes ≡ p ++ q
      → p ≢ []
      → j ≤ total p
      → (pos : NodePos T) × (find_node_pos s j ≡ some pos) × CutAt sp initial s pos t p q j
  cut_at s t p q j wf before nodes filled le =
      let (l, x, r, offset, e, eq', sum, fits, start) = scan_cut p j filled le in
      let list : s.nodes ≡ l ++ x ∷ (r ++ q) =
        nodes ∙ ap (λ k. k ++ q) eq' ∙ append_assoc l (x ∷ r) q in
      let at : NodePos T = record { id = x.id; relative_offset = offset } in
      let within = scanned-IsWithin initial s l x (r ++ q) offset wf list fits start in
      let found =
        find_node_pos-scanned s j x offset
          (ap (λ k. scan k j) nodes ∙ scan-part p q j filled le ∙ e) fits in
      let result : CutAt sp initial s (record { id = x.id; relative_offset = offset }) t
          (l ++ x ∷ r) q (total l + offset) =
        elim within [
          | inl (pos, small) ↦ elim (le_cases offset (content_len x) small) [
            | inl lt ↦
                inside sp initial s t l x r q offset wf list before (inl (pos, small)) fits pos lt
            | inr same ↦
                whole sp initial s t l x r q offset wf list before (inl (pos, small)) fits same
          ]
          | inr (zero, start', empty) ↦
              whole sp initial s t l x r q offset wf list before (inr (zero, start', empty)) fits
                (zero ∙ sym empty)
        ] in
      (
        record { id = x.id; relative_offset = offset },
        found,
        subst (λ k. CutAt sp initial s at t p q k) sum
            (subst (λ k. CutAt sp initial s at t k q (total l + offset)) (sym eq') result),
      )
