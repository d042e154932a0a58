-- ===== src/TextSplit/Links.antt =====
-- Where the links of the blocks lead behind `link_cut`, the part of `splitNode` of rga_tree_split.go
-- that sets them.
use rotty.Prelude.{◌≡◌, ◌≢◌, refl, ap, ◌∙◌, Option, none, some, Ord}
use rotty.Prelude.Assoc.{lookup, insert, lookup-insert_self, lookup-insert_other}
use rotty.TextSplit.{SplitValue, NodeId, TextSplit, id_keyed, link_cut}

module _ {T C : Type 0} ⦃o : Ord T⦄ ⦃m : SplitValue C⦄ where
  pub nodes-link_cut :
      (s : TextSplit T C) (l r : NodeId T) (next : Option (NodeId T))
      → (link_cut s l r next).nodes ≡ s.nodes
  unfolding link_cut
  nodes-link_cut s l r none = refl
  nodes-link_cut s l r (some n) = refl

  pub prev-link_cut :
      (s : TextSplit T C) (l r : NodeId T) (next : Option (NodeId T))
      → lookup r (link_cut s l r next).ins_prev ≡ some l
  unfolding link_cut
  prev-link_cut s l r none = lookup-insert_self r l s.ins_prev
  prev-link_cut s l r (some n) = lookup-insert_self r l (insert n r s.ins_prev)

  pub prev-link_cut_next :
      (s : TextSplit T C) (l r n : NodeId T)
      → r ≢ n
      → lookup n (link_cut s l r (some n)).ins_prev ≡ some r
  unfolding link_cut
  prev-link_cut_next s l r n d =
      lookup-insert_other r n l (insert n r s.ins_prev) d ∙ lookup-insert_self n r s.ins_prev

  pub prev-link_cut_other :
      (s : TextSplit T C) (l r q : NodeId T) (next : Option (NodeId T))
      → r ≢ q
      → next ≢ some q
      → lookup q (link_cut s l r next).ins_prev ≡ lookup q s.ins_prev
  unfolding link_cut
  prev-link_cut_other s l r q none d n = lookup-insert_other r q l s.ins_prev d
  prev-link_cut_other s l r q (some next) d n =
      lookup-insert_other r q l (insert next r s.ins_prev) d
      ∙ lookup-insert_other next q r s.ins_prev (λ e. n (ap some e))

  pub next-link_cut :
      (s : TextSplit T C) (l r : NodeId T) (next : Option (NodeId T))
      → lookup l (link_cut s l r next).ins_next ≡ some r
  unfolding link_cut
  next-link_cut s l r none = lookup-insert_self l r s.ins_next
  next-link_cut s l r (some n) = lookup-insert_self l r (insert r n s.ins_next)

  pub next-link_cut_right :
      (s : TextSplit T C) (l r : NodeId T) (next : Option (NodeId T))
      → l ≢ r
      → lookup r s.ins_next ≡ none
      → lookup r (link_cut s l r next).ins_next ≡ next
  unfolding link_cut
  next-link_cut_right s l r none d h = lookup-insert_other l r r s.ins_next d ∙ h
  next-link_cut_right s l r (some n) d h =
      lookup-insert_other l r r (insert r n s.ins_next) d ∙ lookup-insert_self r n s.ins_next

  pub next-link_cut_other :
      (s : TextSplit T C) (l r q : NodeId T) (next : Option (NodeId T))
      → l ≢ q
      → r ≢ q
      → lookup q (link_cut s l r next).ins_next ≡ lookup q s.ins_next
  unfolding link_cut
  next-link_cut_other s l r q none d n = lookup-insert_other l q r s.ins_next d
  next-link_cut_other s l r q (some next) d n =
      lookup-insert_other l q r (insert r next s.ins_next) d
      ∙ lookup-insert_other r q next s.ins_next n
