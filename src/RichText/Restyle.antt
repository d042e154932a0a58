-- ===== src/RichText/Restyle.antt =====
-- The loop of `SetStyle` in rich_text.go over the nodes between two cuts.
use mathlib.Core.List.{append_assoc}
use rotty.Prelude.{◌≡◌, refl, sym, ap, subst, ◌∙◌, Ord, List, [], ◌∷◌, ◌++◌, map, arith}
use rotty.TextSplit.{SplitValue, Node, replace}
use rotty.TextSplit.Nodes.{IsUnique, replace-middle}
use rotty.TextSplit.Shape.{Spelled}
use rotty.TextSplit.Similar.{Similar, Similar-refl, Similar-append, Similar-IsUnique}
use rotty.TextSplit.Contents.{text}
use rotty.RichText.{style_nodes}

module _ {T C : Type 0} ⦃m : SplitValue C⦄ where
  abbrev pub restyle : (C → C) → Node T C → Node T C
  restyle f n = record n { value = f n.value }

module _ {T C : Type 0} ⦃o : Ord T⦄ ⦃m : SplitValue C⦄ (f : C → C)
    (same_len : (c : C) → m.value_len (f c) ≡ m.value_len c) where
  pub restyle-Similar : (ns : List (Node T C)) → Similar ns (map (restyle f) ns)
  restyle-Similar [] = tt
  restyle-Similar (n ∷ ns) = (refl, sym (same_len n.value), restyle-Similar ns)

  restyle_one :
      (l : List (Node T C)) (n : Node T C) (r : List (Node T C))
      → IsUnique (l ++ n ∷ r)
      → IsUnique (l ++ restyle f n ∷ r)
  restyle_one l n r = Similar-IsUnique (l ++ n ∷ r) (l ++ restyle f n ∷ r) (
      Similar-append l (n ∷ r) l (restyle f n ∷ r) (Similar-refl l)
        (refl, sym (same_len n.value), Similar-refl r))

  pub style_nodes-map :
      (ns l mid q : List (Node T C))
      → IsUnique (l ++ (mid ++ q))
      → ns ≡ l ++ (mid ++ q)
      → style_nodes f mid ns ≡ l ++ (map (restyle f) mid ++ q)
  unfolding style_nodes
  style_nodes-map ns l [] q u e = e
  style_nodes-map ns l (n ∷ mid) q u e =
      let shift = append_assoc l (restyle f n ∷ []) (mid ++ q) in
      style_nodes-map (replace n.id (restyle f n ∷ []) ns) (l ++ restyle f n ∷ []) mid q
        (subst IsUnique (sym shift) (restyle_one l n (mid ++ q) u))
        (ap (replace n.id (restyle f n ∷ [])) e
          ∙ replace-middle l n (mid ++ q) (restyle f n ∷ []) u
          ∙ sym shift)
      ∙ append_assoc l (restyle f n ∷ []) (map (restyle f) mid ++ q)

module _ {T C X : Type 0} ⦃o : Ord T⦄ ⦃m : SplitValue C⦄ (sp : Spelled C X) (f : C → C)
    (same_chars : (c : C) → sp.chars (f c) ≡ sp.chars c) where
  pub text-restyle : (ns : List (Node T C)) → text sp (map (restyle f) ns) ≡ text sp ns
  text-restyle [] = refl
  text-restyle (n ∷ ns) = ground (arith, text-restyle ns, same_chars n.value)
