-- ===== src/RichText/Styles.antt =====
-- `SetStyle` of rich_text.go by the editor that made the positions.
use Prim.Native.String.{String}
use mathlib.Core.List.{append_assoc, append-nil}
use rotty.Prelude.{
  ℕ, ◌≡◌, ◌≤◌, refl, sym, ap, subst, ◌∙◌, some, Option, Ord, List, [], ◌∷◌, ◌++◌, map, arith,
  length, take, drop, take-take, take-drop, length-take,
}
use rotty.TextSplit.{
  SplitValue, NodeId, NodePos, Node, TextSplit, first_id, create_range, find_node_with_split,
  find_between,
}
use rotty.TextSplit.Nodes.{IsUnique}
use rotty.TextSplit.Shape.{Spelled, IsWf}
use rotty.TextSplit.Similar.{Similar, Similar-refl, Similar-append, Similar-IsWf}
use rotty.TextSplit.Erase.{find_between-middle}
use rotty.TextSplit.Contents.{text, text-append, length-text}
use rotty.TextSplit.Locate.{IsBefore, CutAt}
use rotty.TextSplit.Index.{cut_at}
use rotty.TextSplit.Splice.{ranged_at, append_nonempty}
use rotty.Element.{Elem}
use rotty.Text.{Body}
use rotty.RichText.{
  RichTextValue, rich_split_value, style_nodes, style_split, style_value, set_style,
}
use rotty.RichText.Restyle.{restyle, restyle-Similar, style_nodes-map, text-restyle}

module _ {T C X : Type 0} ⦃o : Ord T⦄ ⦃m : SplitValue C⦄ (sp : Spelled C X) (initial : T) where
  -- What `SetStyle` leaves: the blocks between the indices have another value each.
  pub record Styled (f : C → C) (s : TextSplit T C) (from to : ℕ) (t : T) : Type 0 where
    pub from_pos : NodePos T
    pub to_pos : NodePos T
    pub before : List (Node T C)
    pub between : List (Node T C)
    pub behind_them : List (Node T C)
    pub after : TextSplit T C
    pub ranged : create_range s from to ≡ some (from_pos, to_pos)
    pub styled : style_split f s from_pos to_pos t ≡ some after
    pub blocks : after.nodes ≡ before ++ (map (restyle f) between ++ behind_them)
    pub text_before : text sp before ≡ take from (text sp s.nodes)
    pub text_behind : text sp behind_them ≡ drop to (text sp s.nodes)
    pub same_text : text sp after.nodes ≡ text sp s.nodes
    pub shape : IsWf initial after

  style_runs :
      (f : C → C) (s s1 s2 : TextSplit T C) (fp tp : NodePos T) (t : T) (x1 x2 : NodeId T)
      (r1 r2 : Option (NodeId T)) (mid : List (Node T C))
      → find_node_with_split s tp t ≡ some (s1, x1, r1)
      → find_node_with_split s1 fp t ≡ some (s2, x2, r2)
      → find_between s2 r2 r1 ≡ mid
      → style_split f s fp tp t ≡ some (record s2 { nodes = style_nodes f mid s2.nodes })
  unfolding style_split
  style_runs f s s1 s2 fp tp t x1 x2 r1 r2 mid e g h = rw (e, style_split) (rw g (rw h refl))

  style_cuts :
      (f : C → C) (same_len : (c : C) → m.value_len (f c) ≡ m.value_len c)
      (same_chars : (c : C) → sp.chars (f c) ≡ sp.chars c) (s : TextSplit T C) (from to : ℕ) (t : T)
      (fp tp : NodePos T) (c1 : CutAt sp initial s tp t s.nodes [] to)
      (c2 : CutAt sp initial c1.result fp t (c1.left ++ c1.at ∷ []) (c1.right ++ []) from)
      → create_range s from to ≡ some (fp, tp)
      → from ≤ to
      → Styled f s from to t
  style_cuts f same_len same_chars s from to t fp tp c1 c2 ranged le =
      let q = c1.right ++ [] in
      let mid = c2.right in
      let s2 = c2.result in
      let front = c2.left ++ c2.at ∷ [] in
      let list : s2.nodes ≡ front ++ (mid ++ q) =
        c2.nodes_are ∙ sym (append_assoc c2.left (c2.at ∷ []) (mid ++ q)) in
      let ns = front ++ (map (restyle f) mid ++ q) in
      let made : style_nodes f mid s2.nodes ≡ ns =
        style_nodes-map f same_len s2.nodes front mid q (subst IsUnique list c2.shape.unique)
          list in
      let alike : Similar s2.nodes ns =
        subst (λ k. Similar k ns) (sym list)
          (Similar-append front (mid ++ q) front (map (restyle f) mid ++ q) (Similar-refl front) (
            Similar-append mid q (map (restyle f) mid) q (restyle-Similar f same_len mid)
              (Similar-refl q))) in
      let rest : text sp q ≡ drop to (text sp s.nodes) =
        ap (text sp) (append-nil c1.right) ∙ c1.text_right in
      let halves : text sp front ++ text sp mid ≡ take to (text sp s.nodes) =
        ap (λ k. k ++ text sp mid) c2.text_left
        ∙ ap (λ k. take from (text sp (c1.left ++ c1.at ∷ [])) ++ k) c2.text_right
        ∙ take-drop from (text sp (c1.left ++ c1.at ∷ []))
        ∙ c1.text_left in
      record {
        from_pos = fp;
        to_pos = tp;
        before = front;
        between = mid;
        behind_them = q;
        after = record s2 { nodes = style_nodes f mid s2.nodes };
        ranged = ranged;
        styled =
            style_runs f s c1.result s2 fp tp t c1.at.id c2.at.id (first_id q) (first_id (mid ++ q))
              mid c1.runs c2.runs
              (find_between-middle s2 c2.left c2.at mid q c2.shape.unique c2.nodes_are);
        blocks = made;
        text_before =
            c2.text_left ∙ ap (take from) c1.text_left ∙ take-take from to (text sp s.nodes) le;
        text_behind = rest;
        same_text =
            ap (text sp) made
            ∙ text-append sp front (map (restyle f) mid ++ q)
            ∙ ap (λ k. text sp front ++ k)
                (text-append sp (map (restyle f) mid) q
                  ∙ ap (λ k. k ++ text sp q) (text-restyle sp f same_chars mid))
            ∙ sym (append_assoc (text sp front) (text sp mid) (text sp q))
            ∙ ap (λ k. k ++ text sp q) halves
            ∙ ap (λ k. take to (text sp s.nodes) ++ k) rest
            ∙ take-drop to (text sp s.nodes);
        shape =
            subst (λ k. IsWf initial (record s2 { nodes = k })) (sym made)
              (Similar-IsWf initial s2 ns alike c2.shape);
      }

  -- Styling by what changes neither the length nor the characters of a value.
  pub style_split-Styled :
      (f : C → C) (s : TextSplit T C) (from to : ℕ) (t : T)
      → ((c : C) → m.value_len (f c) ≡ m.value_len c)
      → ((c : C) → sp.chars (f c) ≡ sp.chars c)
      → IsWf initial s
      → IsBefore t s.nodes
      → from ≤ to
      → to ≤ length (text sp s.nodes)
      → Styled f s from to t
  style_split-Styled f s from to t same_len same_chars wf before le fits =
      let (tp, at_to, c1) =
        cut_at sp initial s t s.nodes [] to wf before (sym (append-nil s.nodes)) wf.filled
          (omega (arith, fits, length-text sp s.nodes)) in
      let front = c1.left ++ c1.at ∷ [] in
      let size : length (text sp front) ≡ to =
        ap length c1.text_left ∙ length-take to (text sp s.nodes) fits in
      let (fp, at_from, c2) =
        cut_at sp initial c1.result t front (c1.right ++ []) from c1.shape c1.before_t
          (c1.nodes_are ∙ sym (append_assoc c1.left (c1.at ∷ []) (c1.right ++ [])))
          (append_nonempty c1.left c1.at []) (omega (arith, le, size, length-text sp front)) in
      style_cuts f same_len same_chars s from to t fp tp c1 c2
        (ranged_at s from to fp tp (sym (c1.same_pos from le) ∙ at_from) at_to) le

module _ {T A : Type 0} ⦃o : Ord T⦄ where
  -- `SetStyle` does to the blocks what `style_split` does to a list, and keeps the rest of the text.
  pub set_style-style_split :
      (t : Elem T (Body T A (RichTextValue T))) (from to : NodePos T)
      (attributes : List (String × String)) (executed_at : T) (s : TextSplit T (RichTextValue T))
      → style_split
          (style_value attributes executed_at)
          t.content.rga_tree_split
          from
          to
          executed_at
        ≡ some s
      → set_style t from to attributes executed_at
        ≡ some (record t { content = record t.content { rga_tree_split = s } })
  unfolding set_style
  set_style-style_split t from to attributes executed_at s e = rw (e, set_style) refl
