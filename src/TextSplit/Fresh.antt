-- ===== src/TextSplit/Fresh.antt =====
-- The list that `NewRGATreeSplit` of rga_tree_split.go starts with, and the cut of a removed block.
use mathlib.Core.List.{append_assoc}
use rotty.Prelude.{
  ℕ, ◌≡◌, ◌<◌, refl, sym, ap, subst, ◌∙◌, true, false, some, Ord, List, [], ◌∷◌, ◌++◌, arith, inl,
  drop, drop-append,
}
use rotty.Prelude.Assoc.{lookup}
use rotty.TextSplit.{
  SplitValue, Node, TextSplit, content_len, is_removed, find_node, new_text_split, split_node,
  replace,
}
use rotty.TextSplit.Nodes.{IsUnique, is_id_iff, find_node-middle, replace-middle}
use rotty.TextSplit.Shape.{Spelled, IsWf, IsIn}
use rotty.TextSplit.Cut.{cut_state, cut_nodes}
use rotty.TextSplit.Locate.{left_half, right_half, split_node_inside, halved-Halves, halves_lengths}
use rotty.TextSplit.Contents.{live_chars, text, text-append}

module _ {T C : Type 0} ⦃o : Ord T⦄ ⦃m : SplitValue C⦄ where
  only_head : (h x : Node T C) → IsIn (new_text_split h) x → x ≡ h
  unfolding find_node
  only_head h x e = ground (arith, e, is_id_iff x.id h)

  -- The list of a head alone has the shape, when the head holds nothing.
  pub new_text_split-IsWf :
      (initial : T) (h : Node T C)
      → h.id ≡ record { created_at = initial; offset = 0 }
      → content_len h ≡ 0
      → IsWf initial (new_text_split h)
  unfolding find_node lookup
  new_text_split-IsWf initial h id empty = record {
    unique = (refl, tt);
    filled = λ e. absurd (ground (arith, e));
    first = λ x xs e. ground (arith, e, id);
    solid = λ x in_x n.
        absurd (n (ap (λ y. y.id.created_at) (only_head h x in_x) ∙ ap (λ i. i.created_at) id));
    headed = λ x in_x n. ground (arith, only_head h x in_x, id, empty);
    apart = λ x y in_x in_y n. inl (ap (λ z. z.id) (only_head h x in_x ∙ sym (only_head h y in_y)));
    led = λ y in_y pos. absurd (ground (arith, only_head h y in_y, id, pos));
    leads = λ i n e. absurd (ground (arith, e));
  }

module _ {T C X : Type 0} ⦃o : Ord T⦄ ⦃m : SplitValue C⦄ (sp : Spelled C X) where
  live_chars-live : (x : Node T C) → is_removed x ≡ false → live_chars sp x ≡ sp.chars x.value
  live_chars-live x h = rw h refl

  live_chars-removed : (x : Node T C) → is_removed x ≡ true → live_chars sp x ≡ []
  live_chars-removed x h = rw h refl

  -- What a cut of a block does to the text, by whether the block is removed.
  abbrev pub CutText : TextSplit T C → List (Node T C) → Node T C → List (Node T C) → ℕ → Type 0
  CutText s l x r n =
      (s' : TextSplit T C) × (split_node s x n ≡ some s')
      × (is_removed x ≡ false → text sp s'.nodes ≡ text sp s.nodes)
      × (is_removed x ≡ true
          → (text sp s.nodes ≡ text sp l ++ text sp r)
            × (text sp s'.nodes ≡ text sp l ++ (drop n (sp.chars x.value) ++ text sp r)))

  -- The cut of a block of a list of the shape.
  pub split_node-text :
      (initial : T) (s : TextSplit T C) (l : List (Node T C)) (x : Node T C) (r : List (Node T C))
      (n : ℕ)
      → IsWf initial s
      → s.nodes ≡ l ++ x ∷ r
      → 0 < n
      → n < content_len x
      → CutText s l x r n
  split_node-text initial s l x r n wf nodes pos lt =
      let a = left_half x n in
      let b = right_half x n in
      let in_x : IsIn s x =
        subst (λ k. find_node x.id k ≡ some x) (sym nodes)
          (find_node-middle l x r (subst IsUnique nodes wf.unique)) in
      let list : (cut_state s a b).nodes ≡ l ++ a ∷ (b ∷ r) =
        cut_nodes initial s x a b wf in_x (halved-Halves sp x n pos lt)
        ∙ ap (replace a.id (a ∷ b ∷ [])) nodes
        ∙ replace-middle l x r (a ∷ b ∷ []) (subst IsUnique nodes wf.unique) in
      let whole = ap (text sp) nodes ∙ text-append sp l (x ∷ r) in
      let cut = ap (text sp) list ∙ text-append sp l (a ∷ (b ∷ r)) in
      let (size, sum) = halves_lengths sp x n (omega arith) in
      let halves = sp.chars-split n x.value (omega arith) in
      let tail : drop n (sp.chars x.value) ≡ sp.chars b.value =
        ap (drop n) (sym halves)
        ∙ ap (λ k. drop k (sp.chars a.value ++ sp.chars b.value))
            (sym (sp.length-chars a.value ∙ size))
        ∙ drop-append (sp.chars a.value) (sp.chars b.value) in
      (
        cut_state s a b,
        split_node_inside s x n pos lt,
        λ alive.
            cut
            ∙ ap (λ c. text sp l ++ (c ++ (sp.chars b.value ++ text sp r)))
                (live_chars-live a alive)
            ∙ ap (◌++◌ (text sp l))
                (sym (append_assoc (sp.chars a.value) (sp.chars b.value) (text sp r)))
            ∙ ap (λ c. text sp l ++ (c ++ text sp r)) (halves ∙ sym (live_chars-live x alive))
            ∙ sym whole,
        λ gone. (
          whole ∙ ap (λ c. text sp l ++ (c ++ text sp r)) (live_chars-removed x gone),
          cut
              ∙ ap (λ c. text sp l ++ (c ++ (sp.chars b.value ++ text sp r)))
                  (live_chars-removed a gone)
              ∙ ap (λ c. text sp l ++ (c ++ text sp r)) (sym tail),
        ),
      )
