-- ===== src/TextSplit/Locate.antt =====
-- `findNodeWithSplit` of rga_tree_split.go at an index: the list is cut there.
use mathlib.Core.List.{append-nil}
use rotty.Prelude.{
  ℕ, ◌≺◌, ◌+◌, ◌-◌, ◌≡◌, ◌≤◌, ◌<◌, refl, sym, ap, subst, ◌∙◌, false, some, Ord, List, [], ◌∷◌, ◌++◌,
  arith, length, length-append, take, drop, All, All-append, All-append_left, All-append_right,
}
use rotty.Splay.Weights.{total}
use rotty.TextSplit.{
  SplitValue, NodeId, NodePos, Node, TextSplit, is_removed, content_len, node_len, node_measured,
  find_node_pos, replace, split_node, new_node, skip_later, behind, from_node, first_id,
  find_node_with_split, id_keyed,
}
use rotty.TextSplit.Nodes.{IsUnique, find_node-middle, replace-middle, from_node-middle}
use rotty.TextSplit.Shape.{Spelled, IsIn, IsWf, IsWithin, at_offset, find_floor-within}
use rotty.TextSplit.Cut.{Halves, cut_state, cut_nodes}
use rotty.TextSplit.CutShape.{cut-IsWf}
use rotty.TextSplit.Contents.{
  live_chars, length-live_chars, text, take-text, drop-text, text-end, find_node_pos-cut,
}

module _ {T C : Type 0} ⦃o : Ord T⦄ ⦃m : SplitValue C⦄ where
  -- Every node was created before a time.
  abbrev pub IsBefore : T → List (Node T C) → Type 0
  IsBefore t = All (λ n. n.id.created_at ≺ t)

  skip_later-IsBefore :
      (t : T) (left : NodeId T) (xs : List (Node T C))
      → IsBefore t xs
      → skip_later t left xs ≡ (left, first_id xs)
  unfolding skip_later
  skip_later-IsBefore t left [] h = refl
  skip_later-IsBefore t left (x ∷ xs) h = ground (arith, h)

  abbrev pub left_half : Node T C → ℕ → Node T C
  left_half x n = record x { value = (m.split_value n x.value).0 }

  abbrev pub right_half : Node T C → ℕ → Node T C
  right_half x n = new_node (at_offset x n) (m.split_value n x.value).1

  split_node_whole :
      (s : TextSplit T C) (x : Node T C) (n : ℕ) → n ≡ content_len x → split_node s x n ≡ some s
  unfolding split_node
  split_node_whole s x n e = ground (arith, e)

  pub split_node_inside :
      (s : TextSplit T C) (x : Node T C) (n : ℕ)
      → 0 < n
      → n < content_len x
      → split_node s x n ≡ some (cut_state s (left_half x n) (right_half x n))
  unfolding split_node cut_state
  split_node_inside s x n pos lt = ground arith

  behind-cons : (y : Node T C) (r : List (Node T C)) → behind (y ∷ r) ≡ r
  behind-cons y r = refl

  -- What `findNodeWithSplit` does behind the split.
  find_node_with_split-split :
      (initial : T) (s s' : TextSplit T C) (l : List (Node T C)) (x y : Node T C)
      (r : List (Node T C)) (rel : ℕ) (t : T)
      → IsWf initial s
      → IsIn s x
      → IsWithin x rel
      → split_node s x rel ≡ some s'
      → IsUnique s'.nodes
      → s'.nodes ≡ l ++ y ∷ r
      → y.id ≡ x.id
      → IsBefore t r
      → find_node_with_split s (record { id = x.id; relative_offset = rel }) t
        ≡ some (s', y.id, first_id r)
  unfolding find_node_with_split
  find_node_with_split-split initial s s' l x y r rel t wf in_x within cut unique nodes same
        before =
      let size : x.id.offset + rel - x.id.offset ≡ rel = omega arith in
      let tail : behind (from_node x.id s'.nodes) ≡ r = rw nodes (
        ap (λ i. behind (from_node i (l ++ y ∷ r))) (sym same)
        ∙ ap behind (from_node-middle l y r (subst IsUnique nodes unique))
        ∙ behind-cons y r) in
      rw (find_floor-within initial s x rel wf in_x within, find_node_with_split)
        (rw (size, cut, tail, skip_later-IsBefore t x.id r before, same) refl)

module _ {T C X : Type 0} ⦃o : Ord T⦄ ⦃m : SplitValue C⦄ (sp : Spelled C X) where
  pub halves_lengths :
      (x : Node T C) (n : ℕ)
      → n ≤ content_len x
      → (content_len (left_half x n) ≡ n)
        × (content_len (left_half x n) + content_len (right_half x n) ≡ content_len x)
  halves_lengths x n le =
      let (l, r) = m.split_value n x.value in
      let e = ap length (sp.chars-split n x.value le) in
      (
        sp.len-split n x.value le,
        omega (
          arith,
          e,
          length-append (sp.chars (m.split_value n x.value).0)
              (sp.chars (m.split_value n x.value).1),
          sp.length-chars (m.split_value n x.value).0,
          sp.length-chars (m.split_value n x.value).1,
          sp.length-chars x.value,
        ),
      )

  pub halved-Halves :
      (x : Node T C) (n : ℕ) → 0 < n → n < content_len x → Halves x (left_half x n) (right_half x n)
  halved-Halves x n pos lt =
      let (left, sum) = halves_lengths x n (omega arith) in
      record {
        left_id = refl;
        right_id = ap (at_offset x) (sym left);
        lengths = sum;
        left_solid = omega (arith, left);
        right_solid = omega (arith, left, sum);
      }

module _ {T C X : Type 0} ⦃o : Ord T⦄ ⦃m : SplitValue C⦄ (sp : Spelled C X) (initial : T) where
  -- What `findNodeWithSplit` gives at an index within the first part of a list: the list is cut
  -- there, behind the node that is returned, and nothing else changes.
  pub record CutAt (s : TextSplit T C) (pos : NodePos T) (t : T) (p q : List (Node T C)) (j : ℕ)
      : Type 0 where
    pub result : TextSplit T C
    pub left : List (Node T C)
    pub at : Node T C
    pub right : List (Node T C)
    pub runs : find_node_with_split s pos t ≡ some (result, at.id, first_id (right ++ q))
    pub shape : IsWf initial result
    pub nodes_are : result.nodes ≡ left ++ at ∷ (right ++ q)
    pub text_left : text sp (left ++ at ∷ []) ≡ take j (text sp p)
    pub text_right : text sp right ≡ drop j (text sp p)
    pub same_pos : (i : ℕ) → i ≤ j → find_node_pos result i ≡ find_node_pos s i
    pub before_t : IsBefore t result.nodes

  module _ (s : TextSplit T C) (t : T) (l : List (Node T C)) (x : Node T C) (r q : List (Node T C))
      (rel : ℕ) (wf : IsWf initial s) (nodes : s.nodes ≡ l ++ x ∷ (r ++ q))
      (before : IsBefore t s.nodes) (within : IsWithin x rel) (live : rel ≤ node_len x) where
    abbrev Goal : Type 0
    Goal = CutAt s (record { id = x.id; relative_offset = rel }) t (l ++ x ∷ r) q (total l + rel)

    IsIn-here : IsIn s x
    IsIn-here = rw nodes (find_node-middle l x (r ++ q) (subst IsUnique nodes wf.unique))

    pub whole : rel ≡ content_len x → Goal
    whole e =
        let size : length (live_chars sp x) ≡ rel = ground (arith, length-live_chars sp x) in
        let all : live_chars sp x ≡ live_chars sp x ++ [] = sym (append-nil (live_chars sp x)) in
        record {
          result = s;
          left = l;
          at = x;
          right = r;
          runs =
              find_node_with_split-split initial s s l x x (r ++ q) rel t wf IsIn-here within
                (split_node_whole s x rel e) wf.unique nodes refl
                (All-append_right (λ n. n.id.created_at ≺ t) l (x ∷ (r ++ q))
                  (subst (IsBefore t) nodes before)).1;
          shape = wf;
          nodes_are = nodes;
          text_left = text-end sp l x ∙ sym (take-text sp l x r (live_chars sp x) [] rel all size);
          text_right = sym (drop-text sp l x r (live_chars sp x) [] rel all size);
          same_pos = λ i h. refl;
          before_t = before;
        }

    pub inside : 0 < rel → rel < content_len x → Goal
    inside pos lt =
        let a = left_half x rel in
        let b = right_half x rel in
        let h = halved-Halves sp x rel pos lt in
        let (size, sum) = halves_lengths sp x rel (omega arith) in
        let alive : is_removed x ≡ false = ground arith in
        let cut : live_chars sp x ≡ sp.chars a.value ++ sp.chars b.value =
          ground (arith, sp.chars-split rel x.value (omega arith)) in
        let long : length (sp.chars a.value) ≡ rel = sp.length-chars a.value ∙ size in
        let list : (cut_state s a b).nodes ≡ l ++ a ∷ (b ∷ r ++ q) =
          cut_nodes initial s x a b wf IsIn-here h
          ∙ ap (replace a.id (a ∷ b ∷ [])) nodes
          ∙ replace-middle l x (r ++ q) (a ∷ b ∷ []) (subst IsUnique nodes wf.unique) in
        let wf' = cut-IsWf initial s x a b wf IsIn-here h in
        let here : IsBefore t (l ++ x ∷ (r ++ q)) = subst (IsBefore t) nodes before in
        let later = All-append_right (λ n. n.id.created_at ≺ t) l (x ∷ (r ++ q)) here in
        let earlier = All-append_left (λ n. n.id.created_at ≺ t) l (x ∷ (r ++ q)) here in
        record {
          result = cut_state s a b;
          left = l;
          at = a;
          right = b ∷ r;
          runs =
              find_node_with_split-split initial s (cut_state s a b) l x a (b ∷ r ++ q) rel t wf
                IsIn-here within (split_node_inside s x rel pos lt) wf'.unique list refl later;
          shape = wf';
          nodes_are = list;
          text_left =
              text-end sp l a
              ∙ ground (arith, alive)
              ∙ sym (take-text sp l x r (sp.chars a.value) (sp.chars b.value) rel cut long);
          text_right = sym (drop-text sp l x r (sp.chars a.value) (sp.chars b.value) rel cut long);
          same_pos = λ i h.
              find_node_pos-cut s (cut_state s a b) l x a (r ++ q) (b ∷ r ++ q) nodes list refl
                (ground (arith, alive, size)) i (ground (arith, alive, size, h));
          before_t =
              rw list (
                All-append (λ n. n.id.created_at ≺ t) l (a ∷ (b ∷ r ++ q)) earlier
                  (later.0, later));
        }
