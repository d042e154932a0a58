-- ===== src/TextSplit/Splice.antt =====
-- `edit` of rga_tree_split.go by the editor that made the positions: a splice of the text.
use mathlib.Core.List.{append_assoc, append-nil}
use rotty.Prelude.{
  ℕ, ◌≡◌, ◌≢◌, ◌≤◌, refl, sym, ap, subst, ◌∙◌, none, some, Option, Ord, List, [], ◌∷◌, ◌++◌, map,
  arith, Bool-cases, inl, inr, gt, ltb, ◌≺◌, All, length, take, drop, take-take, length-take,
  nil_of_length, list_cases, ltb→lt, All-imp, All-append_left, All-append_right,
}
use rotty.Prelude.Assoc.{Keyed}
use rotty.TextSplit.{
  SplitValue, NodeId, NodePos, Node, TextSplit, Stamped, find_node, is_id, first_id, find_node_pos,
  create_range, find_node_with_split, find_between, insert_behind, node_measured,
}
use rotty.TextSplit.Edit.{
  Deletion, delete_nodes, insert_content, caret_pos, content_node, edit, add_all,
}
use rotty.TextSplit.Nodes.{IsUnique, find_node-middle, insert_behind-middle}
use rotty.TextSplit.Shape.{Spelled, IsWf, IsIn}
use rotty.TextSplit.Similar.{Similar, Similar-refl, Similar-append, Similar-IsWf}
use rotty.TextSplit.Insertion.{insert_after-IsWf}
use rotty.TextSplit.Erase.{
  find_between-middle, delete_nodes-erase, erase, erase-Similar, text-erase,
}
use rotty.TextSplit.Contents.{text, text-append, length-text}
use rotty.TextSplit.Locate.{IsBefore, CutAt}
use rotty.TextSplit.Index.{cut_at}

pub append_nonempty : {A : Type 0} (xs : List A) (x : A) (ys : List A) → xs ++ x ∷ ys ≢ []
append_nonempty [] x ys e = absurd (ground (arith, e))
append_nonempty (y ∷ xs) x ys e = absurd (ground (arith, e))

module _ {T C : Type 0} ⦃o : Ord T⦄ ⦃m : SplitValue C⦄ where
  Similar-IsBefore :
      (t : T) (xs ys : List (Node T C)) → Similar xs ys → IsBefore t xs → IsBefore t ys
  Similar-IsBefore t [] [] h b = tt
  Similar-IsBefore t [] (y ∷ ys) h b = absurd h
  Similar-IsBefore t (x ∷ xs) [] h b = absurd h
  Similar-IsBefore t (x ∷ xs) (y ∷ ys) h b =
      (subst (λ i. i.created_at ≺ t) h.0 b.0, Similar-IsBefore t xs ys h.2 b.1)

  IsBefore-later : (t u : T) (xs : List (Node T C)) → t ≺ u → IsBefore t xs → IsBefore u xs
  IsBefore-later t u xs lt = All-imp (λ n h. o.cmp_trans n.id.created_at t u h lt) xs

  insert_behind-All :
      (P : Node T C → Type 0) (prev : NodeId T) (n : Node T C) (xs : List (Node T C))
      → P n
      → All P xs
      → All P (insert_behind prev n xs)
  unfolding insert_behind
  insert_behind-All P prev n [] p a = tt
  insert_behind-All P prev n (x ∷ xs) p a = elim (Bool-cases (is_id prev x)) [
    | inl e ↦ rw e (a.0, (p, a.1))
    | inr e ↦ rw e (a.0, insert_behind-All P prev n xs p a.1)
  ]

  insert_content-IsBefore :
      (s : TextSplit T C) (x : NodeId T) (content : C) (t u : T)
      → t ≺ u
      → IsBefore t s.nodes
      → IsBefore u (insert_content s x content t).nodes
  unfolding insert_content
  insert_content-IsBefore s x content t u lt before =
      elim (Bool-cases (ltb 0 (m.value_len content))) [
        | inl e ↦ rw e (
            insert_behind-All (λ n. n.id.created_at ≺ u) x (content_node content t) s.nodes lt
              (IsBefore-later t u s.nodes lt before))
        | inr e ↦ rw e (IsBefore-later t u s.nodes lt before)
      ]

module _ {T C : Type 0} ⦃m : SplitValue C⦄ where
  pub ranged_at :
      (s : TextSplit T C) (from to : ℕ) (p q : NodePos T)
      → find_node_pos s from ≡ some p
      → find_node_pos s to ≡ some q
      → create_range s from to ≡ some (p, q)
  unfolding create_range
  ranged_at s from to p q e f = ground (arith, e, f, ap (find_node_pos s))

module _ {T C X : Type 0} ⦃o : Ord T⦄ ⦃m : SplitValue C⦄ (sp : Spelled C X) (initial : T) where
  pub head_first :
      (s : TextSplit T C)
      → IsWf initial s
      → (x : Node T C) × (xs : List (Node T C)) × (s.nodes ≡ x ∷ xs)
  head_first s wf = elim (list_cases s.nodes) [ inl e ↦ absurd (wf.filled e) | inr h ↦ h ]

  later_than_initial :
      (s : TextSplit T C) (t : T) → IsWf initial s → IsBefore t s.nodes → t ≢ initial
  later_than_initial s t wf before e =
      let (x, xs, list) = head_first s wf in
      let old = subst (IsBefore t) list before in
      ground (arith, old, wf.first x xs list, e, o.cmp_refl initial)

  -- Behind a node, the content is inserted and nothing else changes.
  insert_content-text :
      (s : TextSplit T C) (l : List (Node T C)) (x : Node T C) (r : List (Node T C)) (content : C)
      (t : T)
      → IsUnique s.nodes
      → s.nodes ≡ l ++ x ∷ r
      → text sp (insert_content s x.id content t).nodes
        ≡ text sp (l ++ x ∷ []) ++ (sp.chars content ++ text sp r)
  unfolding insert_content
  insert_content-text s l x r content t u e = elim (Bool-cases (ltb 0 (m.value_len content))) [
    | inl p ↦
        (let list : insert_behind x.id (content_node content t) s.nodes
              ≡ (l ++ x ∷ []) ++ content_node content t ∷ r =
            ap (insert_behind x.id (content_node content t)) e
            ∙ insert_behind-middle l x (content_node content t) r (subst IsUnique e u)
            ∙ sym (append_assoc l (x ∷ []) (content_node content t ∷ r)) in
          rw p (ap (text sp) list ∙ text-append sp (l ++ x ∷ []) (content_node content t ∷ r)))
    | inr p ↦
        (let empty : sp.chars content ≡ [] =
            nil_of_length (sp.chars content) (sp.length-chars content ∙ ground arith) in
          rw (p, empty)
            (ap (text sp) (e ∙ sym (append_assoc l (x ∷ []) r)) ∙ text-append sp (l ++ x ∷ []) r))
  ]

  insert_content-IsWf :
      (s : TextSplit T C) (x : Node T C) (content : C) (t : T)
      → IsWf initial s
      → IsIn s x
      → IsBefore t s.nodes
      → t ≢ initial
      → IsWf initial (insert_content s x.id content t)
  unfolding insert_content
  insert_content-IsWf s x content t wf in_x before later =
      elim (Bool-cases (ltb 0 (m.value_len content))) [
        | inl p ↦ rw p (
            insert_after-IsWf initial t s x (content_node content t) wf in_x before refl refl later
              (ltb→lt 0 (m.value_len content) p))
        | inr p ↦ rw p wf
      ]

  forget-IsWf :
      (s : TextSplit T C) (removed : List (NodeId T × NodeId T))
      → IsWf initial s
      → IsWf initial (record s { removed_node_map = removed })
  forget-IsWf s removed wf = record {
    unique = wf.unique;
    filled = wf.filled;
    first = wf.first;
    solid = wf.solid;
    headed = wf.headed;
    apart = wf.apart;
    led = wf.led;
    leads = wf.leads;
  }

module _ {T C X : Type 0} ⦃o : Ord T⦄ ⦃m : SplitValue C⦄ (A : Type 0) ⦃k : Keyed A⦄
    ⦃st : Stamped T A⦄ (sp : Spelled C X) (initial : T) where
  -- What an edit leaves: the list, where the content stands for what was between the indices.
  pub record Spliced (s : TextSplit T C) (from to : ℕ) (content : C) (t : T) : Type 0 where
    pub from_pos : NodePos T
    pub to_pos : NodePos T
    pub after : TextSplit T C
    pub caret : NodePos T
    pub seen : List (A × T)
    pub ranged : create_range s from to ≡ some (from_pos, to_pos)
    pub edited : edit s from_pos to_pos none content t ≡ some (after, caret, seen)
    pub shape : IsWf initial after
    pub old : (u : T) → t ≺ u → IsBefore u after.nodes
    pub spliced :
        text sp after.nodes
        ≡ take from (text sp s.nodes) ++ (sp.chars content ++ drop to (text sp s.nodes))

  abbrev deletion : TextSplit T C → T → List (Node T C) → Deletion T A C
  deletion s t mid =
      delete_nodes none t
        (record { nodes = s.nodes; created_at_map_by_actor = []; removed_node_map = [] }) mid

  edit_runs :
      (s s1 s2 : TextSplit T C) (fp tp : NodePos T) (content : C) (t : T) (x1 x2 : NodeId T)
      (r1 r2 : Option (NodeId T)) (mid : List (Node T C))
      → find_node_with_split s tp t ≡ some (s1, x1, r1)
      → find_node_with_split s1 fp t ≡ some (s2, x2, r2)
      → find_between s2 r2 r1 ≡ mid
      → edit s fp tp none content t
        ≡ some (
          record (insert_content (record s2 { nodes = (deletion s2 t mid).nodes }) x2 content t) {
            removed_node_map =
                add_all
                  (insert_content
                    (record s2 { nodes = (deletion s2 t mid).nodes })
                    x2
                    content
                    t).removed_node_map
                  (deletion s2 t mid).removed_node_map;
          },
          caret_pos x1 r1 content t,
          (deletion s2 t mid).created_at_map_by_actor,
        )
  unfolding edit
  edit_runs s s1 s2 fp tp content t x1 x2 r1 r2 mid e f g = rw (e, edit) (rw f (rw g refl))

  -- From the two cuts to the edit.
  splice_cuts :
      (s : TextSplit T C) (from to : ℕ) (content : C) (t : T) (fp tp : NodePos T)
      (later : t ≢ initial) (last : o.cmp t st.max_ticket ≢ gt)
      (c1 : CutAt sp initial s tp t s.nodes [] to)
      (c2 : CutAt sp initial c1.result fp t (c1.left ++ c1.at ∷ []) (c1.right ++ []) from)
      → create_range s from to ≡ some (fp, tp)
      → from ≤ to
      → Spliced s from to content t
  splice_cuts s from to content t fp tp later last c1 c2 ranged le =
      let q = c1.right ++ [] in
      let mid = c2.right in
      let s2 = c2.result in
      let front = c2.left ++ c2.at ∷ [] in
      let list : s2.nodes ≡ front ++ (mid ++ q) =
        c2.nodes_are ∙ sym (append_assoc c2.left (c2.at ∷ []) (mid ++ q)) in
      let old : IsBefore t (front ++ (mid ++ q)) = subst (IsBefore t) list c2.before_t in
      let old_mid =
        All-append_left (λ n. n.id.created_at ≺ t) mid q
          (All-append_right (λ n. n.id.created_at ≺ t) front (mid ++ q) old) in
      let erased : (deletion s2 t mid).nodes ≡ front ++ (map (erase t) mid ++ q) =
        delete_nodes-erase t
          (record { nodes = s2.nodes; created_at_map_by_actor = []; removed_node_map = [] }) front
          mid q last old_mid (subst IsUnique list c2.shape.unique) list in
      let ns = front ++ (map (erase t) mid ++ q) in
      let alike : Similar s2.nodes ns =
        subst (λ k. Similar k ns) (sym list)
          (Similar-append front (mid ++ q) front (map (erase t) mid ++ q) (Similar-refl front)
            (Similar-append mid q (map (erase t) mid) q (erase-Similar t mid) (Similar-refl q))) in
      let e2 : TextSplit T C = record s2 { nodes = (deletion s2 t mid).nodes } in
      let wf2 : IsWf initial e2 =
        subst (λ k. IsWf initial (record s2 { nodes = k })) (sym erased)
          (Similar-IsWf initial s2 ns alike c2.shape) in
      let list2 : e2.nodes ≡ c2.left ++ c2.at ∷ (map (erase t) mid ++ q) =
        erased ∙ append_assoc c2.left (c2.at ∷ []) (map (erase t) mid ++ q) in
      let in_at : IsIn e2 c2.at =
        subst (λ k. find_node c2.at.id k ≡ some c2.at) (sym list2)
          (find_node-middle c2.left c2.at (map (erase t) mid ++ q)
            (subst IsUnique list2 wf2.unique)) in
      let old2 : IsBefore t e2.nodes =
        subst (IsBefore t) (sym erased) (Similar-IsBefore t s2.nodes ns alike c2.before_t) in
      let rest : text sp (map (erase t) mid ++ q) ≡ drop to (text sp s.nodes) =
        text-append sp (map (erase t) mid) q
        ∙ ap (λ c. c ++ text sp q) (text-erase sp t mid)
        ∙ ap (text sp) (append-nil c1.right)
        ∙ c1.text_right in
      let start : text sp front ≡ take from (text sp s.nodes) =
        c2.text_left ∙ ap (take from) c1.text_left ∙ take-take from to (text sp s.nodes) le in
      let e4 = insert_content e2 c2.at.id content t in
      record {
        from_pos = fp;
        to_pos = tp;
        after = record e4 {
          removed_node_map = add_all e4.removed_node_map (deletion s2 t mid).removed_node_map;
        };
        caret = caret_pos c1.at.id (first_id q) content t;
        seen = (deletion s2 t mid).created_at_map_by_actor;
        ranged = ranged;
        edited =
            edit_runs s c1.result s2 fp tp content t c1.at.id c2.at.id (first_id q)
              (first_id (mid ++ q)) mid c1.runs c2.runs
              (find_between-middle s2 c2.left c2.at mid q c2.shape.unique c2.nodes_are);
        shape =
            forget-IsWf sp initial (insert_content e2 c2.at.id content t) _
              (insert_content-IsWf sp initial e2 c2.at content t wf2 in_at old2 later);
        old = λ u lt. insert_content-IsBefore e2 c2.at.id content t u lt old2;
        spliced =
            insert_content-text sp initial e2 c2.left c2.at (map (erase t) mid ++ q) content t
              wf2.unique list2
            ∙ ap (λ c. text sp front ++ (sp.chars content ++ c)) rest
            ∙ ap (λ c. c ++ (sp.chars content ++ drop to (text sp s.nodes))) start;
      }

  -- Any edit of a part of the text, at a time after that of every block: the positions are found,
  -- the edit runs, the shape is kept, and the text is the old one with the content in place of what
  -- was between the indices.
  pub edit-splice :
      (s : TextSplit T C) (from to : ℕ) (content : C) (t : T)
      → IsWf initial s
      → IsBefore t s.nodes
      → o.cmp t st.max_ticket ≢ gt
      → from ≤ to
      → to ≤ length (text sp s.nodes)
      → Spliced s from to content t
  edit-splice s from to content t wf before last le fits =
      let (tp, at_to, c1) =
        cut_at sp initial s t s.nodes [] to wf before (sym (append-nil s.nodes)) wf.filled
          (omega (arith, fits, length-text sp s.nodes)) in
      let front = c1.left ++ c1.at ∷ [] in
      let size : length (text sp front) ≡ to =
        ap length c1.text_left ∙ length-take to (text sp s.nodes) fits in
      let (fp, at_from, c2) =
        cut_at sp initial c1.result t front (c1.right ++ []) from c1.shape c1.before_t
          (c1.nodes_are ∙ sym (append_assoc c1.left (c1.at ∷ []) (c1.right ++ [])))
          (append_nonempty c1.left c1.at []) (omega (arith, le, size, length-text sp front)) in
      splice_cuts s from to content t fp tp (later_than_initial sp initial s t wf before) last c1 c2
        (ranged_at s from to fp tp (sym (c1.same_pos from le) ∙ at_from) at_to) le
