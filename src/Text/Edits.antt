-- ===== src/Text/Edits.antt =====
-- Edits of a text by indices, one after the other, as text_proxy.go makes them on text.go: each one
-- replaces a part of the string.
use rotty.Prelude.{
  ℕ, ◌≡◌, ◌≢◌, ◌≤◌, refl, sym, ap, subst, ◌∙◌, none, some, Option, ◌>>=◌, Ord, List, [], ◌∷◌, ◌++◌,
  arith, gt, ◌≺◌, length, take, drop, nil_of_length,
}
use rotty.Prelude.Assoc.{Keyed}
use rotty.Element.{Elem}
use rotty.TextSplit.{SplitValue, NodePos, Node, TextSplit, Stamped, behind, create_range, find_node}
use rotty.TextSplit.Edit.{edit as edit_split}
use rotty.TextSplit.Shape.{Spelled, IsWf, IsIn}
use rotty.TextSplit.Nodes.{find_node-middle, IsUnique}
use rotty.TextSplit.Contents.{live_chars, length-live_chars, text}
use rotty.TextSplit.Locate.{IsBefore}
use rotty.TextSplit.Splice.{edit-splice, head_first}
use rotty.Text.{Body, marshal, marshal_nodes, edit_value, edit_range}

-- A part of a string, replaced.
abbrev pub splice : {X : Type 0} → List X → ℕ → ℕ → List X → List X
splice xs from to content = take from xs ++ (content ++ drop to xs)

module _ {T C : Type 0} ⦃m : SplitValue C⦄ (sp : Spelled C ℕ) where
  pub marshal_nodes-text : (ns : List (Node T C)) → marshal_nodes sp.chars ns ≡ text sp ns
  unfolding marshal_nodes
  marshal_nodes-text [] = refl
  marshal_nodes-text (n ∷ ns) = ground (arith, marshal_nodes-text ns)

module _ {T A C : Type 0} ⦃o : Ord T⦄ ⦃m : SplitValue C⦄ (sp : Spelled C ℕ) where
  -- The head adds nothing to the string.
  marshal-text :
      (initial : T) (t : Elem T (Body T A C))
      → IsWf initial t.content.rga_tree_split
      → marshal sp.chars t ≡ text sp t.content.rga_tree_split.nodes
  unfolding marshal
  marshal-text initial t wf =
      let (h, rest, list) = head_first sp initial t.content.rga_tree_split wf in
      let in_h : IsIn t.content.rga_tree_split h =
        subst (λ k. find_node h.id k ≡ some h) (sym list)
          (find_node-middle [] h rest (subst IsUnique list wf.unique)) in
      let empty =
        nil_of_length (live_chars sp h)
          (length-live_chars sp h ∙ ground (arith, wf.headed h in_h (wf.first h rest list))) in
      ap (λ k. marshal_nodes sp.chars (behind k)) list
      ∙ marshal_nodes-text sp rest
      ∙ ap (λ c. c ++ text sp rest) (sym empty)
      ∙ ap (text sp) (sym list)

-- An edit by indices, and its ticket.
pub record Typing (T C : Type 0) : Type 0 where
  pub from : ℕ
  pub to : ℕ
  pub content : C
  pub ticket : T

module _ {T C : Type 0} ⦃o : Ord T⦄ ⦃m : SplitValue C⦄ (sp : Spelled C ℕ) where
  -- The string after some edits.
  abbrev pub splices : List ℕ → List (Typing T C) → List ℕ
  splices xs [] = xs
  splices xs (e ∷ es) = splices (splice xs e.from e.to (sp.chars e.content)) es

  -- Each edit is within the string that it finds.
  abbrev pub Fits : List ℕ → List (Typing T C) → Type 0
  Fits xs [] = Unit
  Fits xs (e ∷ es) =
      (e.from ≤ e.to) × (e.to ≤ length xs) × Fits (splice xs e.from e.to (sp.chars e.content)) es

  -- The tickets ascend from a time on, and none is after the last ticket of all.
  abbrev pub Ascends : T → T → List (Typing T C) → Type 0
  Ascends last t [] = Unit
  Ascends last t (e ∷ es) = (t ≺ e.ticket) × (o.cmp e.ticket last ≢ gt) × Ascends last e.ticket es

module _ {T A C : Type 0} ⦃o : Ord T⦄ ⦃m : SplitValue C⦄ ⦃k : Keyed A⦄ ⦃st : Stamped T A⦄ where
  pub run_edits : Elem T (Body T A C) → List (Typing T C) → Option (Elem T (Body T A C))
  run_edits t [] = some t
  run_edits t (e ∷ es) = do
    (t', caret, seen) ← edit_range t e.from e.to e.content e.ticket
    run_edits t' es

  edit_range-runs :
      (t : Elem T (Body T A C)) (from to : ℕ) (p q caret : NodePos T) (content : C) (ticket : T)
      (s : TextSplit T C) (seen : List (A × T))
      → create_range t.content.rga_tree_split from to ≡ some (p, q)
      → edit_split t.content.rga_tree_split p q none content ticket ≡ some (s, caret, seen)
      → from ≤ to
      → edit_range t from to content ticket
        ≡ some (record t { content = record t.content { rga_tree_split = s } }, caret, seen)
  unfolding edit_range edit_value
  edit_range-runs t from to p q caret content ticket s seen e f le = ground (arith, e, f)

  -- A text whose list has the shape, and whose blocks were created at a time or before.
  pub record IsSound (initial last : T) (t : Elem T (Body T A C)) : Type 0 where
    pub shape : IsWf initial t.content.rga_tree_split
    pub old : (u : T) → last ≺ u → IsBefore u t.content.rga_tree_split.nodes

module _ {T A C : Type 0} ⦃o : Ord T⦄ ⦃m : SplitValue C⦄ ⦃k : Keyed A⦄ ⦃st : Stamped T A⦄
    (sp : Spelled C ℕ) (initial : T) where
  -- One edit within the string, at a time after every block: it runs, and replaces that part.
  pub edit_range-splice :
      (t : Elem T (Body T A C)) (last : T) (from to : ℕ) (content : C) (ticket : T)
      → IsSound initial last t
      → last ≺ ticket
      → o.cmp ticket st.max_ticket ≢ gt
      → from ≤ to
      → to ≤ length (marshal sp.chars t)
      → (t' : Elem T (Body T A C)) × (caret : NodePos T) × (seen : List (A × T)) × (edit_range t
            from to content ticket
          ≡ some (t', caret, seen))
        × IsSound initial ticket t'
        × (marshal sp.chars t' ≡ splice (marshal sp.chars t) from to (sp.chars content))
  edit_range-splice t last from to content ticket sound lt top le fits =
      let s = t.content.rga_tree_split in
      let string = marshal-text sp initial t sound.shape in
      let r =
        edit-splice A sp initial s from to content ticket sound.shape (sound.old ticket lt) top le
          (subst (λ k. to ≤ length k) string fits) in
      let t' : Elem T (Body T A C) = record t {
        content = record t.content { rga_tree_split = r.after };
      } in
      (
        t',
        r.caret,
        r.seen,
        edit_range-runs t from to r.from_pos r.to_pos r.caret content ticket r.after r.seen r.ranged
            r.edited le,
        record { shape = r.shape; old = r.old },
        marshal-text sp initial t' r.shape
            ∙ r.spliced
            ∙ ap (λ k. splice k from to (sp.chars content)) (sym string),
      )

  -- Edits of a text whose values are spelled run, and splice its string.
  pub run_edits-splices :
      (t : Elem T (Body T A C)) (last : T) (es : List (Typing T C))
      → IsSound initial last t
      → Ascends sp st.max_ticket last es
      → Fits sp (marshal sp.chars t) es
      → (t' : Elem T (Body T A C)) × (run_edits t es ≡ some t')
        × (marshal sp.chars t' ≡ splices sp (marshal sp.chars t) es)
  unfolding run_edits
  run_edits-splices t last [] sound up fits = (t, refl, refl)
  run_edits-splices t last (e ∷ es) sound up fits =
      let (t', caret, seen, runs, sound', reads) =
        edit_range-splice t last e.from e.to e.content e.ticket sound up.0 up.1 fits.0 fits.1 in
      let (t'', runs', reads') =
        run_edits-splices t' e.ticket es sound' up.2
          (subst (λ k. Fits sp k es) (sym reads) fits.2) in
      (t'', rw (runs, run_edits) runs', reads' ∙ ap (λ k. splices sp k es) reads)
