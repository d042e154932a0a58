-- ===== src/TextSplit/Erase.antt =====
-- The part of `edit` of rga_tree_split.go that removes what stands between two cuts.
use mathlib.Core.List.{append_assoc, append-nil}
use rotty.Prelude.{
  ◌≡◌, ◌≢◌, refl, sym, ap, subst, ◌∙◌, none, Ord, List, [], ◌∷◌, ◌++◌, map, arith, if◌then◌else◌,
  gt, ◌≺◌, All,
}
use rotty.Prelude.Assoc.{Keyed}
use rotty.Element.{after_removal}
use rotty.TextSplit.{
  SplitValue, Node, TextSplit, Stamped, find_node, until, first_id, find_between, id_keyed,
}
use rotty.TextSplit.Edit.{Deletion, delete_node, delete_nodes, mark}
use rotty.TextSplit.Nodes.{IsUnique, is_id_iff, find_node-middle, replace-middle, from_node-middle}
use rotty.TextSplit.Shape.{Spelled}
use rotty.TextSplit.Similar.{Similar, Similar-refl, Similar-append, Similar-IsUnique}
use rotty.TextSplit.Contents.{text}

module _ {T C : Type 0} ⦃o : Ord T⦄ ⦃m : SplitValue C⦄ where
  IsUnique-right : (l r : List (Node T C)) → IsUnique (l ++ r) → IsUnique r
  IsUnique-right [] r u = u
  IsUnique-right (x ∷ l) r u = IsUnique-right l r u.1

  until_first :
      (mid q : List (Node T C)) → IsUnique (mid ++ q) → until (first_id q) (mid ++ q) ≡ mid
  unfolding until
  until_first mid [] u = append-nil mid
  until_first [] (z ∷ q) u = ground (arith, is_id_iff z.id z)
  until_first (y ∷ mid) (z ∷ q) u = ground (
    arith,
    until_first mid (z ∷ q) u.1,
    is_id_iff z.id y,
    find_node-middle mid z q u.1,
    ap (λ i. find_node i (mid ++ z ∷ q)),
  )

  -- Behind a node, up to the first node of the rest.
  pub find_between-middle :
      (s : TextSplit T C) (l : List (Node T C)) (x : Node T C) (mid q : List (Node T C))
      → IsUnique s.nodes
      → s.nodes ≡ l ++ x ∷ (mid ++ q)
      → find_between s (first_id (mid ++ q)) (first_id q) ≡ mid
  unfolding find_between
  find_between-middle s l x [] [] u e = refl
  find_between-middle s l x [] (z ∷ q) u e =
      let u' : IsUnique ((l ++ x ∷ []) ++ z ∷ q) =
        subst IsUnique (e ∙ sym (append_assoc l (x ∷ []) (z ∷ q))) u in
      rw (e, sym (append_assoc l (x ∷ []) (z ∷ q)), from_node-middle (l ++ x ∷ []) z q u')
        (until_first [] (z ∷ q) (IsUnique-right (l ++ x ∷ []) (z ∷ q) u'))
  find_between-middle s l x (y ∷ mid) q u e =
      let tail = y ∷ mid ++ q in
      let u' : IsUnique ((l ++ x ∷ []) ++ y ∷ (mid ++ q)) =
        subst IsUnique (e ∙ sym (append_assoc l (x ∷ []) (y ∷ (mid ++ q)))) u in
      rw
        (
          e,
          sym (append_assoc l (x ∷ []) (y ∷ (mid ++ q))),
          from_node-middle (l ++ x ∷ []) y (mid ++ q) u',
        )
        (until_first (y ∷ mid) q (IsUnique-right (l ++ x ∷ []) (y ∷ (mid ++ q)) u'))

  -- What becomes of a node between the cuts of an editor that has seen every node.
  abbrev pub erase : T → Node T C → Node T C
  erase t n = if after_removal t n.removed_at then mark t n else n

  pub erase-Similar : (t : T) (ns : List (Node T C)) → Similar ns (map (erase t) ns)
  erase-Similar t [] = tt
  erase-Similar t (n ∷ ns) = (ground arith, ground arith, erase-Similar t ns)

  erase_one :
      (t : T) (l : List (Node T C)) (n : Node T C) (r : List (Node T C))
      → IsUnique (l ++ n ∷ r)
      → IsUnique (l ++ erase t n ∷ r)
  erase_one t l n r = Similar-IsUnique (l ++ n ∷ r) (l ++ erase t n ∷ r) (
      Similar-append l (n ∷ r) l (erase t n ∷ r) (Similar-refl l)
        (ground arith, ground arith, Similar-refl r))

module _ {T C X : Type 0} ⦃o : Ord T⦄ ⦃m : SplitValue C⦄ (sp : Spelled C X) where
  pub text-erase : (t : T) (ns : List (Node T C)) → text sp (map (erase t) ns) ≡ []
  text-erase t [] = refl
  text-erase t (n ∷ ns) = ground (arith, text-erase t ns)

module _ {T A C : Type 0} ⦃o : Ord T⦄ ⦃m : SplitValue C⦄ ⦃k : Keyed A⦄ ⦃st : Stamped T A⦄ where
  delete_node-erase :
      (t : T) (d : Deletion T A C) (l : List (Node T C)) (n : Node T C) (r : List (Node T C))
      → o.cmp t st.max_ticket ≢ gt
      → n.id.created_at ≺ t
      → IsUnique (l ++ n ∷ r)
      → d.nodes ≡ l ++ n ∷ r
      → (delete_node none t d n).nodes ≡ l ++ erase t n ∷ r
  unfolding delete_node
  delete_node-erase t d l n r last old u e = ground (
    arith,
    e,
    replace-middle l n r (mark t n ∷ []) u,
    o.cmp_flip n.id.created_at st.max_ticket,
    o.cmp_trans st.max_ticket n.id.created_at t,
    o.cmp_flip st.max_ticket t,
  )

  -- An editor that has seen every node removes what stands between the cuts.
  pub delete_nodes-erase :
      (t : T) (d : Deletion T A C) (l mid q : List (Node T C))
      → o.cmp t st.max_ticket ≢ gt
      → All (λ n. n.id.created_at ≺ t) mid
      → IsUnique (l ++ (mid ++ q))
      → d.nodes ≡ l ++ (mid ++ q)
      → (delete_nodes none t d mid).nodes ≡ l ++ (map (erase t) mid ++ q)
  unfolding delete_nodes
  delete_nodes-erase t d l [] q last old u e = e
  delete_nodes-erase t d l (n ∷ mid) q last old u e =
      let shift = append_assoc l (erase t n ∷ []) (mid ++ q) in
      delete_nodes-erase t (delete_node none t d n) (l ++ erase t n ∷ []) mid q last old.1
        (subst IsUnique (sym shift) (erase_one t l n (mid ++ q) u))
        (delete_node-erase t d l n (mid ++ q) last old.0 u e ∙ sym shift)
      ∙ append_assoc l (erase t n ∷ []) (map (erase t) mid ++ q)
