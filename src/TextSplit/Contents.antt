-- ===== src/TextSplit/Contents.antt =====
-- The characters of a list of blocks, and where an index falls among them.
use rotty.Prelude.{
  ℕ, ◌+◌, ◌-◌, ◌≡◌, ◌≤◌, refl, sym, ap, ◌∙◌, Option, none, some, List, [], ◌∷◌, ◌++◌, arith, length,
  length-append, take, drop, take-append_add, drop-append_add, take-append, drop-append, leb, ltb,
  if◌then◌else◌,
}
use mathlib.Core.List.{append_assoc, append-nil}
use rotty.Splay.Find.{scan}
use rotty.Splay.Weights.{total}
use rotty.TextSplit.{
  SplitValue, NodePos, Node, TextSplit, is_removed, node_len, node_measured, find_node_pos,
}
use rotty.TextSplit.Shape.{Spelled}

module _ {T C X : Type 0} ⦃m : SplitValue C⦄ (sp : Spelled C X) where
  -- The characters of a block that is not removed.
  abbrev pub live_chars : Node T C → List X
  live_chars n = if is_removed n then [] else sp.chars n.value

  abbrev pub text : List (Node T C) → List X
  text [] = []
  text (n ∷ ns) = live_chars n ++ text ns

  pub text-append : (xs ys : List (Node T C)) → text (xs ++ ys) ≡ text xs ++ text ys
  text-append [] ys = refl
  text-append (x ∷ xs) ys =
      ap (◌++◌ (live_chars x)) (text-append xs ys)
      ∙ sym (append_assoc (live_chars x) (text xs) (text ys))

  pub length-live_chars : (n : Node T C) → length (live_chars n) ≡ node_len n
  length-live_chars n = ground (arith, sp.length-chars n.value)

  pub length-text : (xs : List (Node T C)) → length (text xs) ≡ total xs
  length-text [] = refl
  length-text (x ∷ xs) =
      omega (arith, length-append (live_chars x) (text xs), length-live_chars x, length-text xs)

  text_around :
      (l : List (Node T C)) (x : Node T C) (r : List (Node T C)) (ys zs : List X)
      → live_chars x ≡ ys ++ zs
      → text (l ++ x ∷ r) ≡ text l ++ (ys ++ (zs ++ text r))
  text_around l x r ys zs e =
      text-append l (x ∷ r)
      ∙ ap (λ c. text l ++ (c ++ text r)) e
      ∙ ap (◌++◌ (text l)) (append_assoc ys zs (text r))

  total_is_length :
      (l : List (Node T C)) (ys : List X) (n : ℕ)
      → length ys ≡ n
      → total l + n ≡ length (text l) + length ys
  total_is_length l ys n e = omega (arith, length-text l, e)

  -- Up to an index within a block, and from there on.
  pub take-text :
      (l : List (Node T C)) (x : Node T C) (r : List (Node T C)) (ys zs : List X) (n : ℕ)
      → live_chars x ≡ ys ++ zs
      → length ys ≡ n
      → take (total l + n) (text (l ++ x ∷ r)) ≡ text l ++ ys
  take-text l x r ys zs n e k =
      rw (text_around l x r ys zs e, total_is_length l ys n k)
        (take-append_add (text l) (ys ++ (zs ++ text r)) (length ys)
          ∙ ap (◌++◌ (text l)) (take-append ys (zs ++ text r)))

  pub drop-text :
      (l : List (Node T C)) (x : Node T C) (r : List (Node T C)) (ys zs : List X) (n : ℕ)
      → live_chars x ≡ ys ++ zs
      → length ys ≡ n
      → drop (total l + n) (text (l ++ x ∷ r)) ≡ zs ++ text r
  drop-text l x r ys zs n e k =
      rw (text_around l x r ys zs e, total_is_length l ys n k)
        (drop-append_add (text l) (ys ++ (zs ++ text r)) (length ys)
          ∙ drop-append ys (zs ++ text r))

  pub text-end : (l : List (Node T C)) (x : Node T C) → text (l ++ x ∷ []) ≡ text l ++ live_chars x
  text-end l x = text-append l (x ∷ []) ∙ ap (◌++◌ (text l)) (append-nil (live_chars x))

module _ {T C : Type 0} ⦃m : SplitValue C⦄ where
  scan-here :
      (x : Node T C) (r : List (Node T C)) (i : ℕ) → i ≤ node_len x → scan (x ∷ r) i ≡ some (x, i)
  unfolding scan
  scan-here x [] i h = refl
  scan-here x (y ∷ r) i h = ground arith

  scan_step :
      (y : Node T C) (l : List (Node T C)) (x : Node T C) (r : List (Node T C)) (i : ℕ)
      → scan (y ∷ l ++ x ∷ r) i
        ≡ (if leb i (node_len y) then some (y, i) else scan (l ++ x ∷ r) (i - node_len y))
  unfolding scan
  scan_step y [] x r i = refl
  scan_step y (z ∷ l) x r i = refl

  abbrev pub as_pos : Option (Node T C × ℕ) → Option (NodePos T)
  as_pos none = none
  as_pos (some (n, offset)) =
      if ltb (node_len n) offset
      then none
      else some (record { id = n.id; relative_offset = offset })

  pub find_node_pos-scan : (s : TextSplit T C) (i : ℕ) → find_node_pos s i ≡ as_pos (scan s.nodes i)
  unfolding find_node_pos
  find_node_pos-scan s i = ground arith

  as_pos-cut :
      (l : List (Node T C)) (x a : Node T C) (r r' : List (Node T C)) (i : ℕ)
      → a.id ≡ x.id
      → node_len a ≤ node_len x
      → i ≤ total l + node_len a
      → as_pos (scan (l ++ a ∷ r') i) ≡ as_pos (scan (l ++ x ∷ r) i)
  as_pos-cut [] x a r r' i e le h =
      rw (scan-here a r' i (omega arith), scan-here x r i (omega arith)) (ground (arith, e))
  as_pos-cut (y ∷ l) x a r r' i e le h =
      rw (scan_step y l a r' i, scan_step y l x r i)
        (ground (arith, as_pos-cut l x a r r' (i - node_len y) e le))

  -- What stands behind an index does not decide where the index falls.
  pub find_node_pos-cut :
      (s s' : TextSplit T C) (l : List (Node T C)) (x a : Node T C) (r r' : List (Node T C))
      → s.nodes ≡ l ++ x ∷ r
      → s'.nodes ≡ l ++ a ∷ r'
      → a.id ≡ x.id
      → node_len a ≤ node_len x
      → (i : ℕ) → i ≤ total l + node_len a
      → find_node_pos s' i ≡ find_node_pos s i
  find_node_pos-cut s s' l x a r r' before behind e le i h =
      rw (find_node_pos-scan s i, find_node_pos-scan s' i, before, behind)
        (as_pos-cut l x a r r' i e le h)
