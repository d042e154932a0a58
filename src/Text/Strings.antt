-- ===== src/Text/Strings.antt =====
-- Edits and cuts of text.go, by how the string that `Marshal` writes reads as UTF-16: a half of a
-- surrogate pair that stands alone reads as U+FFFD.
use rotty.Prelude.{ℕ, ◌≡◌, true, false, some, Ord, List, ◌++◌, drop}
use rotty.Prelude.Assoc.{Keyed}
use rotty.Element.{Elem}
use rotty.TextSplit.{Node, TextSplit, Stamped, is_removed, split_node, nodes}
use rotty.Text.{Body, TextValue, text_split_value, marshal, marshal_nodes}
use rotty.Text.Reading.{reading}

module _ {T : Type 0} where
  -- The string of some blocks: the values of those that are not removed.
  abbrev pub string_of : List (Node T TextValue) → List ℕ
  string_of ns = marshal_nodes (λ v. v.value) ns

module _ {T A : Type 0} ⦃o : Ord T⦄ ⦃k : Keyed A⦄ ⦃st : Stamped T A⦄ where
  -- How the string of a text reads.
  abbrev pub reads_as : Elem T (Body T A TextValue) → List ℕ
  reads_as t = reading (marshal (λ v. v.value) t)

module _ {T : Type 0} ⦃o : Ord T⦄ where
  -- What a cut of a block at an offset does to the string of a text.
  abbrev pub CutString :
      TextSplit T TextValue
      → List (Node T TextValue)
      → Node T TextValue
      → List (Node T TextValue)
      → ℕ
      → Type 0
  CutString s l x r n =
      (s' : TextSplit T TextValue) × (split_node s x n ≡ some s')
      × (is_removed x ≡ false → reading (string_of s'.nodes) ≡ reading (string_of s.nodes))
      × (is_removed x ≡ true
          → (reading (string_of s.nodes) ≡ reading (string_of l) ++ reading (string_of r))
            × (reading (string_of s'.nodes)
                ≡ reading (string_of l)
                  ++ (drop n (reading x.value.value) ++ reading (string_of r))))
