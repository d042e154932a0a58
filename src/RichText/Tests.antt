-- ===== src/RichText/Tests.antt =====
-- Runs of rich_text.go. The times are numbers.
use rotty.Prelude.{ℕ, ◌≡◌, refl, none, some, List, [], ◌∷◌, Ord, nat_ord}
use rotty.Prelude.Assoc.{Keyed}
use rotty.Element.{Elem}
use rotty.Rht.{Rht, new_rht, set_value}
use rotty.TextSplit.{
  NodePos, Node, TextSplit, Stamped, new_node, new_text_split, insert_after, create_range,
}
use rotty.Text.{Body, edit_value, new_text}
use rotty.RichText.{
  RichTextValue, new_rich_text_value, rich_split_value, split, set_all, edit, new_initial_rich_text,
}

abbrev head : Node ℕ (RichTextValue ℕ)
head = new_node (record { created_at = 0; offset = 0 }) (new_rich_text_value new_rht [])

abbrev word : Node ℕ (RichTextValue ℕ)
word =
    new_node (record { created_at = 1; offset = 0 })
      (new_rich_text_value new_rht (97 ∷ 98 ∷ 99 ∷ []))

abbrev line : TextSplit ℕ (RichTextValue ℕ)
line = insert_after (new_text_split head) head.id word

abbrev rich_line : Elem ℕ (Body ℕ ℕ (RichTextValue ℕ))
rich_line = new_text line 1

module _ {T : Type 0} ⦃o : Ord T⦄ where
  split_keeps_attrs : (n : ℕ) (v : RichTextValue T) → (split n v).0.attrs ≡ v.attrs
  unfolding split
  split_keeps_attrs n v = refl

  set_two :
      (rht : Rht T) (t : T)
      → set_all (("b", "1") ∷ ("i", "0") ∷ []) t rht ≡ set_value (set_value rht "b" "1" t) "i" "0" t
  unfolding set_all
  set_two rht t = refl

module _ {T A : Type 0} ⦃o : Ord T⦄ ⦃k : Keyed A⦄ ⦃st : Stamped T A⦄ where
  edit_without_attributes :
      (t : Elem T (Body T A (RichTextValue T))) (p q : NodePos T) (content : List ℕ)
      (executed_at : T)
      → edit t p q none content [] executed_at
        ≡ edit_value t p q none (new_rich_text_value new_rht content) executed_at
  unfolding edit set_all
  edit_without_attributes t p q content executed_at = refl

  initial_line :
      (s : TextSplit T (RichTextValue T)) (t : T) (p q caret : NodePos T) (seen : List (A × T))
      (made : Elem T (Body T A (RichTextValue T)))
      → create_range s 0 0 ≡ some (p, q)
      → edit (new_text s t) p q none (10 ∷ []) [] t ≡ some (made, caret, seen)
      → new_initial_rich_text s t ≡ some made
  unfolding new_initial_rich_text
  initial_line s t p q caret seen made e f = rw (e, f, new_initial_rich_text) refl
