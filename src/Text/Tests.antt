-- ===== src/Text/Tests.antt =====
-- Runs of text.go and of rga_tree_split.go, and instances of the theorems on them. The times are
-- numbers.
use rotty.Prelude.{ℕ, ◌≡◌, refl, some, List, [], ◌∷◌, nat_ord}
use rotty.Prelude.Assoc.{Keyed, ord_keyed}
use rotty.Element.{Elem}
use rotty.TextSplit.{Node, TextSplit, Stamped, new_text_split, new_node, insert_after, id_keyed}
use rotty.Text.{TextValue, text_split_value, Body, new_text, new_text_value, split, len, decode}
use rotty.Text.Utf16.{split-between}
use rotty.Text.Edits.{Typing}

instance abbrev number_keyed : Keyed ℕ
number_keyed = ord_keyed ⦃o = nat_ord⦄

instance abbrev one_actor : Stamped ℕ ℕ
one_actor = record { actor_of = λ t. 7; initial_ticket = 0; max_ticket = 1000 }

abbrev head : Node ℕ TextValue
head = new_node (record { created_at = 0; offset = 0 }) (new_text_value [])

abbrev empty_text : Elem ℕ (Body ℕ ℕ TextValue)
empty_text = new_text (new_text_split head) 1

-- "a" with U+1F600, then "XY" in the midst of the character, then nothing for "Y" and what follows.
abbrev typings : List (Typing ℕ TextValue)
typings =
    record { from = 0; to = 0; content = new_text_value (97 ∷ 128512 ∷ []); ticket = 2 }
    ∷ record { from = 2; to = 2; content = new_text_value (88 ∷ 89 ∷ []); ticket = 3 }
    ∷ record { from = 3; to = 5; content = new_text_value []; ticket = 4 }
    ∷ []

-- "abc", removed.
abbrev gone : Node ℕ TextValue
gone = record {
  id = record { created_at = 1; offset = 0 };
  value = new_text_value (97 ∷ 98 ∷ 99 ∷ []);
  removed_at = some 2;
}

abbrev with_gone : TextSplit ℕ TextValue
with_gone = insert_after (new_text_split head) head.id gone

split-between_example :
    split (len (new_text_value (128512 ∷ 97 ∷ []))) (new_text_value (128512 ∷ 97 ∷ 98 ∷ []))
    ≡ (new_text_value (128512 ∷ 97 ∷ []), new_text_value (98 ∷ []))
split-between_example = split-between (128512 ∷ 97 ∷ []) (98 ∷ []) (refl, (refl, tt)) (refl, tt)

-- A split between the two halves of U+1F600 loses the character.
split_inside :
    split 1 (new_text_value (128512 ∷ []))
    ≡ (new_text_value (65533 ∷ []), new_text_value (65533 ∷ []))
unfolding split decode
split_inside = refl
