-- ===== src/RichText/Strings.antt =====
-- `SetStyle` of rich_text.go, by how the strings of the blocks read as UTF-16: a half of a surrogate
-- pair that stands alone reads as U+FFFD.
use Prim.Native.String.{String}
use rotty.Prelude.{ℕ, Ord}
use rotty.TextSplit.Shape.{Spelled}
use rotty.Text.Reading.{reading, reading-cut, length-cut, length-reading}
use rotty.RichText.{RichTextValue, rich_split_value, split}

module _ {T : Type 0} ⦃o : Ord T⦄ where
  unfoldable pub rich_spelled : Spelled (RichTextValue T) ℕ
  unfolding split
  rich_spelled = record {
    chars = λ v. reading v.value;
    length-chars = λ v. length-reading v.value;
    len-split = λ n v h. length-cut n v.value h;
    chars-split = λ n v h. reading-cut n v.value;
  }
