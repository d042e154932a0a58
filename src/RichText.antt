-- ===== src/RichText.antt =====
-- pkg/document/json/rich_text.go: a text whose blocks have attributes. What an edit and a selection do
-- is as in Text; the value of a block carries a replicated hash table.
pub mod Restyle
pub mod Styles
pub mod Strings
pub mod Tests
use Prim.Native.String.{String}
use rotty.Prelude.{ℕ, Option, none, some, ◌>>=◌, Ord, List, [], ◌∷◌, length, take, drop}
use rotty.Prelude.Assoc.{Keyed}
use rotty.Element.{Elem}
use rotty.Rht.{Rht, new_rht, set_value}
use rotty.Rht as Rht
use rotty.TextSplit.{
  SplitValue, NodePos, Node, TextSplit, Stamped, create_range, find_node_with_split, find_between,
  replace,
}
use rotty.Text.{Body, encode, decode, edit_value, new_text}

pub record RichTextValue (T : Type 0) : Type 0 where
  pub attrs : Rht T
  pub value : List ℕ

module _ {T : Type 0} where
  abbrev pub new_rich_text_value : Rht T → List ℕ → RichTextValue T
  new_rich_text_value attrs value = record { attrs = attrs; value = value }

  abbrev pub len : RichTextValue T → ℕ
  len t = length (encode t.value)

module _ {T : Type 0} ⦃o : Ord T⦄ where
  pub split : ℕ → RichTextValue T → RichTextValue T × RichTextValue T
  split offset t = (
    record t { value = decode (take offset (encode t.value)) },
    new_rich_text_value (Rht.deep_copy t.attrs) (decode (drop offset (encode t.value))),
  )

  instance abbrev pub rich_split_value : SplitValue (RichTextValue T)
  rich_split_value = record { value_len = len; split_value = split }

  -- The attributes, in the order in which `range` gives them.
  pub set_all : List (String × String) → T → Rht T → Rht T
  set_all [] executed_at rht = rht
  set_all ((key, value) ∷ attributes) executed_at rht =
      set_all attributes executed_at (set_value rht key value executed_at)

  abbrev pub style_value : List (String × String) → T → RichTextValue T → RichTextValue T
  style_value attributes executed_at v = record v { attrs = set_all attributes executed_at v.attrs }

module _ {T C : Type 0} ⦃o : Ord T⦄ ⦃m : SplitValue C⦄ where
  -- The loop over the nodes between two positions, each of which gets another value.
  pub style_nodes : (C → C) → List (Node T C) → List (Node T C) → List (Node T C)
  style_nodes f [] nodes = nodes
  style_nodes f (n ∷ ns) nodes =
      style_nodes f ns (replace n.id (record n { value = f n.value } ∷ []) nodes)

  -- `SetStyle`, with what it does to the value of a node.
  pub style_split : (C → C) → TextSplit T C → NodePos T → NodePos T → T → Option (TextSplit T C)
  style_split f s from to executed_at = do
    (s1, to_left, to_right) ← find_node_with_split s to executed_at
    (s2, from_left, from_right) ← find_node_with_split s1 from executed_at
    some (record s2 { nodes = style_nodes f (find_between s2 from_right to_right) s2.nodes })

module _ {T A : Type 0} ⦃o : Ord T⦄ where
  pub set_style :
      Elem T (Body T A (RichTextValue T))
      → NodePos T
      → NodePos T
      → List (String × String)
      → T
      → Option (Elem T (Body T A (RichTextValue T)))
  set_style t from to attributes executed_at = do
    s ←
        style_split (style_value attributes executed_at) t.content.rga_tree_split from to
          executed_at
    some (record t { content = record t.content { rga_tree_split = s } })

module _ {T A : Type 0} ⦃o : Ord T⦄ ⦃k : Keyed A⦄ ⦃st : Stamped T A⦄ where
  pub edit :
      Elem T (Body T A (RichTextValue T))
      → NodePos T
      → NodePos T
      → Option (List (A × T))
      → List ℕ
      → List (String × String)
      → T
      → Option (Elem T (Body T A (RichTextValue T)) × NodePos T × List (A × T))
  edit t from to latest content attributes executed_at =
      edit_value t from to latest
        (style_value attributes executed_at (new_rich_text_value new_rht content)) executed_at

  -- `NewInitialRichText`: the last line of the text stands in it from the start.
  pub new_initial_rich_text :
      TextSplit T (RichTextValue T) → T → Option (Elem T (Body T A (RichTextValue T)))
  new_initial_rich_text elements created_at = do
    (from_pos, to_pos) ← create_range elements 0 0
    (t, caret, seen) ←
        edit (new_text elements created_at) from_pos to_pos none (10 ∷ []) [] created_at
    some t
