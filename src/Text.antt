-- ===== src/Text.antt =====
-- pkg/document/json/text.go: the element for the contents of an editor. A string is the list of its
-- runes; the functions of the package unicode/utf16 that it calls are written out.
pub mod Utf16
pub mod Reading
pub mod Edits
pub mod Strings
pub mod Tests
use rotty.Prelude.{
  ℕ, ◌+◌, ◌-◌, ◌*◌, ◌/◌, ◌%◌, Bool, true, false, not, ◌&&◌, ◌||◌, Option, none, some, ◌>>=◌, Ord,
  List, [], ◌∷◌, ◌++◌, if◌then◌else◌, ltb, leb, length, take, drop,
}
use rotty.Prelude.Assoc.{Keyed, lookup, insert}
use rotty.Element.{Elem, after}
use rotty.TextSplit.{
  SplitValue, NodeId, NodePos, Node, TextSplit, Stamped, id_keyed, find_node, find_floor_node,
  set_ins_prev, insert_after, new_text_split, nodes, is_removed, create_range,
}
use rotty.TextSplit.Edit.{edit as edit_split, cleanup_removed_nodes as cleanup_split}

-- utf16.Encode: a rune that is no character becomes U+FFFD.
abbrev pub is_surrogate : ℕ → Bool
is_surrogate r = leb 55296 r && ltb r 57344

abbrev pub encode_rune : ℕ → List ℕ
encode_rune r =
    if not (is_surrogate r) && ltb r 65536
    then r ∷ []
    else if leb 65536 r && leb r 1114111
    then (55296 + (r - 65536) / 1024) ∷ (56320 + (r - 65536) % 1024) ∷ []
    else 65533 ∷ []

abbrev pub encode : List ℕ → List ℕ
encode [] = []
encode (r ∷ rs) = encode_rune r ++ encode rs

-- utf16.Decode: a surrogate without its other half becomes U+FFFD.
abbrev pub is_pair : ℕ → ℕ → Bool
is_pair u v = leb 55296 u && ltb u 56320 && (leb 56320 v && ltb v 57344)

abbrev pub decode_unit : ℕ → ℕ
decode_unit u = if is_surrogate u then 65533 else u

pub decode : List ℕ → List ℕ
decode [] = []
decode (u ∷ []) = decode_unit u ∷ []
decode (u ∷ v ∷ us) =
    let two = ((u - 55296) * 1024 + (v - 56320) + 65536) ∷ decode us in
    let one = decode_unit u ∷ decode (v ∷ us) in if is_pair u v then two else one

pub record TextValue : Type 0 where
  pub value : List ℕ

abbrev pub new_text_value : List ℕ → TextValue
new_text_value value = record { value = value }

-- In UTF-16 code units.
abbrev pub len : TextValue → ℕ
len t = length (encode t.value)

pub split : ℕ → TextValue → TextValue × TextValue
split offset t = (
  new_text_value (decode (take offset (encode t.value))),
  new_text_value (decode (drop offset (encode t.value))),
)

instance abbrev pub text_split_value : SplitValue TextValue
text_split_value = record { value_len = len; split_value = split }

pub record Selection (T : Type 0) : Type 0 where
  pub from : NodePos T
  pub to : NodePos T
  pub updated_at : T

-- What a text holds: its blocks, and the selection of every actor.
pub record Body (T A C : Type 0) : Type 0 where
  pub rga_tree_split : TextSplit T C
  pub selection_map : List (A × Selection T)

module _ {T A C : Type 0} where
  -- `NewText`
  abbrev pub new_text : TextSplit T C → T → Elem T (Body T A C)
  new_text elements created_at = record {
    created_at = created_at;
    moved_at = none;
    removed_at = none;
    content = record { rga_tree_split = elements; selection_map = [] };
  }

module _ {T C : Type 0} where
  -- What `marshal` writes between the quotes: the values that are not removed.
  pub marshal_nodes : (C → List ℕ) → List (Node T C) → List ℕ
  marshal_nodes to_string [] = []
  marshal_nodes to_string (n ∷ ns) =
      let rest = marshal_nodes to_string ns in
      elim n.removed_at [ none ↦ to_string n.value ++ rest | some t ↦ rest ]

module _ {T C : Type 0} ⦃o : Ord T⦄ ⦃m : SplitValue C⦄ where
  -- The loop of `DeepCopy`: each node goes behind the one before, and is linked to the node that it
  -- was cut from. A node whose link leads nowhere ends in a nil dereference.
  copy_node : TextSplit T C → NodeId T → Node T C → Option (NodeId T) → Option (TextSplit T C)
  copy_node copy current n none = some (insert_after copy current n)
  copy_node copy current n (some prev) = do
    p ← find_floor_node (insert_after copy current n) prev
    some (set_ins_prev n.id p.id (insert_after copy current n))

  pub copy_nodes :
      TextSplit T C → TextSplit T C → NodeId T → List (Node T C) → Option (TextSplit T C)
  copy_nodes s copy current [] = some copy
  copy_nodes s copy current (n ∷ ns) = do
    c ← copy_node copy current n (lookup n.id s.ins_prev)
    copy_nodes s c n.id ns

module _ {T A C : Type 0} ⦃o : Ord T⦄ ⦃m : SplitValue C⦄ where
  pub marshal : (C → List ℕ) → Elem T (Body T A C) → List ℕ
  marshal to_string t = marshal_nodes to_string (nodes t.content.rga_tree_split)

  -- `DeepCopy`: a new text of the same nodes and creation time.
  pub deep_copy : Node T C → Elem T (Body T A C) → Option (Elem T (Body T A C))
  deep_copy initial_head t = do
    c ←
        copy_nodes t.content.rga_tree_split (new_text_split initial_head) initial_head.id
          (nodes t.content.rga_tree_split)
    some (new_text c t.created_at)

module _ {T A C : Type 0} ⦃o : Ord T⦄ ⦃m : SplitValue C⦄ ⦃k : Keyed A⦄ ⦃st : Stamped T A⦄ where
  -- `Edit`, of a content that is a value already.
  pub edit_value :
      Elem T (Body T A C)
      → NodePos T
      → NodePos T
      → Option (List (A × T))
      → C
      → T
      → Option (Elem T (Body T A C) × NodePos T × List (A × T))
  edit_value t from to latest value executed_at = do
    (s, caret, seen) ← edit_split t.content.rga_tree_split from to latest value executed_at
    some (record t { content = record t.content { rga_tree_split = s } }, caret, seen)

  pub select : Elem T (Body T A C) → NodePos T → NodePos T → T → Elem T (Body T A C)
  select t from to executed_at =
      let selected = record t {
        content = record t.content {
          selection_map =
              insert (st.actor_of executed_at)
                (record { from = from; to = to; updated_at = executed_at }) t.content.selection_map;
        };
      } in
      elim (lookup (st.actor_of executed_at) t.content.selection_map) [
        | none ↦ selected
        | some prev ↦ if after executed_at prev.updated_at then selected else t
      ]

  -- `Edit` of proxy/text_proxy.go on the text alone: `none` when `from` is behind `to`.
  pub edit_range :
      Elem T (Body T A C) → ℕ → ℕ → C → T → Option (Elem T (Body T A C) × NodePos T × List (A × T))
  edit_range t from to value ticket = do
    (from_pos, to_pos) ← create_range t.content.rga_tree_split from to
    let run = edit_value t from_pos to_pos none value ticket
    if ltb to from then none else run
