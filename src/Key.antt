-- ===== src/Key.antt =====
-- pkg/document/key/key.go: the keys of documents. A text is the list of its bytes.
pub mod Bson
pub mod Tests
use rotty.Prelude.{ℕ, Option, none, some, ◌==◌, List, [], ◌∷◌, ◌++◌, if◌then◌else◌}

abbrev pub bson_splitter : ℕ
bson_splitter = b'$'

pub record Key : Type 0 where
  pub collection : List ℕ
  pub document : List ℕ

abbrev in_front : ℕ → List (List ℕ) → List (List ℕ)
in_front b [] = (b ∷ []) ∷ []
in_front b (piece ∷ pieces) = (b ∷ piece) ∷ pieces

-- `strings.Split` at the one byte of the splitter.
unfoldable pub split : List ℕ → List (List ℕ)
split [] = [] ∷ []
split (b ∷ bs) =
    let pieces = split bs in if b == bson_splitter then [] ∷ pieces else in_front b pieces

abbrev two_pieces : List (List ℕ) → Option Key
two_pieces (collection ∷ document ∷ []) =
    some (record { collection = collection; document = document })
two_pieces _ = none

-- `none` is the error of a text that has not two pieces.
unfoldable pub from_bson_key : List ℕ → Option Key
unfolding split
from_bson_key bson_key = two_pieces (split bson_key)

unfoldable pub bson_key : Key → List ℕ
bson_key k = k.collection ++ bson_splitter ∷ k.document
