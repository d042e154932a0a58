-- ===== src/Key/Bson.antt =====
-- The text of a key is read back as the key.
use rotty.Prelude.{ℕ, ◌≡◌, ◌≢◌, refl, some, List, [], ◌∷◌, ◌++◌, All, arith}
use mathlib.Core.List.{append-nil}
use rotty.Key.{Key, bson_splitter, split, from_bson_key, bson_key, in_front, two_pieces}

-- A text without the splitter.
abbrev pub IsPlain : List ℕ → Type 0
IsPlain = All (λ b. b ≢ bson_splitter)

split_plain : (bs : List ℕ) → IsPlain bs → split bs ≡ bs ∷ []
unfolding split
split_plain [] h = refl
split_plain (b ∷ bs) h = ground (arith, h.0, split_plain bs h.1)

split_piece : (bs cs : List ℕ) → IsPlain bs → split (bs ++ bson_splitter ∷ cs) ≡ bs ∷ split cs
unfolding split
split_piece [] cs h = refl
split_piece (b ∷ bs) cs h = ground (arith, h.0, split_piece bs cs h.1)

-- The text of a key whose two names are free of `$` is read back as the key.
pub from_bson_key-bson_key :
    (k : Key) → IsPlain k.collection → IsPlain k.document → from_bson_key (bson_key k) ≡ some k
unfolding from_bson_key bson_key
from_bson_key-bson_key k c d =
    rw (split_piece k.collection k.document c, split_plain k.document d) refl

-- The pieces put together again, the splitter in front of each.
abbrev rejoin : List (List ℕ) → List ℕ
rejoin [] = []
rejoin (piece ∷ pieces) = bson_splitter ∷ (piece ++ rejoin pieces)

rejoin-in_front :
    (b : ℕ) (pieces : List (List ℕ)) (bs : List ℕ)
    → rejoin pieces ≡ bson_splitter ∷ bs
    → rejoin (in_front b pieces) ≡ bson_splitter ∷ b ∷ bs
rejoin-in_front b [] bs h = ground arith
rejoin-in_front b (piece ∷ pieces) bs h = cc

rejoin-split : (bs : List ℕ) → rejoin (split bs) ≡ bson_splitter ∷ bs
unfolding split
rejoin-split [] = refl
rejoin-split (b ∷ bs) = ground (arith, rejoin-split bs, rejoin-in_front b (split bs) bs)

rejoin-two_pieces :
    (pieces : List (List ℕ)) (k : Key) (bs : List ℕ)
    → two_pieces pieces ≡ some k
    → rejoin pieces ≡ bson_splitter ∷ bs
    → bson_key k ≡ bs
unfolding bson_key
rejoin-two_pieces [] k bs h r = ground arith
rejoin-two_pieces (p ∷ []) k bs h r = ground arith
rejoin-two_pieces (p ∷ q ∷ []) k bs h r = ground (arith, append-nil q)
rejoin-two_pieces (p ∷ q ∷ x ∷ xs) k bs h r = ground arith

-- A text that is accepted is the text of the key that is returned.
pub from_bson_key_sound : (bs : List ℕ) (k : Key) → from_bson_key bs ≡ some k → bson_key k ≡ bs
unfolding from_bson_key
from_bson_key_sound bs k h = rejoin-two_pieces (split bs) k bs h (rejoin-split bs)
