-- ===== src/Time/ActorId/Hex.antt =====
-- The hexadecimal names of actors: `ActorIDFromHex` and `String` of actor_id.go, with
-- `hex.EncodeToString` and `hex.DecodeString` of the standard library.
use rotty.Prelude.{
  ℕ, ◌+◌, ◌*◌, ◌-◌, ◌/◌, ◌%◌, ◌<◌, ◌≡◌, refl, List, [], ◌∷◌, Option, none, some, arith, ◌==◌, leb,
  ltb, ◌&&◌, if◌then◌else◌, length, All, ◌>>=◌, Option-cases, inl, inr,
}
use rotty.Time.ActorId.{
  ActorId, IsActorId, IsActorPointer, actor_id_size, Result, ok, err, invalid_hex_string,
}

hex_digit : ℕ → ℕ
hex_digit d = if ltb d 10 then 48 + d else 87 + d

-- Lower-case digits, two for a byte.
encode_to_string : List ℕ → List ℕ
encode_to_string [] = []
encode_to_string (b ∷ bs) = hex_digit (b / 16) ∷ hex_digit (b % 16) ∷ encode_to_string bs

from_hex_char : ℕ → Option ℕ
from_hex_char c =
    if leb 48 c && leb c 57
    then some (c - 48)
    else if leb 97 c && leb c 102
    then some (c - 87)
    else if leb 65 c && leb c 70
    then some (c - 55)
    else none

-- `none` is an error: a character that is no digit, or an odd length.
decode_string : List ℕ → Option (List ℕ)
decode_string [] = some []
decode_string (c ∷ []) = none
decode_string (c ∷ d ∷ rest) = do
  hi ← from_hex_char c
  lo ← from_hex_char d
  bs ← decode_string rest
  some ((hi * 16 + lo) ∷ bs)

decoded_actor_id : Option (List ℕ) → Result (Option ActorId)
decoded_actor_id none = err invalid_hex_string
decoded_actor_id (some decoded) =
    if length decoded == actor_id_size then ok (some decoded) else err invalid_hex_string

pub actor_id_from_hex : List ℕ → Result (Option ActorId)
unfolding decoded_actor_id
actor_id_from_hex [] = ok none
actor_id_from_hex (c ∷ str) = decoded_actor_id (decode_string (c ∷ str))

-- The receiver may be nil.
pub actor_string : Option ActorId → List ℕ
actor_string none = []
actor_string (some id) = encode_to_string id

from_hex_char-hex_digit : (d : ℕ) → d < 16 → from_hex_char (hex_digit d) ≡ some d
unfolding from_hex_char hex_digit
from_hex_char-hex_digit d h = ground arith

decode_string-encode :
    (bs : List ℕ) → All (λ b. b < 256) bs → decode_string (encode_to_string bs) ≡ some bs
unfolding decode_string encode_to_string
decode_string-encode [] h = refl
decode_string-encode (b ∷ bs) h = ground (
  arith,
  from_hex_char-hex_digit (b / 16),
  from_hex_char-hex_digit (b % 16),
  decode_string-encode bs,
)

from_hex_char-lt : (c d : ℕ) → from_hex_char c ≡ some d → d < 16
unfolding from_hex_char
from_hex_char-lt c d h = ground arith

-- A decoded text holds bytes, two characters for each.
decode_string_shape :
    (s bs : List ℕ) → decode_string s ≡ some bs → All (λ b. b < 256) bs × (length s ≡ 2 * length bs)
unfolding decode_string
decode_string_shape [] [] h = omega arith
decode_string_shape [] (b ∷ bs) h = ground arith
decode_string_shape (c ∷ []) bs h = ground arith
decode_string_shape (c ∷ d ∷ rest) [] h = ground arith
decode_string_shape (c ∷ d ∷ rest) (b ∷ bs) h =
    grind (arith, from_hex_char-lt c, from_hex_char-lt d, decode_string_shape rest bs)

-- The name of an actor of twelve bytes is read back as the actor, and the empty name of the nil
-- actor as nil.
pub actor_id_from_hex-string :
    (id : Option ActorId) → IsActorPointer id → actor_id_from_hex (actor_string id) ≡ ok id
unfolding actor_id_from_hex actor_string encode_to_string
actor_id_from_hex-string none h = refl
actor_id_from_hex-string (some []) h = absurd (omega (arith, h.size))
actor_id_from_hex-string (some (b ∷ bs)) h =
    rw (decode_string-encode (b ∷ bs) h.bytes) (ground (arith, h.size))

-- A text that is accepted as an actor that is not nil has 24 characters, and the actor has twelve
-- bytes.
pub actor_id_from_hex_sound :
    (str : List ℕ) (a : ActorId)
    → actor_id_from_hex str ≡ ok (some a)
    → IsActorId a × (length str ≡ 24)
unfolding actor_id_from_hex
actor_id_from_hex_sound [] a h = ground arith
actor_id_from_hex_sound (c ∷ str) a h = elim (Option-cases (decode_string (c ∷ str))) [
  | inl e ↦ absurd (ground arith)
  | inr (bs, e) ↦ ground (arith, decode_string_shape (c ∷ str) bs e)
]
