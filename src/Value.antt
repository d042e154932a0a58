-- ===== src/Value.antt =====
-- pkg/document/json/primitive.go: the values that a document holds, and their bytes. An `int` and an
-- `int64` are words of 64 bits in two's complement, a `float64` is the word of its bits, a string
-- is its bytes, and a time is its seconds, as such a word, with the nanoseconds in the second and the
-- name of its location.
pub mod Bytes
pub mod Tests
use Prim.Native.String.{String}
use rotty.Prelude.{
  ℕ, zero, suc, ◌+◌, ◌-◌, ◌*◌, ◌/◌, ◌%◌, ◌^◌, Bool, true, false, ◌||◌, ◌&&◌, Option, none, some,
  ◌>>=◌, ltb, leb, ◌==◌, if◌then◌else◌, List, [], ◌∷◌,
}

pub data ValueType : Type 0 where
  null_type : ValueType
  boolean_type : ValueType
  integer_type : ValueType
  long_type : ValueType
  double_type : ValueType
  string_type : ValueType
  bytes_type : ValueType
  date_type : ValueType

-- What a Go program hands to `NewPrimitive`.
pub data GoValue : Type 0 where
  go_nil : GoValue
  go_bool : Bool → GoValue
  go_int : ℕ → GoValue
  go_int64 : ℕ → GoValue
  go_float64 : ℕ → GoValue
  go_string : List ℕ → GoValue
  go_bytes : List ℕ → GoValue
  go_time : ℕ → ℕ → String → GoValue

-- A value under the type that a primitive records for it.
pub data Value : Type 0 where
  null : Value
  boolean : Bool → Value
  integer : ℕ → Value
  long : ℕ → Value
  double : ℕ → Value
  text : List ℕ → Value
  binary : List ℕ → Value
  date : ℕ → ℕ → String → Value

abbrev pub value_type : Value → ValueType
value_type null = null_type
value_type (boolean b) = boolean_type
value_type (integer w) = integer_type
value_type (long w) = long_type
value_type (double w) = double_type
value_type (text bs) = string_type
value_type (binary bs) = bytes_type
value_type (date seconds nanos location) = date_type

-- A word that is no number of 32 bits: above the greatest, and below the least.
abbrev pub leaves_int32 : ℕ → Bool
leaves_int32 w = leb (2 ^ 31) w && ltb w (2 ^ 64 - 2 ^ 31)

unfoldable pub new_value : GoValue → Value
new_value go_nil = null
new_value (go_bool b) = boolean b
new_value (go_int w) = if leaves_int32 w then long w else integer w
new_value (go_int64 w) = long w
new_value (go_float64 w) = double w
new_value (go_string bs) = text bs
new_value (go_bytes bs) = binary bs
new_value (go_time seconds nanos location) = date seconds nanos location

-- `PutUint32` and `PutUint64` of encoding/binary, the low byte first, for a number of bytes.
abbrev pub put_uint : ℕ → ℕ → List ℕ
put_uint zero w = []
put_uint (suc n) w = w % 256 ∷ put_uint n (w / 256)

-- `Uint32` and `Uint64`, which panic on fewer bytes.
abbrev pub get_uint : ℕ → List ℕ → Option ℕ
get_uint zero bs = some 0
get_uint (suc n) [] = none
get_uint (suc n) (b ∷ bs) = do rest ← get_uint n bs; some (b + 256 * rest)

-- The conversion of a uint32 to int32 and from there to int.
abbrev pub sign_extend : ℕ → ℕ
sign_extend u = if ltb u (2 ^ 31) then u else u + (2 ^ 64 - 2 ^ 32)

pub value_bytes : Value → List ℕ
value_bytes null = []
value_bytes (boolean b) = (if b then 1 else 0) ∷ []
value_bytes (integer w) = put_uint 4 (w % 2 ^ 32)
value_bytes (long w) = put_uint 8 w
value_bytes (double w) = put_uint 8 w
value_bytes (text bs) = bs
value_bytes (binary bs) = bs
-- `UTC` changes the location, which `Unix` does not read.
value_bytes (date seconds nanos location) = put_uint 8 seconds

abbrev boolean_from : List ℕ → Option Value
boolean_from [] = none
boolean_from (b ∷ bs) = some (boolean (b == 1))

-- `local` is the location of the machine, which `Unix` of package time gives to a time. `none` is the
-- panic on bytes that are too few.
pub value_from_bytes : String → ValueType → List ℕ → Option Value
value_from_bytes local null_type bs = some null
value_from_bytes local boolean_type bs = boolean_from bs
value_from_bytes local integer_type bs = do u ← get_uint 4 bs; some (integer (sign_extend u))
value_from_bytes local long_type bs = do w ← get_uint 8 bs; some (long w)
value_from_bytes local double_type bs = do w ← get_uint 8 bs; some (double w)
value_from_bytes local string_type bs = some (text bs)
value_from_bytes local bytes_type bs = some (binary bs)
value_from_bytes local date_type bs = do seconds ← get_uint 8 bs; some (date seconds 0 local)

abbrev pub is_numeric_type : ValueType → Bool
is_numeric_type integer_type = true
is_numeric_type long_type = true
is_numeric_type double_type = true
is_numeric_type _ = false
