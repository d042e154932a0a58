-- ===== src/Value/Bytes.antt =====
-- The bytes of a value are read back as the value.
use Prim.Native.String.{String}
use rotty.Prelude.{
  ℕ, zero, suc, ◌*◌, ◌/◌, ◌%◌, ◌^◌, ◌<◌, ◌≡◌, refl, ap, ◌∙◌, true, false, some, ◌>>=◌, Bool-cases,
  inl, inr, arith,
}
use rotty.Value.{
  GoValue, Value, null, boolean, integer, long, double, text, binary, date, value_type, new_value,
  put_uint, get_uint, sign_extend, leaves_int32, value_bytes, value_from_bytes,
}

-- The number of values of so many bytes.
abbrev limit : ℕ → ℕ
limit zero = 1
limit (suc n) = 256 * limit n

get_uint-put_uint : (n w : ℕ) → w < limit n → get_uint n (put_uint n w) ≡ some w
get_uint-put_uint zero w h = ground arith
get_uint-put_uint (suc n) w h =
    rw (get_uint-put_uint n (w / 256) (omega arith)) (ap some (omega arith))

-- The words of a value are words, and an integer is a number of 32 bits.
abbrev pub IsValue : Value → Type 0
IsValue (integer w) = (w < 2 ^ 64) × (leaves_int32 w ≡ false)
IsValue (long w) = w < 2 ^ 64
IsValue (double w) = w < 2 ^ 64
IsValue (date seconds nanos location) = seconds < 2 ^ 64
IsValue _ = Unit

-- The value with a time to the second, at another location.
abbrev pub to_seconds : String → Value → Value
to_seconds local (date seconds nanos location) = date seconds 0 local
to_seconds local v = v

sign_extend-mod : (w : ℕ) → w < 2 ^ 64 → leaves_int32 w ≡ false → sign_extend (w % 2 ^ 32) ≡ w
sign_extend-mod w h k = ground arith

value_from_bytes-value_bytes :
    (local : String) (v : Value)
    → IsValue v
    → value_from_bytes local (value_type v) (value_bytes v) ≡ some (to_seconds local v)
unfolding value_from_bytes value_bytes
value_from_bytes-value_bytes local null h = refl
value_from_bytes-value_bytes local (boolean true) h = refl
value_from_bytes-value_bytes local (boolean false) h = refl
value_from_bytes-value_bytes local (integer w) h =
    ap (λ r. r >>= λ u. some (integer (sign_extend u)))
      (get_uint-put_uint 4 (w % 2 ^ 32) (omega arith))
    ∙ ap (λ u. some (integer u)) (sign_extend-mod w h.0 h.1)
value_from_bytes-value_bytes local (long w) h =
    ap (λ r. r >>= λ u. some (long u)) (get_uint-put_uint 8 w h)
value_from_bytes-value_bytes local (double w) h =
    ap (λ r. r >>= λ u. some (double u)) (get_uint-put_uint 8 w h)
value_from_bytes-value_bytes local (text bs) h = refl
value_from_bytes-value_bytes local (binary bs) h = refl
value_from_bytes-value_bytes local (date seconds nanos location) h =
    ap (λ r. r >>= λ u. some (date u 0 local)) (get_uint-put_uint 8 seconds h)

-- What `NewPrimitive` makes of the words of a Go program is a value.
abbrev pub IsGoValue : GoValue → Type 0
IsGoValue (GoValue.go_int w) = w < 2 ^ 64
IsGoValue (GoValue.go_int64 w) = w < 2 ^ 64
IsGoValue (GoValue.go_float64 w) = w < 2 ^ 64
IsGoValue (GoValue.go_time seconds nanos location) = seconds < 2 ^ 64
IsGoValue _ = Unit

new_value-IsValue : (v : GoValue) → IsGoValue v → IsValue (new_value v)
unfolding new_value
new_value-IsValue GoValue.go_nil h = tt
new_value-IsValue (GoValue.go_bool b) h = tt
new_value-IsValue (GoValue.go_int w) h = elim (Bool-cases (leaves_int32 w)) [
  | inl e ↦ rw e h
  | inr e ↦ rw e (h, e)
]
new_value-IsValue (GoValue.go_int64 w) h = h
new_value-IsValue (GoValue.go_float64 w) h = h
new_value-IsValue (GoValue.go_string bs) h = tt
new_value-IsValue (GoValue.go_bytes bs) h = tt
new_value-IsValue (GoValue.go_time seconds nanos location) h = h

-- The bytes of a primitive, read under its type, are the value that `NewPrimitive` stored, except
-- that a time loses what is less than a second and is given the location of the machine that reads
-- it in place of its own.
pub value_from_bytes-new_value :
    (local : String) (v : GoValue)
    → IsGoValue v
    → value_from_bytes local (value_type (new_value v)) (value_bytes (new_value v))
      ≡ some (to_seconds local (new_value v))
value_from_bytes-new_value local v h =
    value_from_bytes-value_bytes local (new_value v) (new_value-IsValue v h)
