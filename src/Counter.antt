-- ===== src/Counter.antt =====
-- pkg/document/json/counter.go: the numbers that replicas add to. The arithmetic of `float64` and its
-- conversions from and to integers, which work on the bits, are parameters.
pub mod Sum
pub mod Tests
use rotty.Prelude.{ℕ, ◌+◌, ◌%◌, ◌^◌, Option, none, some, ◌>>=◌, if◌then◌else◌, List}
use rotty.Value.{
  GoValue, go_int, go_int64, go_float64, Value, null, boolean, integer, long, double, text, binary,
  date, leaves_int32, put_uint, get_uint, sign_extend,
}

-- `value` under the type that the counter records for it.
pub data Counter : Type 0 where
  integer_counter : ℕ → Counter
  long_counter : ℕ → Counter
  double_counter : ℕ → Counter

pub record Floats : Type 0 where
  pub add : ℕ → ℕ → ℕ
  pub of_int : ℕ → ℕ
  pub to_int : ℕ → ℕ

-- The sum of words of 64 bits wraps.
abbrev pub add_words : ℕ → ℕ → ℕ
add_words v w = (v + w) % 2 ^ 64

-- An integer that has left 32 bits becomes a long.
abbrev pub promote : ℕ → Counter
promote w = if leaves_int32 w then long_counter w else integer_counter w

module _ (floats : Floats) where
  -- `none` is the panic on a value that is no number.
  unfoldable pub increase : Counter → Value → Option Counter
  increase (integer_counter w) (integer v) = some (promote (add_words w v))
  increase (integer_counter w) (long v) = some (promote (add_words w v))
  increase (integer_counter w) (double v) = some (promote (add_words w (floats.to_int v)))
  increase (long_counter w) (integer v) = some (long_counter (add_words w v))
  increase (long_counter w) (long v) = some (long_counter (add_words w v))
  increase (long_counter w) (double v) = some (long_counter (add_words w (floats.to_int v)))
  increase (double_counter w) (integer v) = some (double_counter (floats.add w (floats.of_int v)))
  increase (double_counter w) (long v) = some (double_counter (floats.add w (floats.of_int v)))
  increase (double_counter w) (double v) = some (double_counter (floats.add w v))
  increase c null = none
  increase c (boolean b) = none
  increase c (text bs) = none
  increase c (binary bs) = none
  increase c (date seconds nanos location) = none

-- `none` is the panic on a value of another type.
pub new_counter : GoValue → Option Counter
new_counter (go_int w) = some (promote w)
new_counter (go_int64 w) = some (long_counter w)
new_counter (go_float64 w) = some (double_counter w)
new_counter v = none

pub data CounterType : Type 0 where
  integer_cnt : CounterType
  long_cnt : CounterType
  double_cnt : CounterType

abbrev pub counter_type : Counter → CounterType
counter_type (integer_counter w) = integer_cnt
counter_type (long_counter w) = long_cnt
counter_type (double_counter w) = double_cnt

pub counter_bytes : Counter → List ℕ
counter_bytes (integer_counter w) = put_uint 4 (w % 2 ^ 32)
counter_bytes (long_counter w) = put_uint 8 w
counter_bytes (double_counter w) = put_uint 8 w

-- `none` is the panic on bytes that are too few.
pub counter_value_from_bytes : CounterType → List ℕ → Option Counter
counter_value_from_bytes integer_cnt bs = do
  u ← get_uint 4 bs
  some (integer_counter (sign_extend u))
counter_value_from_bytes long_cnt bs = do w ← get_uint 8 bs; some (long_counter w)
counter_value_from_bytes double_cnt bs = do w ← get_uint 8 bs; some (double_counter w)
