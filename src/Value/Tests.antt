-- ===== src/Value/Tests.antt =====
-- Runs of primitive.go, and an instance of the theorem on it.
use rotty.Prelude.{◌-◌, ◌^◌, ◌≡◌, refl, some, arith}
use rotty.Value.{
  GoValue, go_int, go_time, integer, new_value, value_type, value_bytes, value_from_bytes,
}
use rotty.Value.Bytes.{to_seconds, value_from_bytes-new_value}

abbrev minus_two : GoValue
minus_two = go_int (2 ^ 64 - 2)

minus_two-integer : new_value minus_two ≡ integer (2 ^ 64 - 2)
unfolding new_value
minus_two-integer = refl

-- A time of Seoul with a half of a second.
abbrev noon_in_seoul : GoValue
noon_in_seoul = go_time 1606359600 500000000 "Asia/Seoul"

value_from_bytes-new_value_example :
    value_from_bytes "Local"
      (value_type (new_value noon_in_seoul))
      (value_bytes (new_value noon_in_seoul))
    ≡ some (to_seconds "Local" (new_value noon_in_seoul))
value_from_bytes-new_value_example = value_from_bytes-new_value "Local" noon_in_seoul (omega arith)
