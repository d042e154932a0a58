-- ===== src/Counter/Tests.antt =====
-- Runs of counter.go, and an instance of the theorem on it.
use rotty.Prelude.{ℕ, ◌-◌, ◌^◌, ◌≡◌, refl, some, ◌>>=◌}
use rotty.Value.{integer, long}
use rotty.Counter.{Counter, integer_counter, long_counter, Floats, increase, add_words}
use rotty.Counter.Sum.{word, outcome, increase_swap}

-- No test adds floats.
abbrev no_floats : Floats
no_floats = record { add = λ v w. 0; of_int = λ v. 0; to_int = λ v. 0 }

abbrev greatest : Counter
greatest = integer_counter (2 ^ 31 - 1)

abbrev minus_one : ℕ
minus_one = 2 ^ 64 - 1

-- The order of two increases shows in the type of the counter: up first leaves 32 bits.
up_first :
    (increase no_floats greatest (integer 1) >>= λ c. increase no_floats c (integer minus_one))
    ≡ some (long_counter (2 ^ 31 - 1))
unfolding increase
up_first = refl

down_first :
    (increase no_floats greatest (integer minus_one) >>= λ c. increase no_floats c (integer 1))
    ≡ some (integer_counter (2 ^ 31 - 1))
unfolding increase
down_first = refl

increase_swap_example :
    let first = outcome greatest 1 minus_one in
    let second = outcome greatest minus_one 1 in
    let sum = add_words (add_words (2 ^ 31 - 1) 1) minus_one in
    ((increase no_floats greatest (integer 1) >>= λ d. increase no_floats d (long minus_one))
      ≡ some first)
    × ((increase no_floats greatest (long minus_one) >>= λ d. increase no_floats d (integer 1))
        ≡ some second)
    × (word first ≡ sum)
    × (word second ≡ sum)
increase_swap_example = increase_swap no_floats greatest (integer 1) (long minus_one) tt refl refl
