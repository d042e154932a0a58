-- ===== src/Counter/Sum.antt =====
-- Counters that are no floats add up to the same number in any order.
use rotty.Prelude.{
  ℕ, ◌≡◌, ◌||◌, if◌then◌else◌, refl, ap, ◌∙◌, Bool, true, some, ◌>>=◌, Bool-cases, inl, inr, arith,
}
use rotty.Value.{
  Value, null, boolean, integer, long, double, text, binary, date, leaves_int32, value_type,
  is_numeric_type,
}
use rotty.Counter.{
  Counter, integer_counter, long_counter, double_counter, Floats, add_words, promote, increase,
}

-- The number of a counter.
abbrev pub word : Counter → ℕ
word (integer_counter w) = w
word (long_counter w) = w
word (double_counter w) = w

abbrev pub IsIntegral : Counter → Type 0
IsIntegral (double_counter w) = ⊥
IsIntegral _ = Unit

-- What a number adds to a counter that is no float.
abbrev pub amount : Floats → Value → ℕ
amount floats (integer v) = v
amount floats (long v) = v
amount floats (double v) = floats.to_int v
amount floats _ = 0

abbrev pub is_number : Value → Bool
is_number v = is_numeric_type (value_type v)

-- What is left of a counter that is no float after two amounts: their sum with its number, of 64
-- bits, a long if the counter was one or if the number left 32 bits after either of the two.
abbrev pub outcome : Counter → ℕ → ℕ → Counter
outcome (integer_counter u) v w =
    let sum = add_words (add_words u v) w in
    if leaves_int32 (add_words u v) || leaves_int32 sum
    then long_counter sum
    else integer_counter sum
outcome (long_counter u) v w = long_counter (add_words (add_words u v) w)
outcome (double_counter u) v w = double_counter u

-- A counter that is no float after one amount.
abbrev after : Counter → ℕ → Counter
after (integer_counter u) v = promote (add_words u v)
after (long_counter u) v = long_counter (add_words u v)
after (double_counter u) v = double_counter u

after-IsIntegral : (c : Counter) (v : ℕ) → IsIntegral c → IsIntegral (after c v)
after-IsIntegral (integer_counter u) v h = elim (Bool-cases (leaves_int32 (add_words u v))) [
  | inl e ↦ rw e tt
  | inr e ↦ rw e tt
]
after-IsIntegral (long_counter u) v h = tt
after-IsIntegral (double_counter u) v h = absurd h

after-after : (c : Counter) (v w : ℕ) → IsIntegral c → after (after c v) w ≡ outcome c v w
after-after (integer_counter u) v w h = elim (Bool-cases (leaves_int32 (add_words u v))) [
  | inl e ↦ rw e refl
  | inr e ↦ rw e refl
]
after-after (long_counter u) v w h = refl
after-after (double_counter u) v w h = absurd h

add_words_swap : (u v w : ℕ) → add_words (add_words u v) w ≡ add_words (add_words u w) v
add_words_swap u v w = omega arith

word-outcome :
    (c : Counter) (v w : ℕ)
    → IsIntegral c
    → word (outcome c v w) ≡ add_words (add_words (word c) v) w
word-outcome (integer_counter u) v w h =
    elim (Bool-cases (leaves_int32 (add_words u v) || leaves_int32 (add_words (add_words u v) w))) [
      | inl e ↦ rw e refl
      | inr e ↦ rw e refl
    ]
word-outcome (long_counter u) v w h = refl
word-outcome (double_counter u) v w h = absurd h

module _ (floats : Floats) where
  increase-after :
      (c : Counter) (v : Value)
      → IsIntegral c
      → is_number v ≡ true
      → increase floats c v ≡ some (after c (amount floats v))
  unfolding increase
  increase-after (integer_counter w) (integer v) h n = refl
  increase-after (integer_counter w) (long v) h n = refl
  increase-after (integer_counter w) (double v) h n = refl
  increase-after (long_counter w) (integer v) h n = refl
  increase-after (long_counter w) (long v) h n = refl
  increase-after (long_counter w) (double v) h n = refl
  increase-after (double_counter w) v h n = absurd h
  increase-after (integer_counter w) null h n = ground arith
  increase-after (integer_counter w) (boolean b) h n = ground arith
  increase-after (integer_counter w) (text bs) h n = ground arith
  increase-after (integer_counter w) (binary bs) h n = ground arith
  increase-after (integer_counter w) (date seconds nanos location) h n = ground arith
  increase-after (long_counter w) null h n = ground arith
  increase-after (long_counter w) (boolean b) h n = ground arith
  increase-after (long_counter w) (text bs) h n = ground arith
  increase-after (long_counter w) (binary bs) h n = ground arith
  increase-after (long_counter w) (date seconds nanos location) h n = ground arith

  increase-increase :
      (c : Counter) (v w : Value)
      → IsIntegral c
      → is_number v ≡ true
      → is_number w ≡ true
      → (increase floats c v >>= λ d. increase floats d w)
        ≡ some (outcome c (amount floats v) (amount floats w))
  increase-increase c v w h k l =
      ap (λ r. r >>= λ d. increase floats d w) (increase-after c v h k)
      ∙ increase-after (after c (amount floats v)) w (after-IsIntegral c (amount floats v) h) l
      ∙ ap some (after-after c (amount floats v) (amount floats w) h)

  -- Two numbers added to a counter that is no float make the sum of all three, of 64 bits, in either
  -- order, a float counting as the integer that it is converted to. The type may depend on the order: the counter is a long if it was one, or if its number
  -- has left 32 bits after the first number or after both, and else it is an integer.
  pub increase_swap :
      (c : Counter) (v w : Value)
      → IsIntegral c
      → is_number v ≡ true
      → is_number w ≡ true
      → let a = amount floats v in
        let b = amount floats w in
        ((increase floats c v >>= λ d. increase floats d w) ≡ some (outcome c a b))
        × ((increase floats c w >>= λ d. increase floats d v) ≡ some (outcome c b a))
        × (word (outcome c a b) ≡ add_words (add_words (word c) a) b)
        × (word (outcome c b a) ≡ add_words (add_words (word c) a) b)
  increase_swap c v w h k l =
      let a = amount floats v in
      let b = amount floats w in
      (
        increase-increase c v w h k l,
        increase-increase c w v h l k,
        word-outcome c a b h,
        word-outcome c b a h ∙ add_words_swap (word c) b a,
      )
