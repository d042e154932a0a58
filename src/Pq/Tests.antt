-- ===== src/Pq/Tests.antt =====
-- Runs of the queue, with numbers of which the greater are popped first.
use rotty.Prelude.{ℕ, zero, suc, ltb, refl, ◌≡◌, some, List, [], ◌∷◌, arith, false, nat_ord}
use rotty.Prelude.Assoc.{Keyed, ord_keyed}
use rotty.Pq.{
  Value, up, down, swap, push, pop, release, remove, less_at, larger_child, pop_last, take_out,
  index_of, peek,
}
use rotty.Pq.Order.{IsOrderly}
use rotty.Pq.Queue.{IsQueue, Pushed, Taken, push-Pushed, pop-Taken}
use rotty.Pq.Top.{peek-IsTop}
use rotty.Pq.Release.{Released, release-Released}

instance abbrev greater_first : Value ℕ
greater_first = record { less = λ x y. ltb y x }

greater_first-IsOrderly : IsOrderly greater_first
greater_first-IsOrderly = record {
  less_asym = λ x y h. ground (arith, h);
  not_less_trans = λ x y z h k. ground (arith, h, k);
}

instance abbrev numbers : Keyed ℕ
numbers = ord_keyed

abbrev four : List ℕ
four = 9 ∷ 7 ∷ 4 ∷ 2 ∷ []

four-IsQueue : IsQueue four
four-IsQueue zero pos lt = absurd (ground (arith, pos))
four-IsQueue (suc zero) pos lt = refl
four-IsQueue (suc (suc zero)) pos lt = refl
four-IsQueue (suc (suc (suc zero))) pos lt = refl
four-IsQueue (suc (suc (suc (suc c)))) pos lt = absurd (ground (arith, lt))

push_eight : push four 8 ≡ some (9 ∷ 8 ∷ 4 ∷ 2 ∷ 7 ∷ [])
unfolding push up swap less_at
push_eight = refl

pop_nine : pop four ≡ some (7 ∷ 2 ∷ 4 ∷ [], 9)
unfolding pop down swap less_at larger_child pop_last
pop_nine = refl

release_seven : release four 7 ≡ some (9 ∷ 2 ∷ 4 ∷ [])
unfolding release remove take_out index_of up down swap less_at larger_child pop_last
release_seven = refl

push-Pushed_example : Pushed four 8
push-Pushed_example = push-Pushed greater_first-IsOrderly four 8 four-IsQueue

pop-Taken_example : Taken four 0 (pop four)
pop-Taken_example = pop-Taken greater_first-IsOrderly 9 (7 ∷ 4 ∷ 2 ∷ []) four-IsQueue

release-Released_example : Released four 7
release-Released_example = release-Released greater_first-IsOrderly four 7 four-IsQueue

top_of_four : ltb 9 2 ≡ false
unfolding peek
top_of_four = peek-IsTop greater_first-IsOrderly four 9 2 3 four-IsQueue refl refl
