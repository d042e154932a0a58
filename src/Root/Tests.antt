-- ===== src/Root/Tests.antt =====
-- Runs of operations on a root, with numbers for times and for values.
use rotty.Prelude.{ℕ, ◌≡◌, refl, none, some, [], ◌∷◌, nat_ord, arith}
use rotty.Prelude.Assoc.{lookup, insert, delete}
use rotty.Element.{Elem}
use rotty.Pq.{peek}
use rotty.RhtPq.{RhtPqMap, new_map, get}
use rotty.RhtPq.Entries.{IsMap-new}
use rotty.Root.{
  Content, leaf, object, array, members, elements, Root, Operation, set, add, done,
  not_applicable_data_type, Dummy, find_body, execute, execute_in, add_in, put_body,
  deregister_element, new_list,
}
use rotty.Root.Invariant.{
  IsRoot, execute-IsRoot, members-IsHolding, elements-IsHolding, put_body-IsRoot,
}
use rotty.Root.Frame.{find-execute}
use rotty.Root.Setting.{execute-get}

instance abbrev nothing : Dummy ℕ ℕ
nothing = record { initial_ticket = 0; nought = 0 }

abbrev value : ℕ → Content ℕ → Elem ℕ (Content ℕ)
value t c = record { created_at = t; moved_at = none; removed_at = none; content = c }

abbrev no_container : Root ℕ ℕ
no_container = record {
  heap = [];
  element_by_created_at = (0, object) ∷ (1, array) ∷ [];
  removed_pair_by_created_at = [];
}

-- An object and an array, both empty.
abbrev with_list : Root ℕ ℕ
with_list = record no_container { heap = (0, members new_map) ∷ (1, elements new_list) ∷ [] }

with_list-IsRoot : IsRoot with_list
unfolding put_body insert lookup
with_list-IsRoot =
    put_body-IsRoot (put_body no_container 0 (members new_map)) 1 (elements new_list)
      (put_body-IsRoot no_container 0 (members new_map)
        (record { holds = λ t b h. absurd (ground (arith, h)) })
        (members-IsHolding new_map IsMap-new))
      (elements-IsHolding new_list)

abbrev set_five : Operation ℕ ℕ
set_five = set 0 "k" (value 2 (leaf 5))

abbrev Five : Type 0
Five =
    (r' : Root ℕ ℕ) × (m' : RhtPqMap ℕ (Content ℕ)) × (execute with_list set_five ≡ some (done r'))
    × (find_body r' 0 ≡ some (members m'))
    × (get m' "k" ≡ some (value 2 (leaf 5)))

with_five : Five
unfolding find_body lookup peek
with_five =
    execute-get with_list 0 "k" (value 2 (leaf 5)) new_map with_list-IsRoot refl refl
      (λ t h. absurd (ground (arith, h))) (λ h. omega (arith, h))

execute-get_example : Five
unfolding find_body lookup peek
execute-get_example =
    execute-get with_list 0 "k" (value 2 (leaf 5)) new_map with_list-IsRoot refl refl
      (λ t h. absurd (ground (arith, h))) (λ h. omega (arith, h))

execute-IsRoot_example : IsRoot with_five.0
execute-IsRoot_example = execute-IsRoot with_list with_five.0 set_five with_list-IsRoot with_five.2

find-execute_example : find_body with_five.0 1 ≡ find_body with_list 1
find-execute_example =
    find-execute with_list with_five.0 set_five 1 (λ h. omega (arith, h), λ h. omega (arith, h))
      with_five.2

-- An element is added to what is no array.
add_to_object : execute with_list (add 0 0 (value 1 array)) ≡ some not_applicable_data_type
unfolding execute execute_in add_in find_body lookup
add_to_object = refl

without_list :
    deregister_element with_list 1 ≡ record with_list { element_by_created_at = (0, object) ∷ [] }
unfolding deregister_element delete
without_list = refl
