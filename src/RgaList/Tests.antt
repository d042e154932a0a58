-- ===== src/RgaList/Tests.antt =====
-- Runs of rga_tree_list.go, and instances of the theorems on it. The times are numbers.
use rotty.Prelude.{
  ℕ, ◌+◌, ◌-◌, ◌%◌, ◌^◌, ◌≡◌, ◌≢◌, refl, none, some, List, [], ◌∷◌, ◌>>=◌, nat_ord, arith, ltb, leb,
  if◌then◌else◌,
}
use rotty.Element.{Elem}
use rotty.RgaList.{
  find_prev_created_at, RgaList, Copies, struct_kind, container_kind, text_kind, copy_as, copy_elem,
  copy_all, deep_copy, insert_new_after, insert_after, delete_by_created_at, place_after,
  find_next_before_executed_at,
}
use rotty.RgaList.Nodes.{nodes_of}
use rotty.RgaList.Convergence.{
  Op, inserts, deletes, run, Reordered, behind, swapped, chained, run-Reordered,
}
use rotty.RgaList.Copy.{deep_copy_lem}
use rotty.RgaList.Length.{IsCounted, insert_new_after-IsCounted, delete_twice_sizes}

abbrev made : ℕ → Elem ℕ ℕ
made t = record { created_at = t; moved_at = none; removed_at = none; content = 10 }

-- The dummy head, which counts as removed, and one element.
abbrev one : RgaList ℕ ℕ
one = record {
  nodes =
      record { created_at = 0; moved_at = none; removed_at = some 0; content = 0 } ∷ made 1 ∷ [];
  last = 1;
  size = 1;
}

abbrev one_two : RgaList ℕ ℕ
one_two = record {
  nodes =
      record { created_at = 0; moved_at = none; removed_at = some 0; content = 0 }
      ∷ made 2
      ∷ made 1
      ∷ [];
  last = 1;
  size = 2;
}

insert_in_front : insert_new_after one 0 (made 2) ≡ some one_two
unfolding insert_new_after insert_after place_after find_next_before_executed_at
insert_in_front = refl

abbrev here_first : List (Op ℕ ℕ)
here_first = inserts 0 (made 3) ∷ inserts 0 (made 2) ∷ deletes 1 4 ∷ []

abbrev there_first : List (Op ℕ ℕ)
there_first = inserts 0 (made 2) ∷ deletes 1 4 ∷ inserts 0 (made 3) ∷ []

exchanged : Reordered here_first there_first
exchanged =
    chained
      (swapped (inserts 0 (made 3)) (inserts 0 (made 2)) (deletes 1 4 ∷ [])
        (omega arith, omega arith, omega arith, refl, refl))
      (behind (inserts 0 (made 2)) (swapped (inserts 0 (made 3)) (deletes 1 4) [] (omega arith)))

run-Reordered_example : nodes_of (run one here_first) ≡ nodes_of (run one there_first)
run-Reordered_example = run-Reordered one exchanged

two_insertions_count : IsCounted one_two
two_insertions_count = insert_new_after-IsCounted one one_two 0 (made 2) refl insert_in_front refl

delete_twice_sizes_example :
    (b : RgaList ℕ ℕ) × (d : RgaList ℕ ℕ) × ((delete_by_created_at one 1 5 >>= λ x.
    delete_by_created_at x 1 6)
      ≡ some b)
    × ((delete_by_created_at one 1 6 >>= λ x. delete_by_created_at x 1 5) ≡ some d)
    × (b.nodes ≡ d.nodes)
    × (b.size ≡ (1 + (2 ^ 64 - 2)) % 2 ^ 64)
    × (d.size ≡ (1 + (2 ^ 64 - 1)) % 2 ^ 64)
    × (b.size ≢ d.size)
delete_twice_sizes_example = delete_twice_sizes one 1 5 6 (made 1) refl refl refl refl

prev_of_one : find_prev_created_at one_two 1 ≡ some 2
unfolding find_prev_created_at
prev_of_one = refl

-- A content above 100 is a text, one of 50 or more a container, and else a primitive.
abbrev by_number : Copies ℕ
by_number = record {
  kind_of = λ n. if ltb 100 n then text_kind else if leb 50 n then container_kind else struct_kind;
  copy_content = λ n. n;
}

abbrev dummy_head : Elem ℕ ℕ
dummy_head = record { created_at = 0; moved_at = none; removed_at = some 0; content = 0 }

abbrev removed_elem : ℕ → ℕ → Elem ℕ ℕ
removed_elem t n = record { created_at = t; moved_at = some 3; removed_at = some 4; content = n }

-- Of the elements three are removed, and the length is 1.
abbrev with_removed : RgaList ℕ ℕ
with_removed = record {
  nodes = dummy_head ∷ removed_elem 5 10 ∷ removed_elem 6 50 ∷ removed_elem 2 200 ∷ made 1 ∷ [];
  last = 1;
  size = 1;
}

abbrev copied_elems : List (Elem ℕ ℕ)
copied_elems = removed_elem 5 10 ∷ removed_elem 6 50 ∷ removed_elem 2 200 ∷ made 1 ∷ []

-- The copy of the container is not moved any more, and that of the text is there again.
copies_of_kinds :
    copy_all by_number copied_elems
    ≡ removed_elem 5 10
      ∷ record (removed_elem 6 50) { moved_at = none }
      ∷ record (removed_elem 2 200) { moved_at = none; removed_at = none }
      ∷ made 1
      ∷ []
unfolding copy_all copy_elem copy_as
copies_of_kinds = refl

deep_copy_lem_example :
    deep_copy by_number with_removed
    ≡ some (record { nodes = dummy_head ∷ copy_all by_number copied_elems; last = 1; size = 4 })
deep_copy_lem_example =
    deep_copy_lem by_number with_removed dummy_head copied_elems refl
      (refl, (refl, (refl, (refl, (refl, 0)))))
