-- ===== src/Element/Tests.antt =====
-- Runs of `Remove`, and an instance of the theorem on it. The times are numbers.
use rotty.Prelude.{ℕ, ◌≡◌, refl, true, false, none, some, nat_ord}
use rotty.Element.{Elem, remove}
use rotty.Element.Removal.{remove_swap}

abbrev made : Elem ℕ ℕ
made = record { created_at = 2; moved_at = none; removed_at = none; content = 0 }

remove_early : remove made 1 ≡ (made, false)
unfolding remove
remove_early = refl

remove_late : remove made 5 ≡ (record made { removed_at = some 5 }, true)
unfolding remove
remove_late = refl

remove_swap_example : (remove (remove made 3).0 5).0 ≡ (remove (remove made 5).0 3).0
remove_swap_example = remove_swap made 3 5
