-- ===== src/RhtPq/Tests.antt =====
-- Runs of the map, with numbers for times and for contents.
use Prim.Native.String.{String}
use mathlib.Core.List.{Mem}
use mathlib.Core.List.Perm.{swap as perm_swap, refl as perm_refl}
use rotty.Prelude.{ℕ, ◌≡◌, refl, false, Option, none, some, ◌>>=◌, [], ◌∷◌, nat_ord, arith, is_gt}
use rotty.Prelude.Assoc.{lookup, insert, delete}
use rotty.Element.{Elem, is_removed, remove}
use rotty.Pq.{
  push, up, down, swap, less_at, larger_child, pop_last, peek, remove as pq_remove, release,
  index_of, take_out,
}
use rotty.RhtPq.{
  elements, elements_of, nodes, nodes_of, nodes_at, Entry, RhtPqMap, new_map, get, has, set_value,
  set_internal, remove_top, peek_node, mark, node_at, delete_key, delete_by_created_at, purge,
  queue_at,
}
use rotty.RhtPq.Entries.{IsMap, IsMap-new, stored-IsMap}
use rotty.RhtPq.Latest.{latest, SetTo, set_value-SetTo}
use rotty.RhtPq.Shown.{get-latest, set_value-get}
use rotty.RhtPq.Convergence.{run_sets, latest-perm}
use rotty.RhtPq.Removal.{purge-has-delete_key}

abbrev elem : ℕ → Elem ℕ ℕ
elem t = record { created_at = t; moved_at = none; removed_at = none; content = t }

abbrev at_first : Elem ℕ ℕ
at_first = elem 3

abbrev one_member : RhtPqMap ℕ ℕ
one_member = record {
  store = record { key = "k"; elem = at_first } ∷ [];
  queue_by_key = ("k", record { place = 0; created_at = 3 } ∷ []) ∷ [];
  by_created_at = (3, 0) ∷ [];
}

-- The set at time 5 comes first, and the one at time 3 does not remove anything.
abbrev newer_first : Option (RhtPqMap ℕ ℕ)
newer_first = run_sets new_map (("k", elem 5) ∷ ("k", elem 3) ∷ [])

abbrev older_first : Option (RhtPqMap ℕ ℕ)
older_first = run_sets new_map (("k", elem 3) ∷ ("k", elem 5) ∷ [])

abbrev shown : Option (RhtPqMap ℕ ℕ) → Option (Elem ℕ ℕ)
shown m = do m' ← m; get m' "k"

-- The newer value is deleted and purged.
abbrev without_newer : Option (RhtPqMap ℕ ℕ) → Option (RhtPqMap ℕ ℕ)
without_newer m = do m' ← m; purge (delete_by_created_at m' 5 7).0 (elem 5)

newer_first_brings_back : shown (without_newer newer_first) ≡ some (elem 3)
unfolding run_sets set_value set_internal remove_top peek_node mark node_at delete_by_created_at
    purge get lookup insert delete remove push up swap less_at release index_of take_out down
    larger_child pop_last peek pq_remove
newer_first_brings_back = refl

older_first_shows_nothing : shown (without_newer older_first) ≡ none
unfolding run_sets set_value set_internal remove_top peek_node mark node_at delete_by_created_at
    purge get lookup insert delete remove push up swap less_at release index_of take_out down
    larger_child pop_last peek pq_remove
older_first_shows_nothing = refl

elements_of_one : elements one_member ≡ ("k", at_first) ∷ []
unfolding elements elements_of peek_node peek
elements_of_one = refl

nodes_of_one : nodes one_member ≡ record { key = "k"; elem = at_first } ∷ []
unfolding nodes nodes_of nodes_at
nodes_of_one = refl

one_member-IsMap : IsMap one_member
unfolding lookup insert
one_member-IsMap =
    stored-IsMap new_map "k" at_first (record { place = 0; created_at = 3 } ∷ []) IsMap-new
      (λ c pos lt. absurd (omega (arith, pos, lt)))
      (perm_refl (record { place = 0; created_at = 3 } ∷ []))

get-latest_example :
    (latest one_member "k" ≡ some 3)
    × (is_removed at_first ≡ false)
    × ((x : Entry ℕ) → Mem x (queue_at one_member "k") → is_gt (nat_ord.cmp x.created_at 3) ≡ false)
unfolding get lookup peek_node peek
get-latest_example = get-latest one_member "k" at_first one_member-IsMap refl

first_is_shown :
    (m' : RhtPqMap ℕ ℕ) × (removed : Option (Elem ℕ ℕ)) × (set_value new_map "k" at_first
      ≡ some (m', removed))
    × (get m' "k" ≡ some at_first)
unfolding lookup peek
first_is_shown =
    set_value-get new_map "k" at_first IsMap-new refl (λ t h. absurd (ground (arith, h)))

first_set : SetTo (new_map {T = ℕ} {C = ℕ}) "k" at_first
first_set = set_value-SetTo new_map "k" at_first IsMap-new

latest-perm_example :
    (a : RhtPqMap ℕ ℕ) × (b : RhtPqMap ℕ ℕ) × (newer_first ≡ some a)
    × (older_first ≡ some b)
    × ((key : String) → latest a key ≡ latest b key)
latest-perm_example =
    latest-perm (("k", elem 5) ∷ ("k", elem 3) ∷ []) (("k", elem 3) ∷ ("k", elem 5) ∷ [])
      (perm_swap ("k", elem 3) ("k", elem 5) [])

purge-has-delete_key_example :
    (m' : RhtPqMap ℕ ℕ) × (purge one_member at_first ≡ some m')
    × (get m' "k" ≡ none)
    × (has m' "k" ≡ none)
    × (delete_key m' "k" 8 ≡ none)
unfolding node_at lookup
purge-has-delete_key_example =
    purge-has-delete_key one_member at_first 0 (record { key = "k"; elem = at_first }) 8 refl refl
