-- ===== src/Root/Invariant.antt =====
-- Every object of a document keeps the invariant of its map of members, whatever is executed.
use Prim.Native.String.{String}
use mathlib.Core.Option.{some_inj}
use rotty.Prelude.{
  ℕ, ◌≡◌, refl, ap, Option, none, some, Ord, arith, Option-cases, inl, inr, subst, Bool-cases,
}
use rotty.Prelude.Assoc.{ord_keyed, lookup, lookup-insert}
use rotty.Element.{Elem}
use rotty.RhtPq.{RhtPqMap, Node, new_map, node_at, mark}
use rotty.RhtPq as RhtPq
use rotty.RhtPq.Entries.{IsMap, IsMap-new}
use rotty.RhtPq.Latest.{set_value-SetTo}
use rotty.RhtPq.Removal.{delete_by_created_at-IsMap}
use rotty.RgaList.{RgaList}
use rotty.RgaList as Rga
use rotty.Root.{
  Content, leaf, object, array, Body, members, elements, Root, Operation, set, add, move, remove,
  Executed, done, not_applicable_data_type, Dummy, parent_of, find_body, put_body, note_removed,
  register_element, register_removed_element_pair, copy_value, set_in, add_in, move_in, remove_in,
  execute_in, execute, new_list,
}

module _ {T P : Type 0} ⦃o : Ord T⦄ where
  abbrev pub IsHolding : Body T P → Type 0
  IsHolding b = (m : RhtPqMap T (Content P)) → b ≡ members m → IsMap m

  pub record IsRoot (r : Root T P) : Type 0 where
    pub holds : (t : T) (b : Body T P) → lookup ⦃e = ord_keyed⦄ t r.heap ≡ some b → IsHolding b

  abbrev map_of : RhtPqMap T (Content P) → Body T P → RhtPqMap T (Content P)
  map_of m (members m') = m'
  map_of m (elements a) = m

  abbrev is_object : Body T P → Option ℕ
  is_object (members m) = some 0
  is_object (elements a) = none

  pub members-IsHolding : (m : RhtPqMap T (Content P)) → IsMap m → IsHolding (members m)
  members-IsHolding m s m' e = subst IsMap (ap (map_of m) e) s

  pub elements-IsHolding : (a : RgaList T (Content P)) → IsHolding (elements a)
  elements-IsHolding a m e = absurd (ground (arith, ap is_object e))

  pub put_body-IsRoot :
      (r : Root T P) (t : T) (b : Body T P) → IsRoot r → IsHolding b → IsRoot (put_body r t b)
  unfolding put_body
  put_body-IsRoot r t b s h = record {
    holds = λ q c found. elim (Bool-cases ((ord_keyed {K = T}).same t q)) [
      | inl e ↦ subst IsHolding (some_inj.0 (rw (lookup-insert, e) at found)) h
      | inr e ↦ s.holds q c (rw (lookup-insert, e) at found)
    ];
  }

  note_removed-IsRoot :
      (r : Root T P) (parent : T) (removed : Option (Elem T (Content P)))
      → IsRoot r
      → IsRoot (note_removed r parent removed)
  unfolding note_removed register_removed_element_pair
  note_removed-IsRoot r parent none s = s
  note_removed-IsRoot r parent (some e) s = record { holds = s.holds }

  register_removed-IsRoot :
      (r : Root T P) (parent t : T) → IsRoot r → IsRoot (register_removed_element_pair r parent t)
  unfolding register_removed_element_pair
  register_removed-IsRoot r parent t s = record { holds = s.holds }

  register_element-IsRoot :
      (r : Root T P) (t : T) (c : Content P) → IsRoot r → IsRoot (register_element r t c)
  unfolding register_element
  register_element-IsRoot r t c s = record { holds = s.holds }

  abbrev root_or : Root T P → Option (Executed T P) → Root T P
  root_or r none = r
  root_or r (some not_applicable_data_type) = r
  root_or r (some (done r')) = r'

  -- From the root that was computed to the one that is given.
  along-IsRoot : (x r' : Root T P) → some (done x) ≡ some (done r') → IsRoot x → IsRoot r'
  along-IsRoot x r' h s = subst IsRoot (ap (root_or x) h) s

  move_in-IsRoot :
      (r r' : Root T P) (parent prev t at : T) (b : Body T P)
      → IsRoot r
      → move_in r parent prev t at b ≡ some (done r')
      → IsRoot r'
  unfolding move_in
  move_in-IsRoot r r' parent prev t at (members m) s h = absurd (ground (arith, h))
  move_in-IsRoot r r' parent prev t at (elements a) s h =
      elim (Option-cases (Rga.move_after a prev t at)) [
        | inl lost ↦ absurd (ground (arith, lost, h))
        | inr (a', e) ↦
            along-IsRoot _ r' (rw (e, move_in) at h)
              (put_body-IsRoot r parent (elements a') s (elements-IsHolding a'))
      ]

  remove_in-IsRoot :
      (r r' : Root T P) (parent t at : T) (b : Body T P)
      → IsRoot r
      → IsHolding b
      → remove_in r parent t at b ≡ some (done r')
      → IsRoot r'
  unfolding remove_in
  remove_in-IsRoot r r' parent t at (members m) s k h =
      let (m', removed) = RhtPq.delete_by_created_at m t at in
      along-IsRoot _ r' h (
        note_removed-IsRoot (put_body r parent (members m')) parent removed (
          put_body-IsRoot r parent (members m') s
            (members-IsHolding m' (delete_by_created_at-IsMap m t at (k m refl)))))
  remove_in-IsRoot r r' parent t at (elements a) s k h =
      elim (Option-cases (Rga.delete_by_created_at a t at)) [
        | inl lost ↦ absurd (ground (arith, lost, h))
        | inr (a', e) ↦ along-IsRoot _ r' (rw (e, remove_in) at h) (
            register_removed-IsRoot (put_body r parent (elements a')) parent t
              (put_body-IsRoot r parent (elements a') s (elements-IsHolding a')))
      ]

module _ {T P : Type 0} ⦃o : Ord T⦄ ⦃dummy : Dummy T P⦄ where
  pub copy_value-IsRoot :
      (r : Root T P) (t : T) (c : Content P) → IsRoot r → IsRoot (copy_value r t c)
  unfolding copy_value
  copy_value-IsRoot r t (leaf p) s = s
  copy_value-IsRoot r t object s =
      put_body-IsRoot r t (members new_map) s (members-IsHolding new_map IsMap-new)
  copy_value-IsRoot r t array s = put_body-IsRoot r t _ s (elements-IsHolding new_list)

  -- A value that is copied and registered, in a container that keeps its invariant.
  pub brought-IsRoot :
      (r : Root T P) (parent : T) (b : Body T P) (value : Elem T (Content P))
      → IsRoot r
      → IsHolding b
      → IsRoot (
          register_element
            (put_body (copy_value r value.created_at value.content) parent b)
            value.created_at
            value.content)
  brought-IsRoot r parent b value s h =
      register_element-IsRoot _ value.created_at value.content
        (put_body-IsRoot _ parent b (copy_value-IsRoot r value.created_at value.content s) h)

  set_in-IsRoot :
      (r r' : Root T P) (parent : T) (key : String) (value : Elem T (Content P)) (b : Body T P)
      → IsRoot r
      → IsHolding b
      → set_in r parent key value b ≡ some (done r')
      → IsRoot r'
  unfolding set_in
  set_in-IsRoot r r' parent key value (elements a) s k h = absurd (ground (arith, h))
  set_in-IsRoot r r' parent key value (members m) s k h =
      let to = set_value-SetTo m key value (k m refl) in
      along-IsRoot _ r' (rw (to.sets, set_in) at h) (
        note_removed-IsRoot _ parent to.removed (
          brought-IsRoot r parent (members to.result) value s
            (members-IsHolding to.result to.is_map)))

  add_in-IsRoot :
      (r r' : Root T P) (parent prev : T) (value : Elem T (Content P)) (b : Body T P)
      → IsRoot r
      → add_in r parent prev value b ≡ some (done r')
      → IsRoot r'
  unfolding add_in
  add_in-IsRoot r r' parent prev value (members m) s h = absurd (ground (arith, h))
  add_in-IsRoot r r' parent prev value (elements a) s h =
      elim (Option-cases (Rga.insert_new_after a prev value)) [
        | inl lost ↦ absurd (ground (arith, lost, h))
        | inr (a', e) ↦
            along-IsRoot _ r' (rw (e, add_in) at h)
              (brought-IsRoot r parent (elements a') value s (elements-IsHolding a'))
      ]

  execute_in-IsRoot :
      (r r' : Root T P) (op : Operation T P) (b : Body T P)
      → IsRoot r
      → IsHolding b
      → execute_in r op b ≡ some (done r')
      → IsRoot r'
  unfolding execute_in
  execute_in-IsRoot r r' (set parent key value) b s k h =
      set_in-IsRoot r r' parent key value b s k h
  execute_in-IsRoot r r' (add parent prev value) b s k h =
      add_in-IsRoot r r' parent prev value b s h
  execute_in-IsRoot r r' (move parent prev t at) b s k h =
      move_in-IsRoot r r' parent prev t at b s h
  execute_in-IsRoot r r' (remove parent t at) b s k h = remove_in-IsRoot r r' parent t at b s k h

  pub find-IsHolding :
      (r : Root T P) (t : T) (b : Body T P) → IsRoot r → find_body r t ≡ some b → IsHolding b
  unfolding find_body
  find-IsHolding r t b s h =
      elim (Option-cases (lookup ⦃e = ord_keyed⦄ t r.element_by_created_at)) [
        | inl lost ↦ absurd (ground (arith, lost, h))
        | inr (c, e) ↦ s.holds t b (rw e at h)
      ]

  -- Operations that are executed keep the invariant: the queues of every object are heaps, whose
  -- entries lead to members of their key.
  pub execute-IsRoot :
      (r r' : Root T P) (op : Operation T P) → IsRoot r → execute r op ≡ some (done r') → IsRoot r'
  unfolding execute
  execute-IsRoot r r' op s h = elim (Option-cases (find_body r (parent_of op))) [
    | inl lost ↦ absurd (ground (arith, lost, h))
    | inr (b, e) ↦
        execute_in-IsRoot r r' op b s (find-IsHolding r (parent_of op) b s e) (rw (e, execute) at h)
  ]
