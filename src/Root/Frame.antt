-- ===== src/Root/Frame.antt =====
-- An operation changes what the container that it names holds, and no other one.
use Prim.Native.String.{String}
use rotty.Prelude.{
  ◌≡◌, ◌≢◌, refl, sym, ap, ◌∙◌, Option, none, some, Ord, arith, Option-cases, inl, inr,
}
use rotty.Prelude.Assoc.{ord_keyed, lookup, lookup-insert_other, lookup-insert_self}
use rotty.Element.{Elem}
use rotty.RhtPq.{RhtPqMap, new_map}
use rotty.RhtPq as RhtPq
use rotty.RgaList.{RgaList}
use rotty.RgaList as Rga
use rotty.Root.{
  Content, leaf, object, array, Body, members, elements, Root, Operation, set, add, move, remove,
  Executed, done, not_applicable_data_type, Dummy, parent_of, find_body, put_body, note_removed,
  register_element, register_removed_element_pair, copy_value, set_in, add_in, move_in, remove_in,
  execute_in, execute,
}

-- The element that an operation brings in has another creation time.
abbrev pub IsElsewhere : {T P : Type 0} → T → Operation T P → Type 0
IsElsewhere q (set parent key value) = (parent ≢ q) × (value.created_at ≢ q)
IsElsewhere q (add parent prev value) = (parent ≢ q) × (value.created_at ≢ q)
IsElsewhere q (move parent prev t executed_at) = parent ≢ q
IsElsewhere q (remove parent t executed_at) = parent ≢ q

module _ {T P : Type 0} ⦃o : Ord T⦄ where
  pub find-put_body_other :
      (r : Root T P) (t q : T) (b : Body T P) → t ≢ q → find_body (put_body r t b) q ≡ find_body r q
  unfolding find_body put_body
  find-put_body_other r t q b n = rw (lookup-insert_other ⦃e = ord_keyed⦄ t q b r.heap n) refl

  pub find-put_body_self :
      (r : Root T P) (t : T) (b0 b : Body T P)
      → find_body r t ≡ some b0
      → find_body (put_body r t b) t ≡ some b
  unfolding find_body put_body
  find-put_body_self r t b0 b h =
      elim (Option-cases (lookup ⦃e = ord_keyed⦄ t r.element_by_created_at)) [
        | inl lost ↦ absurd (ground (arith, lost, h))
        | inr (c, e) ↦ rw (e, lookup-insert_self ⦃e = ord_keyed⦄ t b r.heap) refl
      ]

  pub find-note_removed :
      (r : Root T P) (parent q : T) (removed : Option (Elem T (Content P)))
      → find_body (note_removed r parent removed) q ≡ find_body r q
  unfolding find_body note_removed register_removed_element_pair
  find-note_removed r parent q none = refl
  find-note_removed r parent q (some e) = refl

  pub find-register_removed :
      (r : Root T P) (parent t q : T)
      → find_body (register_removed_element_pair r parent t) q ≡ find_body r q
  unfolding find_body register_removed_element_pair
  find-register_removed r parent t q = refl

  pub find-register_element :
      (r : Root T P) (t q : T) (c : Content P)
      → t ≢ q
      → find_body (register_element r t c) q ≡ find_body r q
  unfolding find_body register_element
  find-register_element r t q c n =
      rw (lookup-insert_other ⦃e = ord_keyed⦄ t q c r.element_by_created_at n) refl

  abbrev pub found_after : T → Option (Executed T P) → Option (Body T P)
  found_after q none = none
  found_after q (some not_applicable_data_type) = none
  found_after q (some (done r)) = find_body r q

  move_in-find :
      (r r' : Root T P) (parent prev t at q : T) (b : Body T P)
      → parent ≢ q
      → move_in r parent prev t at b ≡ some (done r')
      → find_body r' q ≡ find_body r q
  unfolding move_in
  move_in-find r r' parent prev t at q (members m) n h = absurd (ground (arith, h))
  move_in-find r r' parent prev t at q (elements a) n h =
      elim (Option-cases (Rga.move_after a prev t at)) [
        | inl lost ↦ absurd (ground (arith, lost, h))
        | inr (a', e) ↦
            sym (ap (found_after q) (rw (e, move_in) at h))
            ∙ find-put_body_other r parent q (elements a') n
      ]

  remove_in-find :
      (r r' : Root T P) (parent t at q : T) (b : Body T P)
      → parent ≢ q
      → remove_in r parent t at b ≡ some (done r')
      → find_body r' q ≡ find_body r q
  unfolding remove_in
  remove_in-find r r' parent t at q (members m) n h =
      let (m', removed) = RhtPq.delete_by_created_at m t at in
      sym (ap (found_after q) h)
      ∙ find-note_removed (put_body r parent (members m')) parent q removed
      ∙ find-put_body_other r parent q (members m') n
  remove_in-find r r' parent t at q (elements a) n h =
      elim (Option-cases (Rga.delete_by_created_at a t at)) [
        | inl lost ↦ absurd (ground (arith, lost, h))
        | inr (a', e) ↦
            sym (ap (found_after q) (rw (e, remove_in) at h))
            ∙ find-register_removed (put_body r parent (elements a')) parent t q
            ∙ find-put_body_other r parent q (elements a') n
      ]

module _ {T P : Type 0} ⦃o : Ord T⦄ ⦃dummy : Dummy T P⦄ where
  pub find-copy_value :
      (r : Root T P) (t q : T) (c : Content P)
      → t ≢ q
      → find_body (copy_value r t c) q ≡ find_body r q
  unfolding copy_value
  find-copy_value r t q (leaf p) n = refl
  find-copy_value r t q object n = find-put_body_other r t q (members new_map) n
  find-copy_value r t q array n = find-put_body_other r t q _ n

  -- The container that holds a value copied and registered.
  pub find-brought :
      (r : Root T P) (parent q : T) (b : Body T P) (value : Elem T (Content P))
      → parent ≢ q
      → value.created_at ≢ q
      → find_body
          (register_element
            (put_body (copy_value r value.created_at value.content) parent b)
            value.created_at
            value.content)
          q
        ≡ find_body r q
  find-brought r parent q b value n1 n2 =
      find-register_element _ value.created_at q value.content n2
      ∙ find-put_body_other _ parent q b n1
      ∙ find-copy_value r value.created_at q value.content n2

  set_in-find :
      (r r' : Root T P) (parent q : T) (key : String) (value : Elem T (Content P)) (b : Body T P)
      → parent ≢ q
      → value.created_at ≢ q
      → set_in r parent key value b ≡ some (done r')
      → find_body r' q ≡ find_body r q
  unfolding set_in
  set_in-find r r' parent q key value (elements a) n1 n2 h = absurd (ground (arith, h))
  set_in-find r r' parent q key value (members m) n1 n2 h =
      elim (Option-cases (RhtPq.set_value m key value)) [
        | inl lost ↦ absurd (ground (arith, lost, h))
        | inr ((m', removed), e) ↦
            sym (ap (found_after q) (rw (e, set_in) at h))
            ∙ find-note_removed _ parent q removed
            ∙ find-brought r parent q (members m') value n1 n2
      ]

  add_in-find :
      (r r' : Root T P) (parent q prev : T) (value : Elem T (Content P)) (b : Body T P)
      → parent ≢ q
      → value.created_at ≢ q
      → add_in r parent prev value b ≡ some (done r')
      → find_body r' q ≡ find_body r q
  unfolding add_in
  add_in-find r r' parent q prev value (members m) n1 n2 h = absurd (ground (arith, h))
  add_in-find r r' parent q prev value (elements a) n1 n2 h =
      elim (Option-cases (Rga.insert_new_after a prev value)) [
        | inl lost ↦ absurd (ground (arith, lost, h))
        | inr (a', e) ↦
            sym (ap (found_after q) (rw (e, add_in) at h))
            ∙ find-brought r parent q (elements a') value n1 n2
      ]

  execute_in-find :
      (r r' : Root T P) (op : Operation T P) (b : Body T P) (q : T)
      → IsElsewhere q op
      → execute_in r op b ≡ some (done r')
      → find_body r' q ≡ find_body r q
  unfolding execute_in
  execute_in-find r r' (set parent key value) b q (n1, n2) h =
      set_in-find r r' parent q key value b n1 n2 h
  execute_in-find r r' (add parent prev value) b q (n1, n2) h =
      add_in-find r r' parent q prev value b n1 n2 h
  execute_in-find r r' (move parent prev t at) b q n h = move_in-find r r' parent prev t at q b n h
  execute_in-find r r' (remove parent t at) b q n h = remove_in-find r r' parent t at q b n h

  -- An operation that is executed leaves what every container holds as it was, the elements in it
  -- with their times, but for the container that it names as the parent, and the one that it brings
  -- in. The times of a container itself stand in its parent, and are not part of what it holds.
  pub find-execute :
      (r r' : Root T P) (op : Operation T P) (q : T)
      → IsElsewhere q op
      → execute r op ≡ some (done r')
      → find_body r' q ≡ find_body r q
  unfolding execute
  find-execute r r' op q n h = elim (Option-cases (find_body r (parent_of op))) [
    | inl lost ↦ absurd (ground (arith, lost, h))
    | inr (b, e) ↦ execute_in-find r r' op b q n (rw (e, execute) at h)
  ]
