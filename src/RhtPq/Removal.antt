-- ===== src/RhtPq/Removal.antt =====
-- Removal from rht_pq_map.go, down to a key whose queue is empty.
use mathlib.Core.Option.{some_inj}
use rotty.Prelude.{
  ℕ, ◌≡◌, refl, sym, ap, ◌∙◌, none, some, Ord, [], ◌∷◌, arith, get_elem?, inl, inr, Option-cases,
}
use rotty.Prelude.Assoc.{string_keyed, lookup, insert, delete, ord_keyed, lookup-insert_self}
use rotty.Element.{Elem}
use rotty.Pq.Release.{release_only, peek-nil}
use rotty.RhtPq.Entries.{IsMap, mark-IsMap}
use rotty.RhtPq.{
  delete_by_created_at, Node, Entry, RhtPqMap, entry_value, entry_keyed, node_at, purge, has, get,
  delete_key, peek_node,
}

module _ {T C : Type 0} ⦃o : Ord T⦄ where
  peek_node-nil : (m : RhtPqMap T C) → peek_node m [] ≡ none
  unfolding peek_node
  peek_node-nil m = rw peek-nil refl

  -- A key whose only member is purged keeps an empty queue: `Get` gives nothing, and `Has` and
  -- `Delete` panic.
  pub purge-has-delete_key :
      (m : RhtPqMap T C) (e : Elem T C) (i : ℕ) (n : Node T C) (t : T)
      → node_at m e.created_at ≡ some (i, n)
      → lookup n.key m.queue_by_key
        ≡ some (record { place = i; created_at = n.elem.created_at } ∷ [])
      → (m' : RhtPqMap T C) × (purge m e ≡ some m')
        × (get m' n.key ≡ none)
        × (has m' n.key ≡ none)
        × (delete_key m' n.key t ≡ none)
  unfolding purge has get delete_key
  purge-has-delete_key m e i n t at only =
      let entry : Entry T = record { place = i; created_at = n.elem.created_at } in
      let m' : RhtPqMap T C = record m {
        queue_by_key = insert n.key [] m.queue_by_key;
        by_created_at = delete ⦃e = ord_keyed⦄ n.elem.created_at m.by_created_at;
      } in
      let here = lookup-insert_self n.key [] m.queue_by_key in
      (
        m',
        rw (at, only, release_only entry, purge) refl,
        rw (here, peek_node-nil m', get) refl,
        rw (here, peek_node-nil m', has) refl,
        rw (here, peek_node-nil m', delete_key) refl,
      )

  node_at-get :
      (m : RhtPqMap T C) (t : T) (i : ℕ) (n : Node T C)
      → node_at m t ≡ some (i, n)
      → get_elem? m.store i ≡ some n
  unfolding node_at
  node_at-get m t i n h = elim (Option-cases (lookup ⦃e = ord_keyed⦄ t m.by_created_at)) [
    | inl lost ↦ absurd (ground (arith, lost, h))
    | inr (k, e) ↦ elim (Option-cases (get_elem? m.store k)) [
      | inl lost ↦ absurd (ground (arith, e, lost, h))
      | inr (x, found) ↦
          (let same : (k, x) ≡ (i, n) = some_inj.0 (rw (e, found) at h) in
            ap (λ (p : ℕ × Node T C). get_elem? m.store p.0) (sym same)
            ∙ found
            ∙ ap (λ (p : ℕ × Node T C). some p.1) same)
    ]
  ]

  pub delete_by_created_at-IsMap :
      (m : RhtPqMap T C) (t at : T) → IsMap m → IsMap (delete_by_created_at m t at).0
  unfolding delete_by_created_at
  delete_by_created_at-IsMap m t at s = elim (Option-cases (node_at m t)) [
    | inl e ↦ rw (e, delete_by_created_at) s
    | inr ((i, n), e) ↦ rw (e, delete_by_created_at) (mark-IsMap m i n at s (node_at-get m t i n e))
  ]
