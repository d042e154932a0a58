-- ===== src/RhtPq/Shown.antt =====
-- `Get` of rht_pq_map.go, which shows the member of a key that was created last.
use Prim.Native.String.{String}
use mathlib.Core.List.{Mem, mem-cons}
use mathlib.Core.Logic.Or
use mathlib.Core.Option.{some_inj}
use rotty.Prelude.{
  ◌≡◌, refl, sym, ap, ◌∙◌, true, false, Option, some, Ord, [], ◌∷◌, ◌++◌, arith, length, get_elem?,
  get_elem?-append_end, Bool-cases, Option-cases, nat_ord, inl, inr, is_gt,
}
use rotty.Prelude.Assoc.{string_keyed, Ord-set, lookup, lookup-insert_self}
use rotty.Element.{Elem, is_removed}
use rotty.Pq.{peek}
use rotty.Pq.Queue.{IsQueue}
use rotty.Pq.Members.{TopOf, peek-Mem, peek-some, less-Mem}
use rotty.RhtPq.{
  Node, Entry, Queue, RhtPqMap, entry_value, queue_at, set_value, remove_top, peek_node, get,
}
use rotty.RhtPq.Entries.{IsMap, set_internal-SetIn, stored, new_entry, named, entry_value-IsOrderly}
use rotty.RhtPq.Latest.{latest, newest_of, remove_top-Cleared}

module _ {T : Type 0} ⦃o : Ord T⦄ where
  new_on_top :
      (q : Queue T) (x : Entry T) (queue : Queue T) (t : TopOf q x queue)
      → IsQueue q
      → ((s : Entry T) → peek q ≡ some s → is_gt (o.cmp x.created_at s.created_at) ≡ true)
      → t.top.place ≡ x.place
  new_on_top q x queue t h newer =
      Or.elim (Ord-set _ _) (mem-cons.0 t.member) (λ new. ap (λ (y : Entry T). y.place) new)
        (λ old. absurd (
          let (s, top) = peek-some q t.top old in
          let above =
            entry_value-IsOrderly.not_less_trans s t.top x
              (less-Mem entry_value-IsOrderly q s t.top h top old) t.above_new in
          ground (arith, above, newer s top)))

module _ {T C : Type 0} ⦃o : Ord T⦄ where
  -- The member that a queue shows.
  record Found (m : RhtPqMap T C) (q : Queue T) (e : Elem T C) : Type 0 where
    entry : Entry T
    node : Node T C
    on_top : peek q ≡ some entry
    points : get_elem? m.store entry.place ≡ some node
    is_elem : node.elem ≡ e
    alive : is_removed e ≡ false

  get-Found :
      (m : RhtPqMap T C) (key : String) (e : Elem T C)
      → get m key ≡ some e
      → Found m (queue_at m key) e
  unfolding get peek_node
  get-Found m key e h = elim (Option-cases (lookup key m.queue_by_key)) [
    | inl lost ↦ absurd (ground (arith, lost, h))
    | inr (q, e1) ↦ elim (Option-cases (peek q)) [
      | inl lost ↦ absurd (ground (arith, e1, lost, h))
      | inr (x, e2) ↦ elim (Option-cases (get_elem? m.store x.place)) [
        | inl lost ↦ absurd (ground (arith, e1, e2, lost, h))
        | inr (n, e3) ↦ elim (Bool-cases (is_removed n.elem)) [
          | inl gone ↦ absurd (ground (arith, e1, e2, e3, gone, h))
          | inr alive ↦
              (let same : n.elem ≡ e = some_inj.0 (rw (e1, e2, e3, alive) at h) in
                record {
                  entry = x;
                  node = n;
                  on_top = rw e1 e2;
                  points = e3;
                  is_elem = same;
                  alive = rw (← same) alive;
                })
        ]
      ]
    ]
  ]

  -- `Get` gives a member that is not removed, and no member of the key was created after it.
  pub get-latest :
      (m : RhtPqMap T C) (key : String) (e : Elem T C)
      → IsMap m
      → get m key ≡ some e
      → (latest m key ≡ some e.created_at)
        × (is_removed e ≡ false)
        × ((x : Entry T) → Mem x (queue_at m key) → is_gt (o.cmp x.created_at e.created_at) ≡ false)
  get-latest m key e s h =
      let f = get-Found m key e h in
      let identity : some (f.node.key, f.node.elem.created_at) ≡ some (key, f.entry.created_at) =
        ap named (sym f.points)
        ∙ s.points key f.entry (peek-Mem (queue_at m key) f.entry f.on_top) in
      let stamp : e.created_at ≡ f.entry.created_at =
        ap (λ (x : Elem T C). x.created_at) (sym f.is_elem)
        ∙ ap (λ (p : String × T). p.1) (some_inj.0 identity) in
      (
        rw (f.on_top, stamp) refl,
        f.alive,
        λ x mem.
            rw stamp
              (less-Mem entry_value-IsOrderly (queue_at m key) f.entry x (s.heap key) f.on_top mem),
      )

  shown_at :
      (m : RhtPqMap T C) (key : String) (q : Queue T) (x : Entry T) (n : Node T C)
      → lookup key m.queue_by_key ≡ some q
      → peek q ≡ some x
      → get_elem? m.store x.place ≡ some n
      → is_removed n.elem ≡ false
      → get m key ≡ some n.elem
  unfolding get peek_node
  shown_at m key q x n e1 e2 e3 alive = rw (e1, get) (rw (e2, e3, peek_node) (rw alive refl))

  -- A value that is not removed, and newer than the members that its key has, is shown after `Set`.
  pub set_value-get :
      (m : RhtPqMap T C) (key : String) (v : Elem T C)
      → IsMap m
      → is_removed v ≡ false
      → ((t : T) → latest m key ≡ some t → is_gt (o.cmp v.created_at t) ≡ true)
      → (m' : RhtPqMap T C) × (removed : Option (Elem T C)) × (set_value m key v
          ≡ some (m', removed))
        × (get m' key ≡ some v)
  unfolding set_value
  set_value-get m key v s alive newer =
      let (m1, removed) = remove_top m key v.created_at in
      let c = remove_top-Cleared m key v.created_at s in
      let i = set_internal-SetIn m1 key v c.is_map in
      let place : i.tops.top.place ≡ length m1.store =
        new_on_top (queue_at m1 key) (new_entry m1 v) i.queue i.tops (c.is_map.heap key)
          (λ x e. newer x.created_at (rw e at (ap newest_of (sym (c.same_queues key))))) in
      (
        stored m1 key v i.queue,
        removed,
        ground (arith, i.sets),
        shown_at (stored m1 key v i.queue) key i.queue i.tops.top (record { key = key; elem = v })
            (lookup-insert_self key i.queue m1.queue_by_key) i.tops.shown
            (ap (get_elem? (m1.store ++ record { key = key; elem = v } ∷ [])) place
              ∙ get_elem?-append_end m1.store (record { key = key; elem = v }))
            alive,
      )
