-- ===== src/RhtPq/Latest.antt =====
-- `Set` of rht_pq_map.go: the member shown for a key is the one that was created last.
use Prim.Native.String.{String}
use mathlib.Core.List.{mem-cons}
use mathlib.Core.Logic.Or
use mathlib.Core.Option.{some_inj}
use rotty.Prelude.{
  ℕ, ◌≡◌, refl, sym, ap, ◌∙◌, false, Option, none, some, ◌>>=◌, Ord, arith, get_elem?, Bool-cases,
  Option-cases, inl, inr, if◌then◌else◌, is_gt,
}
use rotty.Prelude.Assoc.{string_keyed, Ord-set}
use rotty.Element.{Elem, remove, is_removed}
use rotty.Pq.{peek}
use rotty.Pq.Queue.{IsQueue}
use rotty.Pq.Members.{TopOf, peek-Mem, peek-some, less-Mem}
use rotty.RhtPq.{
  Node, Entry, Queue, RhtPqMap, entry_value, queue_at, mark, remove_top, set_value, peek_node,
}
use rotty.RhtPq.Entries.{
  IsMap, set_internal-SetIn, stored, new_entry, queue_at-stored, mark-IsMap, entry_value-IsOrderly,
}

module _ {T : Type 0} where
  abbrev pub time_of : Option (Entry T) → Option T
  time_of found = do e ← found; some e.created_at

  abbrev pub newest_of : Queue T → Option T
  newest_of q = time_of (peek q)

  -- The creation time of the member that a key shows, unless it is removed.
  abbrev pub latest : {C : Type 0} → RhtPqMap T C → String → Option T
  latest m key = newest_of (queue_at m key)

module _ {T : Type 0} ⦃o : Ord T⦄ where
  abbrev pub later : Option T → T → T
  later none t = t
  later (some s) t = if is_gt (o.cmp t s) then t else s

  Time-set : IsSet (Option T)
  Time-set = hlevel Ord-set

  later_old : (s t : T) → is_gt (o.cmp t s) ≡ false → later (some s) t ≡ s
  later_old s t h = ground (arith, h)

  later_new : (s t : T) → is_gt (o.cmp s t) ≡ false → later (some s) t ≡ t
  later_new s t h = ground (arith, h, o.cmp_eq s t, o.cmp_flip s t)

  not_after_each : (s t : T) → is_gt (o.cmp s t) ≡ false → is_gt (o.cmp t s) ≡ false → s ≡ t
  not_after_each s t h k = ground (arith, h, k, o.cmp_eq s t, o.cmp_flip s t)

  -- The top of a queue after a push is the later of the top before it and the new entry.
  newest_of-TopOf :
      (q : Queue T) (x : Entry T) (queue : Queue T)
      → IsQueue q
      → TopOf q x queue
      → newest_of queue ≡ some (later (newest_of q) x.created_at)
  newest_of-TopOf q x queue h t =
      ap time_of t.shown
      ∙ Or.elim (Time-set _ _) (mem-cons.0 t.member)
          (λ new. elim (Option-cases (peek q)) [
            | inl e ↦ rw (new, e) refl
            | inr (s, e) ↦
                rw (new, e)
                  (ap some (
                    sym (
                      later_new s.created_at x.created_at
                        (rw new at (t.above_old s (peek-Mem q s e))))))
          ])
          (λ old.
            (let (s, e) = peek-some q t.top old in
              let same : t.top.created_at ≡ s.created_at =
                not_after_each t.top.created_at s.created_at
                  (less-Mem entry_value-IsOrderly q s t.top h e old)
                  (t.above_old s (peek-Mem q s e)) in
              rw e (
                ap some
                  (same ∙ sym (later_old s.created_at x.created_at (rw same at t.above_new))))))

module _ {T C : Type 0} ⦃o : Ord T⦄ where
  queue_at-mark :
      (m : RhtPqMap T C) (i : ℕ) (n : Node T C) (t : T) (j : String)
      → queue_at (mark m i n t).0 j ≡ queue_at m j
  unfolding mark
  queue_at-mark m i n t j = elim (Bool-cases (remove n.elem t).1) [
    | inl took ↦ rw (took, mark) refl
    | inr kept ↦ rw (kept, mark) refl
  ]

  pub peek_node-at :
      (m : RhtPqMap T C) (q : Queue T) (i : ℕ) (n : Node T C)
      → peek_node m q ≡ some (i, n)
      → get_elem? m.store i ≡ some n
  unfolding peek_node
  peek_node-at m q i n h = elim (Option-cases (peek q)) [
    | inl e ↦ absurd (ground (arith, e, h))
    | inr (x, e) ↦ elim (Option-cases (get_elem? m.store x.place)) [
      | inl lost ↦ absurd (ground (arith, e, lost, h))
      | inr (y, found) ↦
          (let same : (x.place, y) ≡ (i, n) = some_inj.0 (rw (e, found) at h) in
            ap (λ (p : ℕ × Node T C). get_elem? m.store p.0) (sym same)
            ∙ found
            ∙ ap (λ (p : ℕ × Node T C). some p.1) same)
    ]
  ]

  -- The removal of the value that was there changes no queue.
  pub record Cleared (m : RhtPqMap T C) (m' : RhtPqMap T C) : Type 0 where
    pub is_map : IsMap m'
    pub same_queues : (j : String) → queue_at m' j ≡ queue_at m j

  pub remove_top-Cleared :
      (m : RhtPqMap T C) (key : String) (t : T) → IsMap m → Cleared m (remove_top m key t).0
  unfolding remove_top
  remove_top-Cleared m key t s = elim (Option-cases (peek_node m (queue_at m key))) [
    | inl e ↦ rw (e, remove_top) (record { is_map = s; same_queues = λ j. refl })
    | inr ((i, n), e) ↦ elim (Bool-cases (is_removed n.elem)) [
      | inl gone ↦ rw (e, remove_top) (rw gone (record { is_map = s; same_queues = λ j. refl }))
      | inr alive ↦
          rw (e, remove_top)
            (rw alive (record {
              is_map = mark-IsMap m i n t s (peek_node-at m (queue_at m key) i n e);
              same_queues = queue_at-mark m i n t;
            }))
    ]
  ]

  -- What `Set` leaves.
  pub record SetTo (m : RhtPqMap T C) (key : String) (v : Elem T C) : Type 0 where
    pub result : RhtPqMap T C
    pub removed : Option (Elem T C)
    pub sets : set_value m key v ≡ some (result, removed)
    pub is_map : IsMap result
    pub shows :
        (j : String)
        → latest result j ≡ (
            if string_keyed.same key j
            then some (later (latest m key) v.created_at)
            else latest m j)

  pub set_value-SetTo : (m : RhtPqMap T C) (key : String) (v : Elem T C) → IsMap m → SetTo m key v
  unfolding set_value
  set_value-SetTo m key v s =
      let (m1, removed) = remove_top m key v.created_at in
      let c = remove_top-Cleared m key v.created_at s in
      let i = set_internal-SetIn m1 key v c.is_map in
      record {
        result = stored m1 key v i.queue;
        removed = removed;
        sets = ground (arith, i.sets);
        is_map = i.is_map;
        shows = λ j. elim (Bool-cases (string_keyed.same key j)) [
          | inl e ↦ rw e (
              ap newest_of (rw e at (queue_at-stored m1 key v i.queue j))
              ∙ newest_of-TopOf (queue_at m1 key) (new_entry m1 v) i.queue (c.is_map.heap key)
                  i.tops
              ∙ ap (λ (q : Queue T). some (later (newest_of q) v.created_at)) (c.same_queues key))
          | inr e ↦
              rw e (ap newest_of (rw e at (queue_at-stored m1 key v i.queue j) ∙ c.same_queues j))
        ];
      }
