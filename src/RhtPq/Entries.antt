-- ===== src/RhtPq/Entries.antt =====
-- What holds of the queues of rht_pq_map.go: each is a heap, and its entries point at nodes of its key.
use Prim.Native.String.{String}
use mathlib.Core.List.{Mem, Perm, mem-cons, not-mem-nil}
use mathlib.Core.List.Perm.{mem_iff}
use mathlib.Core.Logic.Or
use rotty.Prelude.{
  ℕ, ◌≡◌, refl, sym, ap, ◌∙◌, Option, some, ◌>>=◌, Ord, List, [], ◌∷◌, ◌++◌, arith, length,
  get_elem?, set, get_elem?-append_left, get_elem?-append_end, get_elem?-lt, get_elem?-set_self,
  get_elem?-set_other, nat_cases, Bool-cases, Option-cases, inl, inr, if◌then◌else◌, subst,
}
use rotty.Prelude.Assoc.{string_keyed, ord_keyed, Ord-set, Keyed-set, lookup, insert, lookup-insert}
use rotty.Element.{Elem, remove}
use rotty.Pq.Order.{IsOrderly}
use rotty.Pq.Queue.{IsQueue, push-Pushed}
use rotty.Pq.Members.{TopOf, pushed-TopOf}
use rotty.RhtPq.{
  Node, Entry, Queue, RhtPqMap, new_map, entry_value, queue_at, or_empty, set_internal, mark,
}

-- What an entry says of a node: the key and the creation time at a place of the store.
abbrev pub identity_at : {T C : Type 0} → List (Node T C) → ℕ → Option (String × T)
identity_at store i = do n ← get_elem? store i; some (n.key, n.elem.created_at)

String-set : IsSet String
String-set = Keyed-set

module _ {T : Type 0} ⦃o : Ord T⦄ where
  pub entry_value-IsOrderly : IsOrderly (entry_value {T = T})
  entry_value-IsOrderly = record {
    less_asym = λ x y h. ground (arith, h, o.cmp_flip x.created_at y.created_at);
    not_less_trans = λ x y z h k. ground (
      arith,
      h,
      k,
      o.cmp_trans z.created_at y.created_at x.created_at,
      o.cmp_eq y.created_at x.created_at,
      o.cmp_eq z.created_at y.created_at,
      o.cmp_flip x.created_at y.created_at,
      o.cmp_flip x.created_at z.created_at,
      o.cmp_flip y.created_at z.created_at,
      o.cmp_refl y.created_at,
    );
  }

  Identity-set : IsSet (Option (String × T))
  Identity-set = hlevel (String-set, Ord-set)

module _ {T C : Type 0} ⦃o : Ord T⦄ where
  pub record IsMap (m : RhtPqMap T C) : Type 0 where
    pub heap : (key : String) → IsQueue (queue_at m key)
    pub points :
        (key : String) (e : Entry T)
        → Mem e (queue_at m key)
        → identity_at m.store e.place ≡ some (key, e.created_at)

  pub IsMap-new : IsMap (new_map {T = T} {C = C})
  unfolding lookup
  IsMap-new = record {
    heap = λ key c pos lt. absurd (omega (arith, lt));
    points = λ key e h. absurd (not-mem-nil h);
  }

  -- The map with a node at the end of its store, and the queue of its key.
  abbrev pub stored : RhtPqMap T C → String → Elem T C → Queue T → RhtPqMap T C
  stored m key v q = record {
    store = m.store ++ record { key = key; elem = v } ∷ [];
    queue_by_key = insert key q m.queue_by_key;
    by_created_at = insert ⦃e = ord_keyed⦄ v.created_at (length m.store) m.by_created_at;
  }

  abbrev pub new_entry : RhtPqMap T C → Elem T C → Entry T
  new_entry m v = record { place = length m.store; created_at = v.created_at }

  pub queue_at-stored :
      (m : RhtPqMap T C) (key : String) (v : Elem T C) (q : Queue T) (j : String)
      → queue_at (stored m key v q) j ≡ (if string_keyed.same key j then q else queue_at m j)
  queue_at-stored m key v q j = elim (Bool-cases (string_keyed.same key j)) [
    | inl e ↦ ap or_empty (lookup-insert key j q m.queue_by_key) ∙ rw e refl
    | inr e ↦ ap or_empty (lookup-insert key j q m.queue_by_key) ∙ rw e refl
  ]

  identity_at-append :
      (store : List (Node T C)) (n : Node T C) (i : ℕ) (key : String) (t : T)
      → identity_at store i ≡ some (key, t)
      → identity_at (store ++ n ∷ []) i ≡ some (key, t)
  identity_at-append store n i key t h = elim (Option-cases (get_elem? store i)) [
    | inl lost ↦ absurd (ground (arith, lost, h))
    | inr (x, at) ↦ rw (get_elem?-append_left store (n ∷ []) i (get_elem?-lt store i x at)) h
  ]

  identity_at-end :
      (store : List (Node T C)) (n : Node T C)
      → identity_at (store ++ n ∷ []) (length store) ≡ some (n.key, n.elem.created_at)
  identity_at-end store n = rw (get_elem?-append_end store n) refl

  pub stored-IsMap :
      (m : RhtPqMap T C) (key : String) (v : Elem T C) (q : Queue T)
      → IsMap m
      → IsQueue q
      → Perm (new_entry m v ∷ queue_at m key) q
      → IsMap (stored m key v q)
  stored-IsMap m key v q s h p = record {
    heap = λ j. elim (Bool-cases (string_keyed.same key j)) [
      | inl e ↦ subst IsQueue (sym (rw e at (queue_at-stored m key v q j))) h
      | inr e ↦ subst IsQueue (sym (rw e at (queue_at-stored m key v q j))) (s.heap j)
    ];
    points = λ j e mem. elim (Bool-cases (string_keyed.same key j)) [
      | inr ne ↦
          identity_at-append m.store _ e.place j e.created_at
            (s.points j e (subst (Mem e) (rw ne at (queue_at-stored m key v q j)) mem))
      | inl eq ↦
          Or.elim (Identity-set _ _)
            (mem-cons.0
              ((mem_iff p).1 (subst (Mem e) (rw eq at (queue_at-stored m key v q j)) mem)))
            (λ new.
              rw (new, ← (string_keyed.same_iff key j).0 eq)
                (identity_at-end m.store (record { key = key; elem = v })))
            (λ old.
              rw (← (string_keyed.same_iff key j).0 eq)
                (identity_at-append m.store _ e.place key e.created_at (s.points key e old)))
    ];
  }

  -- What `SetInternal` leaves: an entry more in the queue of the key, above those created earlier.
  pub record SetIn (m : RhtPqMap T C) (key : String) (v : Elem T C) : Type 0 where
    pub queue : Queue T
    pub sets : set_internal m key v ≡ some (stored m key v queue)
    pub is_map : IsMap (stored m key v queue)
    pub tops : TopOf (queue_at m key) (new_entry m v) queue

  pub set_internal-SetIn :
      (m : RhtPqMap T C) (key : String) (v : Elem T C) → IsMap m → SetIn m key v
  unfolding set_internal
  set_internal-SetIn m key v s =
      let p = push-Pushed entry_value-IsOrderly (queue_at m key) (new_entry m v) (s.heap key) in
      record {
        queue = p.queue;
        sets = rw (p.pushes, set_internal) refl;
        is_map = stored-IsMap m key v p.queue s p.heap p.values;
        tops = pushed-TopOf entry_value-IsOrderly (queue_at m key) (new_entry m v) p;
      }

  abbrev pub named : Option (Node T C) → Option (String × T)
  named found = do n ← found; some (n.key, n.elem.created_at)

  remove-created_at : (e : Elem T C) (t : T) → (remove e t).0.created_at ≡ e.created_at
  unfolding remove
  remove-created_at e t = ground arith

  -- The removal of a node in its place.
  identity_at-set :
      (store : List (Node T C)) (i k : ℕ) (n n' : Node T C)
      → get_elem? store i ≡ some n
      → n'.key ≡ n.key
      → n'.elem.created_at ≡ n.elem.created_at
      → identity_at (set store i n') k ≡ identity_at store k
  identity_at-set store i k n n' at same_key same_time = elim (nat_cases k i) [
    | inl p ↦
        ap (identity_at (set store i n')) p
        ∙ ap named (get_elem?-set_self store i n' (get_elem?-lt store i n at))
        ∙ rw (same_key, same_time) refl
        ∙ ap named (sym at)
        ∙ ap (identity_at store) (sym p)
    | inr other ↦ ap named (get_elem?-set_other store i k n' other)
  ]

  pub mark-IsMap :
      (m : RhtPqMap T C) (i : ℕ) (n : Node T C) (t : T)
      → IsMap m
      → get_elem? m.store i ≡ some n
      → IsMap (mark m i n t).0
  unfolding mark
  mark-IsMap m i n t s at = elim (Bool-cases (remove n.elem t).1) [
    | inl took ↦
        rw (took, mark)
          (record {
            heap = s.heap;
            points = λ key e mem.
                identity_at-set m.store i e.place n (record n { elem = (remove n.elem t).0 }) at
                  refl (remove-created_at n.elem t)
                ∙ s.points key e mem;
          })
    | inr kept ↦ rw (kept, mark) s
  ]
