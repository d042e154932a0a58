-- ===== src/Rht/Lookup.antt =====
-- `Set` of rht.go as a write into a register that the latest writer keeps.
use Prim.Native.String.{String}
use rotty.Prelude.{
  ℕ, ◌<◌, ◌≡◌, Option, none, some, Ord, [], ◌∷◌, if◌then◌else◌, length, length-append,
  get_elem?-append_left, get_elem?-append_end, arith, Bool-cases, Option-cases, inl, inr,
}
use rotty.Prelude.Assoc.{string_keyed, lookup, lookup-insert}
use rotty.Rht.{Node, Rht, new_node, new_rht, find, after, put_node, set_value}

module _ {T : Type 0} where
  -- The map of the keys points into the store.
  pub record IsStored (rht : Rht T) : Type 0 where
    pub places : (k : String) (i : ℕ) → lookup k rht.by_key ≡ some i → i < length rht.store

  pub IsStored-new : IsStored (new_rht {T = T})
  unfolding lookup
  IsStored-new = record { places = λ k i h. absurd (ground arith) }

module _ {T : Type 0} ⦃o : Ord T⦄ where
  -- One register: a write is kept if it is later than the one that is there.
  unfoldable pub write : Option (Node T) → String → String → T → Option (Node T)
  write none k v t = some (new_node k v t)
  write (some n) k v t = if after t n.updated_at then some (new_node k v t) else some n

  put_node-IsStored :
      (rht : Rht T) (k v : String) (t : T) → IsStored rht → IsStored (put_node rht k v t)
  unfolding put_node
  put_node-IsStored rht k v t s = record {
    places = λ j i h. ground (
      arith,
      lookup-insert k j (length rht.store) rht.by_key,
      s.places j i,
      length-append rht.store (new_node k v t ∷ []),
    );
  }

  pub set_value-IsStored :
      (rht : Rht T) (k v : String) (t : T) → IsStored rht → IsStored (set_value rht k v t)
  unfolding set_value
  set_value-IsStored rht k v t s = elim (Option-cases (find rht k)) [
    | inl e ↦ rw (e, set_value) (put_node-IsStored rht k v t s)
    | inr (n, e) ↦ elim (Bool-cases (after t n.updated_at)) [
      | inl w ↦ rw (e, set_value) (rw w (put_node-IsStored rht k v t s))
      | inr w ↦ rw (e, set_value) (rw w s)
    ]
  ]

  find-put_node :
      (rht : Rht T) (k v : String) (t : T) (j : String)
      → IsStored rht
      → find (put_node rht k v t) j
        ≡ (if string_keyed.same k j then some (new_node k v t) else find rht j)
  unfolding put_node find
  find-put_node rht k v t j s = elim (Bool-cases (string_keyed.same k j)) [
    | inl e ↦ rw lookup-insert (rw e (get_elem?-append_end rht.store (new_node k v t)))
    | inr e ↦ rw lookup-insert (
        rw e (elim (Option-cases (lookup j rht.by_key)) [
          | inl n ↦ rw n
          | inr (i, n) ↦
              rw n (get_elem?-append_left rht.store (new_node k v t ∷ []) i (s.places j i n))
        ]))
  ]

  -- What a key leads to after a `Set`: the register of that key is written, the others are left.
  pub find-set_value :
      (rht : Rht T) (k v : String) (t : T) (j : String)
      → IsStored rht
      → find (set_value rht k v t) j
        ≡ (if string_keyed.same k j then write (find rht j) k v t else find rht j)
  unfolding set_value write
  find-set_value rht k v t j s =
      ground (arith, find-put_node rht k v t j s, string_keyed.same_iff k j)
