-- ===== src/Rht/Removal.antt =====
-- Removals of rht.go: by creation time they reach the node that the key leads to, and by key they
-- stop the program.
use Prim.Native.String.{String}
use rotty.Prelude.{
  ◌↔◌, not, ◌<◌, suc, zero, ℕ, List, get_elem?, refl, sym, ◌∙◌, ◌≡◌, true, none, some, Ord, [], ◌∷◌,
  ◌++◌, length, length-append, get_elem?-append_end, get_elem?-set_self, arith, Option-cases, inl,
  inr,
}
use rotty.Prelude.Assoc.{string_keyed, ord_keyed, lookup, lookup-insert_self}
use rotty.Rht.Lookup.{IsStored}
use rotty.Rht.{
  has, find, is_removed, remove_at, after_pointer, Node, Rht, new_node, get, after, remove_node,
  put_node, set_value, remove, remove_by_created_at,
}

get_elem?-none : {A : Type 0} (xs : List A) (i : ℕ) → i < length xs → get_elem? xs i ≡ none → ⊥
get_elem?-none [] i l h = omega arith
get_elem?-none (x ∷ xs) zero l h = cc
get_elem?-none (x ∷ xs) (suc i) l h = get_elem?-none xs i (omega arith) h

module _ {T : Type 0} ⦃o : Ord T⦄ where
  remove_at_panics :
      (rht : Rht T) (i : ℕ) (t : T) (n : Node T)
      → get_elem? rht.store i ≡ some n
      → (remove_at rht i t ≡ none) ↔ (not (is_removed n) ≡ true)
  unfolding remove_at after_pointer
  remove_at_panics rht i t n h = elim (Option-cases n.removed_at) [
    | inl e ↦ (λ _. rw e refl, λ _. rw (h, e) refl)
    | inr (r, e) ↦ (λ p. ground arith, λ p. ground arith)
  ]

  at_place :
      (rht : Rht T) (k : String) (t : T) (i : ℕ) (n : Node T)
      → lookup k rht.by_key ≡ some i
      → get_elem? rht.store i ≡ some n
      → (has rht k ≡ not (is_removed n)) × (remove rht k t ≡ remove_at rht i t)
  unfolding remove has find
  at_place rht k t i n e g = (rw (e, g, has) refl, rw (e, remove) refl)

  -- On a table whose map of keys points into its nodes, `Remove` panics on exactly the keys for
  -- which `Has` is true: it compares with the nil time of the removal that has not happened.
  pub remove_panics-has :
      (rht : Rht T) (k : String) (t : T)
      → IsStored rht
      → (remove rht k t ≡ none) ↔ (has rht k ≡ true)
  unfolding remove has find
  remove_panics-has rht k t s = elim (Option-cases (lookup k rht.by_key)) [
    | inl e ↦ (λ p. ground arith, λ p. ground arith)
    | inr (i, e) ↦ elim (Option-cases (get_elem? rht.store i)) [
      | inl g ↦ absurd (get_elem?-none rht.store i (s.places k i e) g)
      | inr (n, g) ↦
          (let (to, from) = remove_at_panics rht i t n g in
            let (held, run) = at_place rht k t i n e g in
            (λ p. held ∙ to (sym run ∙ p), λ p. run ∙ from (sym held ∙ p)))
    ]
  ]

  -- The set at time `t` is the latest of its key.
  abbrev pub Wins : Rht T → String → T → Type 0
  Wins rht k t = (n : Node T) → find rht k ≡ some n → after t n.updated_at ≡ true

  set_value-Wins :
      (rht : Rht T) (k v : String) (t : T) → Wins rht k t → set_value rht k v t ≡ put_node rht k v t
  unfolding set_value
  set_value-Wins rht k v t w = elim (Option-cases (find rht k)) [
    | inl e ↦ rw (e, set_value)
    | inr (n, e) ↦ rw (e, set_value) (rw (w n e))
  ]

  -- After a set that is the latest of its key, the key has the value; a removal by the set's time
  -- returns that value and leaves the key empty, though it goes by the other map.
  pub remove_by_created_at-set_value :
      (rht : Rht T) (k v : String) (t u : T)
      → Wins rht k t
      → let r = set_value rht k v t in
        (get r k ≡ v)
        × ((remove_by_created_at r t u).1 ≡ v)
        × (get (remove_by_created_at r t u).0 k ≡ "")
  unfolding get find remove_by_created_at put_node
  remove_by_created_at-set_value rht k v t u w =
      let n = new_node k v t in
      let i = length rht.store in
      let store = rht.store ++ n ∷ [] in
      let by_key = lookup-insert_self k i rht.by_key in
      let by_time = lookup-insert_self ⦃e = ord_keyed⦄ t i rht.by_created_at in
      let at_end = get_elem?-append_end rht.store n in
      let marked =
        get_elem?-set_self store i (remove_node n u)
          (omega (arith, length-append rht.store (n ∷ []))) in
      rw (set_value-Wins rht k v t w) (
        ground (arith, by_key, at_end),
        ground (arith, by_time, at_end),
        ground (arith, by_key, by_time, at_end, marked),
      )
