-- ===== src/Pq/Release.antt =====
-- `Release` of priority_queue.go, which looks for a value and takes it out.
use mathlib.Core.List.{Perm}
use rotty.Prelude.{
  ℕ, zero, suc, ◌≡◌, ◌≢◌, ◌<◌, refl, ap, ◌∙◌, true, none, some, List, [], ◌∷◌, arith, length,
  get_elem?, inl, inr, ◌⊎◌, Bool-cases, Option-cases, subst,
}
use rotty.Prelude.Assoc.{Keyed, same_refl}
use rotty.Pq.{Value, remove, index_of, release, pop_last, peek}
use rotty.Pq.Order.{IsOrderly}
use rotty.Pq.Queue.{IsQueue, remove-Taken}

module _ {V : Type 0} ⦃e : Keyed V⦄ where
  index_of-some :
      (q : List V) (x : V) (i : ℕ)
      → index_of x q ≡ some i
      → (get_elem? q i ≡ some x) × (i < length q)
  unfolding index_of
  index_of-some [] x i h = absurd (ground (arith, h))
  index_of-some (y ∷ q) x i h = elim (Bool-cases (e.same y x)) [
    | inl eq ↦
        (let at : i ≡ 0 = ground (arith, eq, h) in
          (ap (get_elem? (y ∷ q)) at ∙ ap some ((e.same_iff y x).0 eq), omega (arith, at)))
    | inr ne ↦ elim (Option-cases (index_of x q)) [
      | inl n ↦ absurd (ground (arith, ne, n, h))
      | inr (k, found) ↦
          (let at : i ≡ suc k = ground (arith, ne, found, h) in
            let (here, lt) = index_of-some q x k found in
            (ap (get_elem? (y ∷ q)) at ∙ here, omega (arith, at, lt)))
    ]
  ]

  index_of-none : (q : List V) (x : V) (k : ℕ) → index_of x q ≡ none → get_elem? q k ≢ some x
  unfolding index_of
  index_of-none [] x k h found = ground (arith, found)
  index_of-none (y ∷ q) x zero h found =
      let same : e.same y x ≡ true = (e.same_iff y x).1 (ground (arith, found)) in
      ground (arith, same, h)
  index_of-none (y ∷ q) x (suc k) h found = elim (Option-cases (index_of x q)) [
    | inl n ↦ index_of-none q x k n found
    | inr (i, s) ↦ ground (arith, s, h, Bool-cases (e.same y x))
  ]

module _ {V : Type 0} ⦃v : Value V⦄ ⦃e : Keyed V⦄ where
  pub record Released (q : List V) (x : V) : Type 0 where
    pub queue : List V
    pub releases : release q x ≡ some queue
    pub heap : IsQueue queue
    pub values : Perm q (x ∷ queue) ⊎ ((queue ≡ q) × ((k : ℕ) → get_elem? q k ≢ some x))

  -- `Release` ends and keeps a heap: the value is taken out, or nothing changes as it is not there.
  pub release-Released : IsOrderly v → (q : List V) (x : V) → IsQueue q → Released q x
  unfolding release
  release-Released laws q x h = elim (Option-cases (index_of x q)) [
    | inl n ↦ record {
      queue = q;
      releases = rw (n, release) refl;
      heap = h;
      values = inr (refl, λ k. index_of-none q x k n);
    }
    | inr (i, found) ↦
        (let (here, lt) = index_of-some q x i found in
          let t = remove-Taken laws q i h lt in
          let same : t.value ≡ x = ground (arith, t.was, here) in
          record {
            queue = t.queue;
            releases = rw (found, t.takes, release) refl;
            heap = t.heap;
            values = inl (subst (λ y. Perm q (y ∷ t.queue)) same t.values);
          })
  ]

  pub release_only : (x : V) → release (x ∷ []) x ≡ some []
  unfolding release index_of remove pop_last
  release_only x = rw (release, index_of, same_refl x) refl

pub peek-nil : {V : Type 0} → peek {V = V} [] ≡ none
unfolding peek
peek-nil = refl
