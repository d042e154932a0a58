-- ===== src/Pq/Swap.antt =====
-- What `Swap` of priority_queue.go does to the slice.
use mathlib.Core.List.{Perm}
use mathlib.Core.List.Perm.{swap as perm_swap, trans as perm_trans, cons as perm_cons, cons_inv}
use rotty.Prelude.{
  ℕ, zero, suc, ◌≡◌, ◌<◌, refl, ◌∙◌, some, List, [], ◌∷◌, arith, length, get_elem?, set, ◌==◌,
  if◌then◌else◌, length-set, get_elem?-some,
}
use rotty.Pq.{swap}

module _ {V : Type 0} where
  get_elem?-set :
      (q : List V) (i k : ℕ) (x : V)
      → i < length q
      → get_elem? (set q i x) k ≡ (if k == i then some x else get_elem? q k)
  get_elem?-set [] i k x h = absurd (omega arith)
  get_elem?-set (y ∷ q) zero zero x h = refl
  get_elem?-set (y ∷ q) zero (suc k) x h = ground arith
  get_elem?-set (y ∷ q) (suc i) zero x h = ground arith
  get_elem?-set (y ∷ q) (suc i) (suc k) x h = ground (arith, get_elem?-set q i k x)

  -- Putting a value into the list takes another one out.
  set-perm : (q : List V) (i : ℕ) (x y : V) → get_elem? q i ≡ some x → Perm (y ∷ q) (x ∷ set q i y)
  set-perm [] i x y h = absurd (ground arith)
  set-perm (z ∷ q) zero x y h = let e : z ≡ x = ground (arith, h) in rw e (perm_swap x y q)
  set-perm (z ∷ q) (suc i) x y h =
      perm_trans (perm_swap z y q)
        (perm_trans (perm_cons z (set-perm q i x y h)) (perm_swap x z (set q i y)))

  -- A swap within the slice.
  pub record Swapped (q : List V) (i j : ℕ) : Type 0 where
    pub result : List V
    pub swaps : swap q i j ≡ some result
    pub same_length : length result ≡ length q
    pub same_values : Perm q result
    pub gets :
        (k : ℕ)
        → get_elem? result k
          ≡ (if k == j then get_elem? q i else if k == i then get_elem? q j else get_elem? q k)

  pub swap_lem : (q : List V) (i j : ℕ) → i < length q → j < length q → Swapped q i j
  unfolding swap
  swap_lem q i j hi hj =
      let (x, ex) = get_elem?-some q i hi in
      let (y, ey) = get_elem?-some q j hj in
      let short : j < length (set q i y) = omega (arith, length-set q i y, hj) in
      let there : get_elem? (set q i y) j ≡ some y = ground (arith, get_elem?-set q i j y hi, ey) in
      record {
        result = set (set q i y) j x;
        swaps = rw (ex, ey, swap) refl;
        same_length = length-set (set q i y) j x ∙ length-set q i y;
        same_values =
            cons_inv (perm_trans (set-perm q i x y ex) (set-perm (set q i y) j y x there));
        gets = λ k.
            ground (arith, get_elem?-set (set q i y) j k x short, get_elem?-set q i k y hi, ex, ey);
      }
