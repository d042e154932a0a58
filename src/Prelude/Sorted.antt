-- ===== src/Prelude/Sorted.antt =====
-- Association lists in the order of their keys: what a search tree stands for.
use mathlib.Core.Path.{◌≡◌, refl, sym, subst, ap}
use mathlib.Core.List.{List, [], ◌∷◌, ◌++◌}
use mathlib.Core.Option.{Option, none, some}
use native.Mathlib.Omega.{arith}
use Prim.Native.Nat.Ordering.{lt, eq, gt}
use mathlib.Core.Logic.{◌≢◌, inl, inr}
use rotty.Prelude.Tests.{Option-cases}
use rotty.Prelude.Order.{Ord, ◌≺◌}
use rotty.Prelude.Lists.{All, All-append, All-append_left, All-append_right, All-imp}

module _ {ℓ κ} {K : Type ℓ} {V : Type κ} ⦃o : Ord K⦄ where
  abbrev pub KeysBelow : K → List (K × V) → Type 0
  KeysBelow b = All (λ e. e.0 ≺ b)

  abbrev pub KeysAbove : K → List (K × V) → Type 0
  KeysAbove b = All (λ e. b ≺ e.0)

  abbrev pub IsSorted : List (K × V) → Type 0
  IsSorted [] = Unit
  IsSorted ((k, v) ∷ xs) = KeysAbove k xs × IsSorted xs

  unfoldable pub insert_sorted : K → V → List (K × V) → List (K × V)
  insert_sorted q w [] = (q, w) ∷ []
  insert_sorted q w ((k, v) ∷ xs) = elim (o.cmp q k) [
    | lt ↦ (q, w) ∷ (k, v) ∷ xs
    | eq ↦ (k, w) ∷ xs
    | gt ↦ (k, v) ∷ insert_sorted q w xs
  ]

  -- The last entry whose key is not above `q`.
  unfoldable pub last_le : K → List (K × V) → Option (K × V)
  last_le q [] = none
  last_le q ((k, v) ∷ xs) = elim (last_le q xs) [
    | some e ↦ some e
    | none ↦ elim (o.cmp q k) [ lt ↦ none | _ ↦ some (k, v) ]
  ]

  -- What stands left and right of an entry of a sorted list.
  pub IsSorted-middle :
      (xs : List (K × V)) (k : K) (v : V) (ys : List (K × V))
      → IsSorted (xs ++ (k, v) ∷ ys)
      → IsSorted xs × KeysBelow k xs × KeysAbove k ys × IsSorted ys
  IsSorted-middle [] k v ys s = (tt, tt, s.0, s.1)
  IsSorted-middle ((x, w) ∷ xs) k v ys s =
      let (sx, bx, ay, sy) = IsSorted-middle xs k v ys s.1 in
      (
        (All-append_left (λ e. x ≺ e.0) xs ((k, v) ∷ ys) s.0, sx),
        ((All-append_right (λ e. x ≺ e.0) xs ((k, v) ∷ ys) s.0).0, bx),
        ay,
        sy,
      )

  KeysAbove-trans : (a b : K) (xs : List (K × V)) → a ≺ b → KeysAbove b xs → KeysAbove a xs
  KeysAbove-trans a b xs h = All-imp (λ e k. o.cmp_trans a b e.0 h k) xs

  pub IsSorted-join :
      (xs : List (K × V)) (k : K) (v : V) (ys : List (K × V))
      → IsSorted xs
      → KeysBelow k xs
      → KeysAbove k ys
      → IsSorted ys
      → IsSorted (xs ++ (k, v) ∷ ys)
  IsSorted-join [] k v ys sx bx ay sy = (ay, sy)
  IsSorted-join ((x, w) ∷ xs) k v ys sx bx ay sy = (
    All-append (λ e. x ≺ e.0) xs ((k, v) ∷ ys) sx.0 (bx.0, KeysAbove-trans x k ys bx.0 ay),
    IsSorted-join xs k v ys sx.1 bx.1 ay sy,
  )

  pub insert_sorted-left :
      (q : K) (w : V) (xs : List (K × V)) (k : K) (v : V) (ys : List (K × V))
      → q ≺ k
      → insert_sorted q w (xs ++ (k, v) ∷ ys) ≡ insert_sorted q w xs ++ (k, v) ∷ ys
  unfolding insert_sorted
  insert_sorted-left q w [] k v ys h = rw (h, insert_sorted) refl
  insert_sorted-left q w ((x, u) ∷ xs) k v ys h = ground (arith, insert_sorted-left q w xs k v ys h)

  pub insert_sorted-right :
      (q : K) (w : V) (xs : List (K × V)) (k : K) (v : V) (ys : List (K × V))
      → KeysBelow k xs
      → k ≺ q
      → insert_sorted q w (xs ++ (k, v) ∷ ys) ≡ xs ++ (k, v) ∷ insert_sorted q w ys
  unfolding insert_sorted
  insert_sorted-right q w [] k v ys b h = ground (arith, o.cmp_flip k q)
  insert_sorted-right q w ((x, u) ∷ xs) k v ys b h =
      ground
        (arith, insert_sorted-right q w xs k v ys b.1 h, o.cmp_trans x k q b.0 h, o.cmp_flip x q)

  pub insert_sorted-here :
      (q : K) (w : V) (xs : List (K × V)) (k : K) (v : V) (ys : List (K × V))
      → KeysBelow k xs
      → o.cmp q k ≡ eq
      → insert_sorted q w (xs ++ (k, v) ∷ ys) ≡ xs ++ (k, w) ∷ ys
  unfolding insert_sorted
  insert_sorted-here q w [] k v ys b h = ground arith
  insert_sorted-here q w ((x, u) ∷ xs) k v ys b h =
      ground (arith, insert_sorted-here q w xs k v ys b.1 h, o.cmp_eq q k h, o.cmp_flip x k)

  insert_sorted-KeysAbove :
      (b q : K) (w : V) (xs : List (K × V))
      → b ≺ q
      → KeysAbove b xs
      → KeysAbove b (insert_sorted q w xs)
  unfolding insert_sorted
  insert_sorted-KeysAbove b q w [] h a = (h, tt)
  insert_sorted-KeysAbove b q w ((k, v) ∷ xs) h a =
      ground (arith, insert_sorted-KeysAbove b q w xs h)

  pub insert_sorted-IsSorted :
      (q : K) (w : V) (xs : List (K × V)) → IsSorted xs → IsSorted (insert_sorted q w xs)
  unfolding insert_sorted
  insert_sorted-IsSorted q w [] s = (tt, tt)
  insert_sorted-IsSorted q w ((k, v) ∷ xs) s = ground (
    arith,
    insert_sorted-IsSorted q w xs,
    insert_sorted-KeysAbove k q w xs,
    KeysAbove-trans q k xs,
    o.cmp_flip q k,
  )

  last_le-KeysAbove : (q : K) (xs : List (K × V)) → KeysAbove q xs → last_le q xs ≡ none
  unfolding last_le
  last_le-KeysAbove q [] a = refl
  last_le-KeysAbove q ((x, v) ∷ xs) a = ground (arith, last_le-KeysAbove q xs a.1)

  -- To the left of a key above `q`, nothing changes.
  pub last_le-left :
      (q : K) (xs : List (K × V)) (k : K) (v : V) (ys : List (K × V))
      → q ≺ k
      → KeysAbove k ys
      → last_le q (xs ++ (k, v) ∷ ys) ≡ last_le q xs
  unfolding last_le
  last_le-left q [] k v ys h a =
      rw (last_le-KeysAbove q ys (KeysAbove-trans q k ys h a), last_le) (rw (h, last_le) refl)
  last_le-left q ((x, u) ∷ xs) k v ys h a = rw (last_le-left q xs k v ys h a, last_le) refl

  abbrev pub or_entry : Option (K × V) → K × V → Option (K × V)
  or_entry none e = some e
  or_entry (some e') e = some e'

  -- Behind a key that is not above `q` the search goes on, with that entry in hand.
  pub last_le-right :
      (q : K) (xs : List (K × V)) (k : K) (v : V) (ys : List (K × V))
      → (o.cmp q k ≡ gt)
      → last_le q (xs ++ (k, v) ∷ ys) ≡ or_entry (last_le q ys) (k, v)
  unfolding last_le
  last_le-right q [] k v ys h = ground arith
  last_le-right q ((x, u) ∷ xs) k v ys h = ground (arith, last_le-right q xs k v ys h)

  pub last_le-here :
      (q : K) (xs : List (K × V)) (k : K) (v : V) (ys : List (K × V))
      → (o.cmp q k ≡ eq)
      → KeysAbove k ys
      → last_le q (xs ++ (k, v) ∷ ys) ≡ some (k, v)
  unfolding last_le
  last_le-here q [] k v ys h a =
      ground (arith, last_le-KeysAbove q ys (subst (λ z. KeysAbove z ys) (sym (o.cmp_eq q k h)) a))
  last_le-here q ((x, u) ∷ xs) k v ys h a = ground (arith, last_le-here q xs k v ys h a)

  pub last_le-none : (q : K) (xs : List (K × V)) → last_le q xs ≡ none → KeysAbove q xs
  unfolding last_le
  last_le-none q [] h = tt
  last_le-none q ((k, v) ∷ xs) h = ground (arith, last_le-none q xs)

  -- Where the entry stands that `last_le` finds: every key behind it is above `q`.
  pub last_le-some :
      (q : K) (xs : List (K × V)) (e : K × V)
      → last_le q xs ≡ some e
      → (before after : List (K × V)) × (xs ≡ before ++ e ∷ after)
        × (o.cmp q e.0 ≢ lt)
        × KeysAbove q after
  unfolding last_le
  last_le-some q [] e h = absurd (ground arith)
  last_le-some q ((k, v) ∷ xs) e h = elim (Option-cases (last_le q xs)) [
    | inr (e', p) ↦
        (let (before, after, eq', le, above) = last_le-some q xs e' p in
          let same : e' ≡ e = ground (arith, p) in
          ((k, v) ∷ before, after, rw (← same) (ap (◌∷◌ (k, v)) eq'), rw (← same) le, above))
    | inl p ↦ ([], xs, ground (arith, p), ground (arith, p), last_le-none q xs p)
  ]
