-- ===== src/Prelude/Assoc.antt =====
-- Maps as association lists, over keys that can be told apart. A write replaces the entry of its key.
use Prim.Native.String.{String}
use Prim.Native.Nat.Ordering.{eq}
use Prim.Native.Nat.{Ordering}
use mathlib.Core.Path.{◌≡◌, refl, sym, ◌∙◌}
use mathlib.Core.Logic.{◌↔◌, ◌≢◌, inl, inr}
use mathlib.Core.Bool.{Bool, true, false, false≢true}
use mathlib.Core.List.{List, [], ◌∷◌}
use mathlib.Core.Option.{Option, none, some}
use mathlib.Core.HLevel.{hedberg}
use native.Mathlib.Omega.{arith}
use text.Mathlib.Text.{◌==◌ as str_eq}
use text.Mathlib.TextEquality.{eq_iff}
use rotty.Prelude.Tests.{if◌then◌else◌, Bool-cases}
use rotty.Prelude.Order.{Ord}

pub record Keyed {ℓ} (K : Type ℓ) : Type ℓ where
  pub same : K → K → Bool
  pub same_iff : (a b : K) → (same a b ≡ true) ↔ (a ≡ b)

pub same_refl {ℓ} : {K : Type ℓ} ⦃e : Keyed K⦄ (k : K) → e.same k k ≡ true
same_refl ⦃e⦄ k = (e.same_iff k k).1 refl

pub same-false {ℓ} : {K : Type ℓ} ⦃e : Keyed K⦄ (a b : K) → a ≢ b → e.same a b ≡ false
same-false ⦃e⦄ a b n = elim (Bool-cases (e.same a b)) [
  | inl h ↦ absurd (n ((e.same_iff a b).0 h))
  | inr h ↦ h
]

Keyed-discrete {ℓ} : {K : Type ℓ} ⦃e : Keyed K⦄ → Discrete K
Keyed-discrete ⦃e⦄ a b = elim (Bool-cases (e.same a b)) [
  | inl h ↦ yes ((e.same_iff a b).0 h)
  | inr h ↦ no (λ p. false≢true (sym h ∙ (e.same_iff a b).1 p))
]

pub Keyed-set {ℓ} : {K : Type ℓ} ⦃e : Keyed K⦄ → IsSet K
Keyed-set ⦃e⦄ = hedberg (Keyed-discrete ⦃e = e⦄)

instance abbrev pub string_keyed : Keyed String
string_keyed = record { same = str_eq; same_iff = eq_iff }

abbrev pub is_eq : Ordering → Bool
is_eq eq = true
is_eq _ = false

is_eq_iff : (c : Ordering) → (is_eq c ≡ true) ↔ (c ≡ eq)
is_eq_iff c = (λ h. ground arith, λ h. ground arith)

module _ {ℓ} {K : Type ℓ} ⦃o : Ord K⦄ where
  pub cmp_is_eq_iff : (a b : K) → (is_eq (o.cmp a b) ≡ true) ↔ (a ≡ b)
  cmp_is_eq_iff a b = (λ h. o.cmp_eq a b ((is_eq_iff _).0 h), λ h. rw (← h) (rw (o.cmp_refl a)))

  -- Keys that are ordered are told apart by their order.
  abbrev pub ord_keyed : Keyed K
  ord_keyed = record { same = λ a b. is_eq (o.cmp a b); same_iff = cmp_is_eq_iff }

  pub Ord-set : IsSet K
  Ord-set = Keyed-set ⦃e = ord_keyed⦄

module _ {ℓ κ} {Key : Type ℓ} {Val : Type κ} ⦃e : Keyed Key⦄ where
  unfoldable pub delete : Key → List (Key × Val) → List (Key × Val)
  delete key [] = []
  delete key (entry ∷ rest) =
      let kept = delete key rest in if e.same entry.0 key then kept else entry ∷ kept

  -- A key has one entry, and a write keeps its place.
  unfoldable pub insert : Key → Val → List (Key × Val) → List (Key × Val)
  insert key new [] = (key, new) ∷ []
  insert key new (entry ∷ rest) =
      let kept = insert key new rest in
      if e.same entry.0 key then (key, new) ∷ rest else entry ∷ kept

  unfoldable pub lookup : Key → List (Key × Val) → Option Val
  lookup key [] = none
  lookup key (entry ∷ rest) =
      let further = lookup key rest in if e.same entry.0 key then some entry.1 else further

  pub lookup-delete :
      (key q : Key) (entries : List (Key × Val))
      → lookup q (delete key entries) ≡ (if e.same key q then none else lookup q entries)
  unfolding lookup delete
  lookup-delete key q [] = ground arith
  lookup-delete key q (entry ∷ rest) = ground (
    arith,
    lookup-delete key q rest,
    e.same_iff key q,
    e.same_iff entry.0 key,
    e.same_iff entry.0 q,
  )

  pub lookup-insert :
      (key q : Key) (new : Val) (entries : List (Key × Val))
      → lookup q (insert key new entries) ≡ (if e.same key q then some new else lookup q entries)
  unfolding lookup insert
  lookup-insert key q new [] = refl
  lookup-insert key q new (entry ∷ rest) = ground (
    arith,
    lookup-insert key q new rest,
    e.same_iff key q,
    e.same_iff entry.0 key,
    e.same_iff entry.0 q,
  )

  pub lookup-insert_self :
      (key : Key) (new : Val) (entries : List (Key × Val))
      → lookup key (insert key new entries) ≡ some new
  lookup-insert_self key new entries = rw lookup-insert (rw (same_refl key))

  pub lookup-insert_other :
      (key q : Key) (new : Val) (entries : List (Key × Val))
      → key ≢ q
      → lookup q (insert key new entries) ≡ lookup q entries
  lookup-insert_other key q new entries n = rw lookup-insert (rw (same-false key q n))
