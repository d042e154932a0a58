-- ===== src/RhtPq/Convergence.antt =====
-- Replicas that have run the same sets agree on the members created last, whatever the order.
use Prim.Native.String.{String}
use mathlib.Core.List.{Perm}
use rotty.Prelude.{
  ◌≡◌, refl, ap, sym, ◌∙◌, fun_ext, Option, none, some, ◌>>=◌, Ord, List, [], ◌∷◌, if◌then◌else◌,
  arith, fold_left, fold_left-perm,
}
use rotty.Prelude.Assoc.{string_keyed, Ord-set}
use rotty.Element.{Elem}
use rotty.RhtPq.{RhtPqMap, new_map, set_value}
use rotty.RhtPq.Entries.{IsMap, IsMap-new}
use rotty.RhtPq.Latest.{latest, later, set_value-SetTo}

abbrev Latest : Type 0 → Type 0
Latest T = String → Option T

module _ {T : Type 0} ⦃o : Ord T⦄ where
  later_swap : (t : Option T) (r s : T) → later (some (later t r)) s ≡ later (some (later t s)) r
  later_swap none r s = ground (arith, o.cmp_eq r s, o.cmp_flip r s)
  later_swap (some t) r s = ground (
    arith,
    o.cmp_eq r s,
    o.cmp_flip r s,
    o.cmp_eq t r,
    o.cmp_eq t s,
    o.cmp_flip t r,
    o.cmp_flip t s,
    o.cmp_trans t r s,
    o.cmp_trans t s r,
    o.cmp_trans r t s,
    o.cmp_trans s t r,
    o.cmp_trans r s t,
    o.cmp_trans s r t,
  )

  Latest-set : IsSet (Latest T)
  Latest-set = hlevel Ord-set

module _ {T C : Type 0} ⦃o : Ord T⦄ where
  -- The sets of a history, one after the other.
  unfoldable pub run_sets : RhtPqMap T C → List (String × Elem T C) → Option (RhtPqMap T C)
  run_sets m [] = some m
  run_sets m ((key, v) ∷ ops) = do (m', removed) ← set_value m key v; run_sets m' ops

  note : Latest T → String × Elem T C → Latest T
  note l op key =
      if string_keyed.same op.0 key then some (later (l op.0) op.1.created_at) else l key

  note_swap : (l : Latest T) (x y : String × Elem T C) → note (note l x) y ≡ note (note l y) x
  unfolding note
  note_swap l x y = fun_ext λ k. ground (
    arith,
    string_keyed.same_iff x.0 k,
    string_keyed.same_iff y.0 k,
    string_keyed.same_iff x.0 y.0,
    string_keyed.same_iff y.0 x.0,
    later_swap (l k) x.1.created_at y.1.created_at,
  )

  record Outcome (m : RhtPqMap T C) (ops : List (String × Elem T C)) : Type 0 where
    result : RhtPqMap T C
    runs : run_sets m ops ≡ some result
    is_map : IsMap result
    shows : latest result ≡ fold_left note (latest m) ops

  run_sets-Outcome : (m : RhtPqMap T C) (ops : List (String × Elem T C)) → IsMap m → Outcome m ops
  unfolding run_sets
  run_sets-Outcome m [] s = record { result = m; runs = refl; is_map = s; shows = refl }
  run_sets-Outcome m ((key, v) ∷ ops) s =
      let to = set_value-SetTo m key v s in
      let rest = run_sets-Outcome to.result ops to.is_map in
      record {
        result = rest.result;
        runs = ground (arith, to.sets, rest.runs);
        is_map = rest.is_map;
        shows =
            rest.shows
            ∙ ap (λ (l : Latest T). fold_left note l ops) (fun_ext λ j. unfold note in to.shows j);
      }

  -- Two replicas that started empty run the same sets, each in its own order, to the end. Afterwards
  -- the newest member of every key was created at the same time on both.
  pub latest-perm :
      (xs ys : List (String × Elem T C))
      → Perm xs ys
      → (a : RhtPqMap T C) × (b : RhtPqMap T C) × (run_sets new_map xs ≡ some a)
        × (run_sets new_map ys ≡ some b)
        × ((key : String) → latest a key ≡ latest b key)
  latest-perm xs ys p =
      let a = run_sets-Outcome new_map xs IsMap-new in
      let b = run_sets-Outcome new_map ys IsMap-new in
      let same =
        a.shows
        ∙ fold_left-perm note note_swap Latest-set p (latest (new_map {T = T} {C = C}))
        ∙ sym b.shows in
      (a.result, b.result, a.runs, b.runs, λ key. ap (λ (l : Latest T). l key) same)
