-- ===== src/Rht/Convergence.antt =====
-- Replicas that have set the same attributes agree on them, in whatever order the sets arrived.
use Prim.Native.String.{String}
use mathlib.Core.List.{Perm}
use rotty.Prelude.{
  ◌≡◌, refl, ap, sym, ◌∙◌, fun_ext, Option, none, some, Ord, List, [], ◌∷◌, if◌then◌else◌, arith,
  fold_left, fold_left-perm,
}
use rotty.Prelude.Assoc.{string_keyed, Ord-set, Keyed-set}
use rotty.Rht.{Node, Rht, new_rht, find, get, has, set_value}
use rotty.Rht.Lookup.{IsStored, IsStored-new, write, set_value-IsStored, find-set_value}

-- The sets of a history; `value k t` is the value that the set of key `k` at time `t` writes, so one
-- time writes one value to a key.
module _ {T : Type 0} ⦃o : Ord T⦄ (value : String → T → String) where
  abbrev pub set_op : Rht T → String × T → Rht T
  set_op rht op = set_value rht op.0 (value op.0 op.1) op.1

  abbrev Registers : Type 0
  Registers = String → Option (Node T)

  write_op : Registers → String × T → Registers
  write_op r op j =
      if string_keyed.same op.0 j then write (r j) op.0 (value op.0 op.1) op.1 else r j

  write_swap :
      (n : Option (Node T)) (k : String) (s t : T)
      → write (write n k (value k s) s) k (value k t) t
        ≡ write (write n k (value k t) t) k (value k s) s
  unfolding write
  write_swap none k s t = ground (arith, o.cmp_eq s t, o.cmp_flip s t)
  write_swap (some n) k s t = ground (
    arith,
    o.cmp_eq s t,
    o.cmp_flip s t,
    o.cmp_eq n.updated_at s,
    o.cmp_flip n.updated_at s,
    o.cmp_flip n.updated_at t,
    o.cmp_eq n.updated_at t,
    o.cmp_trans n.updated_at s t,
    o.cmp_trans n.updated_at t s,
    o.cmp_trans s n.updated_at t,
    o.cmp_trans t n.updated_at s,
  )

  write_op_swap :
      (r : Registers) (x y : String × T) → write_op (write_op r x) y ≡ write_op (write_op r y) x
  unfolding write_op
  write_op_swap r x y = fun_ext λ j.
      ground (
        arith,
        string_keyed.same_iff x.0 j,
        string_keyed.same_iff y.0 j,
        write_swap (r j) j x.1 y.1,
      )

  find-fold_left :
      (rht : Rht T) (ops : List (String × T))
      → IsStored rht
      → find (fold_left set_op rht ops) ≡ fold_left write_op (find rht) ops
  find-fold_left rht [] s = refl
  find-fold_left rht (op ∷ ops) s =
      find-fold_left (set_op rht op) ops (set_value-IsStored rht op.0 (value op.0 op.1) op.1 s)
      ∙ ap (λ r. fold_left write_op r ops)
          (fun_ext λ j. unfold write_op in find-set_value rht op.0 (value op.0 op.1) op.1 j s)

  String-set : IsSet String
  String-set = Keyed-set

  Node-set : IsSet (Node T)
  Node-set = hlevel (String-set, Ord-set)

  Registers-set : IsSet Registers
  Registers-set = hlevel Node-set

  -- Two replicas that started empty and have run the same sets, each in its own order, give the
  -- same answer to `Get` and to `Has` for every key, when a set's key and time determine its
  -- value.
  pub get-perm :
      {xs ys : List (String × T)}
      → Perm xs ys
      → (k : String)
      → let a = fold_left set_op new_rht xs in
        let b = fold_left set_op new_rht ys in (get a k ≡ get b k) × (has a k ≡ has b k)
  unfolding get has
  get-perm {xs} {ys} p k =
      let e =
        ap (λ (r : Registers). r k)
          (find-fold_left new_rht xs IsStored-new
            ∙ fold_left-perm write_op write_op_swap Registers-set p (find new_rht)
            ∙ sym (find-fold_left new_rht ys IsStored-new)) in
      (rw (e, get), rw (e, has))
