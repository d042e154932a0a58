-- ===== src/Pq/Members.antt =====
-- The values of a queue without their places: what `Peek` shows after `Push`.
use mathlib.Core.List.{Mem, Memᴰ, not-mem-nil, mem-cons_self, mem-cons_of_mem}
use mathlib.Core.List.Memᴰ
use mathlib.Core.List.Perm.{mem_iff}
use mathlib.Core.Logic.{∥∥₁_elim}
use mathlib.Core.Bool.{Bool-set}
use rotty.Prelude.{ℕ, suc, ◌≡◌, refl, sym, ap, false, some, List, [], ◌∷◌, arith, get_elem?, subst}
use rotty.Pq.{Value, peek}
use rotty.Pq.Order.{IsOrderly}
use rotty.Pq.Queue.{IsQueue, Pushed}
use rotty.Pq.Top.{peek-IsTop}

module _ {V : Type 0} where
  place_of : (q : List V) (x : V) → Memᴰ x q → (k : ℕ) × (get_elem? q k ≡ some x)
  place_of [] x d = absurd (Memᴰ.not-nil d)
  place_of (y ∷ q) x (Memᴰ.head e) = (0, ap some (sym e))
  place_of (y ∷ q) x (Memᴰ.tail d) = let (k, at) = place_of q x d in (suc k, at)

  pub peek-Mem : (q : List V) (x : V) → peek q ≡ some x → Mem x q
  unfolding peek
  peek-Mem [] x h = absurd (ground (arith, h))
  peek-Mem (y ∷ q) x h =
      let e : y ≡ x = ground (arith, h) in subst (λ z. Mem z (y ∷ q)) e mem-cons_self

  pub peek-some : (q : List V) (x : V) → Mem x q → (y : V) × (peek q ≡ some y)
  unfolding peek
  peek-some [] x h = absurd (not-mem-nil h)
  peek-some (y ∷ q) x h = (y, refl)

module _ {V : Type 0} ⦃v : Value V⦄ where
  pub less-Mem :
      IsOrderly v
      → (q : List V) (x y : V) → IsQueue q
      → peek q ≡ some x
      → Mem y q
      → v.less y x ≡ false
  less-Mem laws q x y h top m =
      ∥∥₁_elim m (Bool-set _ _)
        (λ d. let (k, at) = place_of q y d in peek-IsTop laws q x y k h top at)

  -- What `Peek` shows after `Push`: one of the values, of which none is to be popped before it.
  pub record TopOf (q : List V) (x : V) (queue : List V) : Type 0 where
    pub top : V
    pub shown : peek queue ≡ some top
    pub member : Mem top (x ∷ q)
    pub above_new : v.less x top ≡ false
    pub above_old : (y : V) → Mem y q → v.less y top ≡ false

  pub pushed-TopOf : IsOrderly v → (q : List V) (x : V) (p : Pushed q x) → TopOf q x p.queue
  pushed-TopOf laws q x p =
      let (top, shown) = peek-some p.queue x ((mem_iff p.values).0 mem-cons_self) in
      record {
        top = top;
        shown = shown;
        member = (mem_iff p.values).1 (peek-Mem p.queue top shown);
        above_new = less-Mem laws p.queue top x p.heap shown ((mem_iff p.values).0 mem-cons_self);
        above_old = λ y m.
            less-Mem laws p.queue top y p.heap shown ((mem_iff p.values).0 (mem-cons_of_mem x m));
      }
