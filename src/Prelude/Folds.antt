-- ===== src/Prelude/Folds.antt =====
-- A fold whose steps commute does not see the order of its list.
use mathlib.Core.Path.{◌≡◌, refl, ap, ◌∙◌}
use mathlib.Core.List.{List, [], ◌∷◌, Perm, Permᴰ}
use mathlib.Core.Logic.{∥∥₁_elim}

module _ {ℓ κ} {A : Type ℓ} {B : Type κ} where
  abbrev pub fold_left : (B → A → B) → B → List A → B
  fold_left f b [] = b
  fold_left f b (x ∷ xs) = fold_left f (f b x) xs

module _ {ℓ κ} {A : Type ℓ} {B : Type κ} (f : B → A → B)
    (swap : (b : B) (x y : A) → f (f b x) y ≡ f (f b y) x) where
  fold_left-permᴰ : {xs ys : List A} → Permᴰ xs ys → (b : B) → fold_left f b xs ≡ fold_left f b ys
  fold_left-permᴰ Permᴰ.nil b = refl
  fold_left-permᴰ (Permᴰ.cons {b = y} {l₁ = xs} e p) b =
      ap (λ z. fold_left f (f b z) xs) e ∙ fold_left-permᴰ p (f b y)
  fold_left-permᴰ (Permᴰ.swap {a = x} {b = y} {l = l} e h) b =
      rw (← e, ← h) (ap (λ c. fold_left f c l) (swap b x y))
  fold_left-permᴰ (Permᴰ.trans p q) b = fold_left-permᴰ p b ∙ fold_left-permᴰ q b

  pub fold_left-perm :
      IsSet B → {xs ys : List A} → Perm xs ys → (b : B) → fold_left f b xs ≡ fold_left f b ys
  fold_left-perm set p b = ∥∥₁_elim p (set _ _) (λ q. fold_left-permᴰ q b)
