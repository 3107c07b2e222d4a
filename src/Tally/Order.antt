-- ===== src/Tally/Order.antt =====
-- The order in which verdicts arrive, and how often each is submitted, do not change the count.
use mathlib.Core.Bool.{Bool-set}
use mathlib.Core.Logic.{∥∥₁_elim}
use mathlib.Core.List.{Perm, Permᴰ, Memᴰ}
use khipu_consensus.Prelude.{
  ◌≡◌, refl, ◌∙◌, Bool, true, false, ◌||◌, List, [], ◌∷◌, ◌++◌, arith, any, All, inl, inr,
  Bool-cases,
}

module _ {ℓ} {A : Type ℓ} (p : A → Bool) where
  any-permᴰ : {xs ys : List A} → Permᴰ xs ys → any p xs ≡ any p ys
  any-permᴰ Permᴰ.nil = refl
  any-permᴰ (Permᴰ.cons e h) = ground (arith, e, any-permᴰ h)
  any-permᴰ (Permᴰ.swap e f) = ground (arith, e, f)
  any-permᴰ (Permᴰ.trans h k) = any-permᴰ h ∙ any-permᴰ k

  pub any-perm : (xs ys : List A) → Perm xs ys → any p xs ≡ any p ys
  any-perm xs ys h = ∥∥₁_elim h (Bool-set _ _) any-permᴰ

  pub any-append : (xs ys : List A) → any p (xs ++ ys) ≡ (any p xs || any p ys)
  any-append [] ys = refl
  any-append (x ∷ xs) ys = ground (arith, any-append xs ys)

  any_member : {x : A} {xs : List A} → Memᴰ x xs → p x ≡ true → any p xs ≡ true
  any_member (Memᴰ.head e) h = ground (arith, e)
  any_member (Memᴰ.tail m) h = ground (arith, any_member m h)

  any_below : (xs ys : List A) → All (λ y. Memᴰ y xs) ys → any p xs ≡ false → any p ys ≡ false
  any_below xs [] h none_of = refl
  any_below xs (y ∷ ys) (m, h) none_of =
      ground (arith, any_member {x = y} m, any_below xs ys h none_of)

  -- More copies of what is there pass no new test.
  pub any_again : (xs ys : List A) → All (λ y. Memᴰ y xs) ys → (any p xs || any p ys) ≡ any p xs
  any_again xs ys h = elim (Bool-cases (any p xs)) [
    | inl yes_of ↦ rw yes_of
    | inr none_of ↦ rw (none_of, any_below xs ys h none_of)
  ]
