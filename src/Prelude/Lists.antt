-- ===== src/Prelude/Lists.antt =====
-- Lists measured by native numbers, and Python's `in`, `any` and filters over them.
use Prim.Native.Nat.{ℕ, zero, suc, ◌+◌, ◌≤◌}
use mathlib.Core.Path.{◌≡◌, refl, sym, ap, ◌∙◌}
use mathlib.Core.Logic.{inl, inr}
use mathlib.Core.Bool.{Bool, true, false, ◌&&◌, ◌||◌}
use mathlib.Core.List.{List, [], ◌∷◌, ◌++◌}
use native.Mathlib.Omega.{arith}
use security_toolchain.Prelude.Tests.{if◌then◌else◌, Bool-cases}
use security_toolchain.Prelude.Equality.{Equality, ◌==◌}

module _ {ℓ} {A : Type ℓ} where
  abbrev pub length : List A → ℕ
  length [] = 0
  length (x ∷ xs) = suc (length xs)

  -- xs[:n]
  unfoldable pub take : ℕ → List A → List A
  take (suc n) (x ∷ xs) = x ∷ take n xs
  take _ _ = []

  unfoldable pub any : (A → Bool) → List A → Bool
  any p [] = false
  any p (x ∷ xs) = p x || any p xs

  unfoldable pub all : (A → Bool) → List A → Bool
  all p [] = true
  all p (x ∷ xs) = p x && all p xs

  -- [x for x in xs if p(x)]
  unfoldable pub keep : (A → Bool) → List A → List A
  keep p [] = []
  keep p (x ∷ xs) = let rest = keep p xs in if p x then x ∷ rest else rest

  abbrev pub All {κ} : (A → Type κ) → List A → Type κ
  All P [] = Unit
  All P (x ∷ xs) = P x × All P xs

module _ {ℓ} {A : Type ℓ} where
  pub All-append : (P : A → Type 0) (xs ys : List A) → All P xs → All P ys → All P (xs ++ ys)
  All-append P [] ys h k = k
  All-append P (x ∷ xs) ys (h, hs) k = (h, All-append P xs ys hs k)

  pub length-append : (xs ys : List A) → length (xs ++ ys) ≡ length xs + length ys
  length-append [] ys = omega arith
  length-append (x ∷ xs) ys = omega (arith, length-append xs ys)

  pub length-take : (n : ℕ) (xs : List A) → length (take n xs) ≤ n
  unfolding take
  length-take zero xs = omega arith
  length-take (suc n) [] = omega arith
  length-take (suc n) (x ∷ xs) = omega (arith, length-take n xs)

  pub take_of_length-le : (n : ℕ) (xs : List A) → length xs ≤ n → take n xs ≡ xs
  unfolding take
  take_of_length-le zero [] h = refl
  take_of_length-le (suc n) [] h = refl
  take_of_length-le zero (x ∷ xs) h = absurd (omega arith)
  take_of_length-le (suc n) (x ∷ xs) h = ap (◌∷◌ x) (take_of_length-le n xs (omega arith))

  pub any-append : (p : A → Bool) (xs ys : List A) → any p (xs ++ ys) ≡ (any p xs || any p ys)
  unfolding any
  any-append p [] ys = refl
  any-append p (x ∷ xs) ys = ground (arith, any-append p xs ys)

  pub any-keep : (p q : A → Bool) (xs : List A) → any p (keep q xs) ≡ any (λ x. q x && p x) xs
  unfolding any keep
  any-keep p q [] = refl
  any-keep p q (x ∷ xs) = ground (arith, any-keep p q xs)

  -- A test that implies another one holds somewhere only where that one does.
  pub any_mono :
      (p q : A → Bool)
      → ((x : A) → p x ≡ true → q x ≡ true)
      → (xs : List A) → any p xs ≡ true
      → any q xs ≡ true
  unfolding any
  any_mono p q f [] h = h
  any_mono p q f (x ∷ xs) h = ground (arith, f x, any_mono p q f xs)

  pub any_congr : (p q : A → Bool) → ((x : A) → p x ≡ q x) → (xs : List A) → any p xs ≡ any q xs
  unfolding any
  any_congr p q f [] = refl
  any_congr p q f (x ∷ xs) = ground (arith, f x, any_congr p q f xs)

  pub keep-eq-nil : (p : A → Bool) (xs : List A) → any p xs ≡ false → keep p xs ≡ []
  unfolding any keep
  keep-eq-nil p [] h = refl
  keep-eq-nil p (x ∷ xs) h = ground (arith, keep-eq-nil p xs)

module _ {ℓ} {A : Type ℓ} ⦃eq : Equality A⦄ where
  -- a in xs
  unfoldable pub contains : List A → A → Bool
  contains xs a = any (λ x. x == a) xs

  pub contains-nil : (a : A) → contains [] a ≡ false
  unfolding contains any
  contains-nil a = refl

  pub contains-cons :
      (x : A) (xs : List A) (a : A) → contains (x ∷ xs) a ≡ (x == a || contains xs a)
  unfolding contains any
  contains-cons x xs a = refl

  pub contains-append :
      (xs ys : List A) (a : A) → contains (xs ++ ys) a ≡ (contains xs a || contains ys a)
  unfolding contains
  contains-append xs ys a = any-append _ xs ys

  pub contains-keep :
      (p : A → Bool) (xs : List A) (a : A) → contains (keep p xs) a ≡ (contains xs a && p a)
  unfolding contains any keep
  contains-keep p [] a = refl
  contains-keep p (x ∷ xs) a = elim (Bool-cases (x == a)) [
    | inl same ↦ ground (arith, contains-keep p xs a, ap p ((eq.same_iff x a).0 same))
    | inr other ↦ ground (arith, contains-keep p xs a)
  ]

  pub All-contains :
      (p : A → Bool) (xs : List A) (a : A)
      → All (λ x. p x ≡ true) xs
      → contains xs a ≡ true
      → p a ≡ true
  unfolding contains any
  All-contains p [] a h m = cc
  All-contains p (x ∷ xs) a (h, hs) m = elim (Bool-cases (x == a)) [
    | inl same ↦ ap p (sym ((eq.same_iff x a).0 same)) ∙ h
    | inr other ↦ All-contains p xs a hs (ground arith)
  ]

  -- A test that fails at each element fails throughout.
  pub any-eq-false :
      (p : A → Bool) (xs : List A)
      → ((a : A) → contains xs a ≡ true → p a ≡ false)
      → any p xs ≡ false
  unfolding contains any
  any-eq-false p [] h = refl
  any-eq-false p (x ∷ xs) h =
      let first = h x (ground (arith, (eq.same_iff x x).1 refl)) in
      rw (first, any) (any-eq-false p xs (λ a m. h a (ground arith)))

  -- set(xs): each element once, at its first place.
  unfoldable pub dedup : List A → List A → List A
  dedup seen [] = []
  dedup seen (x ∷ xs) = if contains seen x then dedup seen xs else x ∷ dedup (x ∷ seen) xs
