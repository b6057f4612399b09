-- ===== src/Prelude/Sorting.antt =====
-- `sorted(set(...))` over texts, which Python compares by code points.
pub mod Unique
use security_toolchain.Prelude.Lists.{All, contains, contains-cons}
use security_toolchain.Prelude.Tests.{ltb, nat_beq, if◌then◌else◌, Bool-cases}
use security_toolchain.Prelude.Equality.{Text, text_beq, text_beq_iff, text_eq}
use mathlib.Core.Path.{◌≡◌, refl}
use mathlib.Core.Logic.{inl, inr}
use mathlib.Core.Bool.{Bool, true, false, ◌||◌}
use mathlib.Core.List.{List, [], ◌∷◌}
use native.Mathlib.Omega.{arith}

-- s < t
unfoldable pub text_ltb : Text → Text → Bool
text_ltb s [] = false
text_ltb [] (b ∷ t) = true
text_ltb (a ∷ s) (b ∷ t) = if ltb a b then true else if nat_beq a b then text_ltb s t else false

pub text_ltb_irrefl : (s : Text) → text_ltb s s ≡ false
unfolding text_ltb
text_ltb_irrefl [] = refl
text_ltb_irrefl (a ∷ s) = ground (arith, text_ltb_irrefl s)

pub text_ltb_connex :
    (s t : Text) → text_ltb s t ≡ false → text_beq s t ≡ false → text_ltb t s ≡ true
unfolding text_ltb
text_ltb_connex [] [] h k = ground arith
text_ltb_connex (a ∷ s) [] h k = refl
text_ltb_connex [] (b ∷ t) h k = ground arith
text_ltb_connex (a ∷ s) (b ∷ t) h k = ground (arith, text_ltb_connex s t)

pub text_ltb_trans :
    (s t u : Text) → text_ltb s t ≡ true → text_ltb t u ≡ true → text_ltb s u ≡ true
unfolding text_ltb
text_ltb_trans s t [] h k = ground arith
text_ltb_trans s [] (c ∷ u) h k = ground arith
text_ltb_trans [] (b ∷ t) (c ∷ u) h k = refl
text_ltb_trans (a ∷ s) (b ∷ t) (c ∷ u) h k = ground (arith, text_ltb_trans s t u)

unfoldable pub insert : Text → List Text → List Text
insert x [] = x ∷ []
insert x (y ∷ ys) =
    let rest = insert x ys in
    if text_ltb x y then x ∷ y ∷ ys else if text_beq x y then y ∷ ys else y ∷ rest

-- sorted(set(xs))
unfoldable pub sorted_set : List Text → List Text
unfolding insert text_ltb
sorted_set [] = []
sorted_set (x ∷ xs) = insert x (sorted_set xs)

abbrev pub AscendsFrom : Text → List Text → Type 0
AscendsFrom a [] = Unit
AscendsFrom a (x ∷ xs) = (text_ltb a x ≡ true) × AscendsFrom x xs

-- Each entry is below the next, so none stands twice.
abbrev pub IsAscending : List Text → Type 0
IsAscending [] = Unit
IsAscending (x ∷ xs) = AscendsFrom x xs

insert-AscendsFrom :
    (a x : Text) (l : List Text)
    → text_ltb a x ≡ true
    → AscendsFrom a l
    → AscendsFrom a (insert x l)
unfolding insert
insert-AscendsFrom a x [] h _ = (h, tt)
insert-AscendsFrom a x (y ∷ ys) h (k, rest) = elim (Bool-cases (text_ltb x y)) [
  | inl below ↦ ground arith
  | inr above ↦ ground (
    arith,
    text_ltb_connex x y above,
    λ (p : text_ltb y x ≡ true). insert-AscendsFrom y x ys p rest,
  )
]

insert-IsAscending : (x : Text) (l : List Text) → IsAscending l → IsAscending (insert x l)
unfolding insert
insert-IsAscending x [] _ = tt
insert-IsAscending x (y ∷ ys) rest = elim (Bool-cases (text_ltb x y)) [
  | inl below ↦ ground arith
  | inr above ↦ ground (
    arith,
    text_ltb_connex x y above,
    λ (p : text_ltb y x ≡ true). insert-AscendsFrom y x ys p rest,
  )
]

pub sorted_set-IsAscending : (xs : List Text) → IsAscending (sorted_set xs)
unfolding sorted_set
sorted_set-IsAscending [] = tt
sorted_set-IsAscending (x ∷ xs) = insert-IsAscending x (sorted_set xs) (sorted_set-IsAscending xs)

contains-insert :
    (x : Text) (l : List Text) (k : Text) → contains (insert x l) k ≡ (text_beq x k || contains l k)
unfolding insert
contains-insert x [] k = contains-cons x [] k
contains-insert x (y ∷ ys) k = ground (
  arith,
  contains-cons x (y ∷ ys) k,
  contains-cons y ys k,
  contains-cons y (insert x ys) k,
  contains-insert x ys k,
  text_beq_iff x y,
)

pub contains-sorted_set : (xs : List Text) (k : Text) → contains (sorted_set xs) k ≡ contains xs k
unfolding sorted_set
contains-sorted_set [] k = refl
contains-sorted_set (x ∷ xs) k =
    ground
      (arith, contains-insert x (sorted_set xs) k, contains-cons x xs k, contains-sorted_set xs k)

insert-All : (P : Text → Type 0) (x : Text) (l : List Text) → P x → All P l → All P (insert x l)
unfolding insert
insert-All P x [] h hs = (h, tt)
insert-All P x (y ∷ ys) h (k, ks) = ground (arith, insert-All P x ys h ks)

pub sorted_set-All : (P : Text → Type 0) (xs : List Text) → All P xs → All P (sorted_set xs)
unfolding sorted_set
sorted_set-All P [] hs = tt
sorted_set-All P (x ∷ xs) (h, hs) = insert-All P x (sorted_set xs) h (sorted_set-All P xs hs)
