-- ===== src/Prelude/Sorting/Unique.antt =====
-- Ascending lists and their members.
use security_toolchain.Prelude.Lists.{contains, contains-cons, contains-nil}
use security_toolchain.Prelude.Tests.{Bool-cases}
use security_toolchain.Prelude.Equality.{Text, text_beq, text_beq_iff, text_beq_refl, text_eq}
use security_toolchain.Prelude.Sorting.{
  text_ltb, text_ltb_trans, text_ltb_irrefl, text_ltb_connex, AscendsFrom, IsAscending, sorted_set,
  sorted_set-IsAscending, contains-sorted_set,
}
use mathlib.Core.Path.{◌≡◌, refl, sym, ap, ap₂, ◌∙◌, subst}
use mathlib.Core.Logic.{inl, inr}
use mathlib.Core.Bool.{true, false}
use mathlib.Core.List.{List, [], ◌∷◌}
use native.Mathlib.Omega.{arith}

abbrev pub SameMembers : List Text → List Text → Type 0
SameMembers xs ys = (k : Text) → contains xs k ≡ contains ys k

lt_of_contains :
    (a : Text) (l : List Text) (k : Text)
    → AscendsFrom a l
    → contains l k ≡ true
    → text_ltb a k ≡ true
lt_of_contains a [] k _ m = cc (contains-nil k)
lt_of_contains a (x ∷ xs) k (h, hs) m = elim (Bool-cases (text_beq x k)) [
  | inl same ↦ ap (text_ltb a) (sym ((text_beq_iff x k).0 same)) ∙ h
  | inr other ↦
      text_ltb_trans a x k h (lt_of_contains x xs k hs (ground (arith, contains-cons x xs k)))
]

not-contains_self : (a : Text) (l : List Text) → AscendsFrom a l → contains l a ≡ false
not-contains_self a l h = ground (arith, lt_of_contains a l a h, text_ltb_irrefl a)

-- What stands below the head stands nowhere in the list.
not-contains_below :
    (a b : Text) (l : List Text)
    → text_ltb a b ≡ true
    → AscendsFrom b l
    → contains (b ∷ l) a ≡ false
not-contains_below a b l h hs = ground (
  arith,
  contains-cons b l a,
  text_beq_iff b a,
  text_ltb_irrefl a,
  lt_of_contains b l a hs,
  text_ltb_trans a b a h,
)

contains-head : (a : Text) (l : List Text) → contains (a ∷ l) a ≡ true
contains-head a l = ground (arith, contains-cons a l a, text_beq_refl a)

heads-eq :
    (a b : Text) (l r : List Text)
    → AscendsFrom a l
    → AscendsFrom b r
    → SameMembers (a ∷ l) (b ∷ r)
    → a ≡ b
heads-eq a b l r ha hb same = ground (
  arith,
  same a,
  same b,
  contains-head a l,
  contains-head b r,
  not-contains_below a b r,
  not-contains_below b a l,
  text_ltb_connex a b,
  text_beq_iff a b,
)

tails-SameMembers :
    (a : Text) (l r : List Text)
    → AscendsFrom a l
    → AscendsFrom a r
    → SameMembers (a ∷ l) (a ∷ r)
    → SameMembers l r
tails-SameMembers a l r hl hr same k = elim (Bool-cases (text_beq a k)) [
  | inl equal ↦
      let e = (text_beq_iff a k).0 equal in
      ground (
        arith,
        not-contains_self a l hl,
        not-contains_self a r hr,
        ap (contains l) e,
        ap (contains r) e,
      )
  | inr other ↦ ground (arith, same k, contains-cons a l k, contains-cons a r k)
]

IsAscending-tail : (a : Text) (l : List Text) → AscendsFrom a l → IsAscending l
IsAscending-tail a [] h = tt
IsAscending-tail a (x ∷ l) h = h.1

ascending_unique : (l r : List Text) → IsAscending l → IsAscending r → SameMembers l r → l ≡ r
ascending_unique [] [] hl hr same = refl
ascending_unique [] (b ∷ r) hl hr same = cc (same b, contains-nil b, contains-head b r)
ascending_unique (a ∷ l) [] hl hr same = cc (same a, contains-nil a, contains-head a l)
ascending_unique (a ∷ l) (b ∷ r) hl hr same =
    let e = heads-eq a b l r hl hr same in
    let hr' = subst (λ c. AscendsFrom c r) (sym e) hr in
    let same' = subst (λ c. SameMembers (a ∷ l) (c ∷ r)) (sym e) same in
    ap₂ ◌∷◌ e (
      ascending_unique l r (IsAscending-tail a l hl) (IsAscending-tail b r hr)
        (tails-SameMembers a l r hl hr' same'))

-- The sorted set depends on the members alone.
pub sorted_set_ext : (xs ys : List Text) → SameMembers xs ys → sorted_set xs ≡ sorted_set ys
sorted_set_ext xs ys same =
    ascending_unique (sorted_set xs) (sorted_set ys) (sorted_set-IsAscending xs)
      (sorted_set-IsAscending ys)
      (λ k. contains-sorted_set xs k ∙ same k ∙ sym (contains-sorted_set ys k))
