-- ===== src/Changed/Patterns/Shapes.antt =====
-- The texts that a regular expression with at most one star matches, as a list of shapes.
use security_toolchain.Prelude.{
  ◌≡◌, refl, sym, ap, subst, ◌∙◌, inl, inr, ◌⊎◌, ◌↔◌, true, not, List, [], ◌∷◌, ◌++◌, Text, ◌==◌,
  nat_eq, All,
}
use mathlib.Core.List.{append_assoc}
use security_toolchain.Str.Regex.{Regex, fail, seq, alt, Matches}
use security_toolchain.Changed.Patterns.{segment}
use security_toolchain.Changed.Patterns.Words.{
  IsOneOf, HasWords, products, IsOneOf-products, star-All,
}

-- One of some words; or the first word, a text without a slash, and the last word.
pub data Shape : Type 0 where
  plain : List Text → Shape
  starred : (first last : List Text) → Shape

-- No slash is in the text.
abbrev pub IsSegment : Text → Type 0
IsSegment = All (λ c. not (c == b'/') ≡ true)

abbrev pub HasShape : Text → Shape → Type 0
HasShape s (plain words) = IsOneOf words s
HasShape s (starred first last) =
    (a : Text) × (middle : Text) × (z : Text) × (s ≡ a ++ (middle ++ z))
    × IsOneOf first a
    × IsSegment middle
    × IsOneOf last z

abbrev pub HasAnyShape : List Shape → Text → Type 0
HasAnyShape [] s = ⊥
HasAnyShape (shape ∷ shapes) s = HasShape s shape ⊎ HasAnyShape shapes s

-- The expression matches the texts of this shape and no other.
pub record IsShaped (r : Regex) (shape : Shape) : Type 0 where
  pub at : (s : Text) → Matches r s ↔ HasShape s shape

pub record IsAnyShaped (r : Regex) (shapes : List Shape) : Type 0 where
  pub at : (s : Text) → Matches r s ↔ HasAnyShape shapes s

pub IsShaped-plain : {r : Regex} {words : List Text} → HasWords r words → IsShaped r (plain words)
IsShaped-plain h = record { at = λ s. h.at s }

pub IsShaped-last :
    {q : Regex} {last : List Text}
    → HasWords q last
    → IsShaped (seq segment q) (starred ([] ∷ []) last)
unfolding Matches
IsShaped-last {q} {last} hq = record {
  at = λ s. (
    λ (middle, z, e, row, m).
        ([], middle, z, e, inl refl, (star-All _ middle).0 row, (hq.at z).0 m),
    λ (a, middle, z, e, nothing, free, k). elim nothing [
      | inl no_first ↦ (
        middle,
        z,
        e ∙ ap (λ u. u ++ (middle ++ z)) no_first,
        (star-All _ middle).1 free,
        (hq.at z).1 k,
      )
      | inr none_left ↦ absurd none_left
    ],
  );
}

pub append_nil : (s : Text) → s ++ [] ≡ s
append_nil [] = refl
append_nil (c ∷ s) = ap (λ t. c ∷ t) (append_nil s)

pub IsShaped-segment : IsShaped segment (starred ([] ∷ []) ([] ∷ []))
IsShaped-segment = record {
  at = λ s. (
    λ row. ([], s, [], sym (append_nil s), inl refl, (star-All _ s).0 row, inl refl),
    λ (a, middle, z, e, nothing, free, no_end).
        let start : a ≡ [] = elim nothing [ inl k ↦ k | inr k ↦ absurd k ] in
        let stop : z ≡ [] = elim no_end [ inl k ↦ k | inr k ↦ absurd k ] in
        let same : s ≡ middle =
          e ∙ ap (λ u. u ++ (middle ++ z)) start ∙ ap (λ u. middle ++ u) stop ∙ append_nil middle in
        (star-All _ s).1 (subst IsSegment (sym same) free),
  );
}

pub IsShaped-first :
    {r q : Regex} {words first last : List Text}
    → HasWords r words
    → IsShaped q (starred first last)
    → IsShaped (seq r q) (starred (products words first) last)
unfolding Matches
IsShaped-first {r} {q} {words} {first} {last} hr hq = record {
  at = λ s. (
    λ (a, b, e, m, n).
        let (f, middle, z, e2, k, free, l) = (hq.at b).0 n in
        (
          a ++ f,
          middle,
          z,
          e ∙ ap (λ u. a ++ u) e2 ∙ sym (append_assoc a f (middle ++ z)),
          (IsOneOf-products words first (a ++ f)).1 (a, f, refl, (hr.at a).0 m, k),
          free,
          l,
        ),
    λ (c, middle, z, e, k, free, l).
        let (a, f, e2, m, n) = (IsOneOf-products words first c).0 k in
        (
          a,
          f ++ (middle ++ z),
          e ∙ ap (λ u. u ++ (middle ++ z)) e2 ∙ append_assoc a f (middle ++ z),
          (hr.at a).1 m,
          (hq.at (f ++ (middle ++ z))).1 (f, middle, z, refl, n, free, l),
        ),
  );
}

pub IsAnyShaped-fail : IsAnyShaped fail []
unfolding Matches
IsAnyShaped-fail = record { at = λ s. (λ h. h, λ h. h) }

pub IsAnyShaped-alt :
    {r q : Regex} {shape : Shape} {shapes : List Shape}
    → IsShaped r shape
    → IsAnyShaped q shapes
    → IsAnyShaped (alt r q) (shape ∷ shapes)
unfolding Matches
IsAnyShaped-alt hr hq = record {
  at = λ s. (
    λ h. elim h [ inl m ↦ inl ((hr.at s).0 m) | inr m ↦ inr ((hq.at s).0 m) ],
    λ found. elim found [ inl k ↦ inl ((hr.at s).1 k) | inr k ↦ inr ((hq.at s).1 k) ],
  );
}
