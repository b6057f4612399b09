-- ===== src/Str/Strip.antt =====
-- `lstrip`, `rstrip`, `strip` and their laws.
use security_toolchain.Prelude.{
  ℕ, suc, ◌≤◌, ◌≡◌, refl, ◌∙◌, ap, inl, inr, Bool, false, [], ◌∷◌, Text, arith, Bool-cases, length,
  any, if◌then◌else◌,
}
use security_toolchain.Str.Space.{is_space}

unfoldable pub lstrip : Text → Text
lstrip [] = []
lstrip (c ∷ s) = let rest = lstrip s in if is_space c then rest else c ∷ s

-- A space is dropped where nothing is left behind it.
unfoldable pub trim_cons : ℕ → Text → Text
trim_cons c [] = if is_space c then [] else c ∷ []
trim_cons c (d ∷ s) = c ∷ d ∷ s

unfoldable pub rstrip : Text → Text
unfolding trim_cons
rstrip [] = []
rstrip (c ∷ s) = trim_cons c (rstrip s)

unfoldable pub strip : Text → Text
unfolding lstrip rstrip
strip s = rstrip (lstrip s)

rstrip-trim_cons : (c : ℕ) (s : Text) → rstrip s ≡ s → rstrip (trim_cons c s) ≡ trim_cons c s
unfolding rstrip
rstrip-trim_cons c [] h = ground arith
rstrip-trim_cons c (d ∷ s) h = ground arith

pub rstrip_idem : (s : Text) → rstrip (rstrip s) ≡ rstrip s
unfolding rstrip
rstrip_idem [] = refl
rstrip_idem (c ∷ s) = rstrip-trim_cons c (rstrip s) (rstrip_idem s)

pub lstrip_idem : (s : Text) → lstrip (lstrip s) ≡ lstrip s
unfolding lstrip
lstrip_idem [] = refl
lstrip_idem (c ∷ s) = ground (arith, lstrip_idem s)

-- The text does not begin with a space.
abbrev pub NoLeading : Text → Type 0
NoLeading [] = Unit
NoLeading (c ∷ s) = is_space c ≡ false

pub lstrip-NoLeading : (s : Text) → NoLeading (lstrip s)
unfolding lstrip
lstrip-NoLeading [] = tt
lstrip-NoLeading (c ∷ s) = elim (Bool-cases (is_space c)) [
  | inl space ↦ rw space (lstrip-NoLeading s)
  | inr other ↦ rw other other
]

pub lstrip_of_NoLeading : (s : Text) → NoLeading s → lstrip s ≡ s
unfolding lstrip
lstrip_of_NoLeading [] h = refl
lstrip_of_NoLeading (c ∷ s) h = rw h

trim_cons-NoLeading : (c : ℕ) (s : Text) → is_space c ≡ false → NoLeading (trim_cons c s)
unfolding trim_cons
trim_cons-NoLeading c [] h = rw h h
trim_cons-NoLeading c (d ∷ s) h = h

pub rstrip-NoLeading : (s : Text) → NoLeading s → NoLeading (rstrip s)
unfolding rstrip
rstrip-NoLeading [] h = tt
rstrip-NoLeading (c ∷ s) h = trim_cons-NoLeading c (rstrip s) h

pub rstrip-strip : (s : Text) → rstrip (strip s) ≡ strip s
unfolding strip
rstrip-strip s = rstrip_idem (lstrip s)

-- Trimming is done once.
pub strip_idem : (s : Text) → strip (strip s) ≡ strip s
unfolding strip
strip_idem s =
    ap rstrip (lstrip_of_NoLeading (strip s) (rstrip-NoLeading (lstrip s) (lstrip-NoLeading s)))
    ∙ rstrip_idem (lstrip s)

trim_cons-length-le : (c : ℕ) (s : Text) → length (trim_cons c s) ≤ suc (length s)
unfolding trim_cons
trim_cons-length-le c [] = ground arith
trim_cons-length-le c (d ∷ s) = omega arith

pub length-rstrip-le : (s : Text) → length (rstrip s) ≤ length s
unfolding rstrip
length-rstrip-le [] = omega arith
length-rstrip-le (c ∷ s) = omega (arith, trim_cons-length-le c (rstrip s), length-rstrip-le s)

trim_cons-any :
    (p : ℕ → Bool) (c : ℕ) (s : Text) → any p (c ∷ s) ≡ false → any p (trim_cons c s) ≡ false
unfolding trim_cons any
trim_cons-any p c [] h = ground arith
trim_cons-any p c (d ∷ s) h = h

-- What no character of a text satisfies, none of the trimmed one does.
pub rstrip-any : (p : ℕ → Bool) (s : Text) → any p s ≡ false → any p (rstrip s) ≡ false
unfolding rstrip any
rstrip-any p [] h = h
rstrip-any p (c ∷ s) h = trim_cons-any p c (rstrip s) (ground (arith, rstrip-any p s))
