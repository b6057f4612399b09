-- ===== src/Propagate/Marks.antt =====
-- A mark in a text, and the lines around it.
use security_toolchain.Prelude.{
  ℕ, ◌≡◌, refl, ap, inl, inr, ◌⊎◌, true, false, not, ◌||◌, [], ◌∷◌, ◌++◌, Text, ◌==◌, text_eq,
  nat_eq, nat_beq, contains, contains-cons, arith, Bool-cases,
}
use security_toolchain.Str.{starts_with, has_substring}
use security_toolchain.Str.Prefix.{starts_with_self}
use security_toolchain.Propagate.Block.{before_mark, after_mark, skip, whole_lines, next_lines}

-- A text starts with m: so does its first part, or m has the character that follows that part.
starts_with-append :
    (xs : Text) (c : ℕ) (rest m : Text)
    → starts_with (xs ++ (c ∷ rest)) m ≡ true
    → (starts_with xs m ≡ true) ⊎ (contains m c ≡ true)
unfolding starts_with
starts_with-append [] c rest [] h = inl refl
starts_with-append (x ∷ xs) c rest [] h = inl refl
starts_with-append [] c rest (p ∷ m) h =
    let same : (p == c) ≡ true = ground (arith) in inr (rw (contains-cons p m c, same) refl)
starts_with-append (x ∷ xs) c rest (p ∷ m) h = elim (Bool-cases (nat_beq x p)) [
  | inl same ↦ elim (starts_with-append xs c rest m (rw (same) at h)) [
    | inl starts ↦ inl (rw (same, starts) refl)
    | inr found ↦ inr (rw (contains-cons p m c, found) ground (arith))
  ]
  | inr differs ↦ absurd (cc (rw (differs) at h))
]

-- A mark starts nowhere in the text before it, if its first character is none of its others.
no_earlier :
    (c : ℕ) (cs : Text) (x : ℕ) (xs rest : Text)
    → contains cs c ≡ false
    → has_substring (x ∷ xs) (c ∷ cs) ≡ false
    → starts_with (x ∷ (xs ++ ((c ∷ cs) ++ rest))) (c ∷ cs) ≡ false
unfolding starts_with has_substring
no_earlier c cs x xs rest only h = elim (Bool-cases (starts_with (xs ++ (c ∷ (cs ++ rest))) cs)) [
  | inr off ↦ rw (off) ground (arith)
  | inl starts ↦ elim (starts_with-append xs c (cs ++ rest) cs starts) [
    | inl inside ↦
        let h0 = rw (inside) at h in
        let differs : nat_beq x c ≡ false = ground (arith) in rw (differs) refl
    | inr found ↦ absurd (cc)
  ]
]

later-substring :
    (x : ℕ) (xs m : Text) → has_substring (x ∷ xs) m ≡ false → has_substring xs m ≡ false
unfolding has_substring
later-substring x xs m h = ground (arith)

pub before_mark-append :
    (c : ℕ) (cs xs rest : Text)
    → contains cs c ≡ false
    → has_substring xs (c ∷ cs) ≡ false
    → before_mark (c ∷ cs) (xs ++ ((c ∷ cs) ++ rest)) ≡ xs
unfolding before_mark
before_mark-append c cs [] rest only h = rw (starts_with_self (c ∷ cs) rest) refl
before_mark-append c cs (x ∷ xs) rest only h =
    rw (no_earlier c cs x xs rest only h)
      (ap (λ s. x ∷ s) (before_mark-append c cs xs rest only (later-substring x xs (c ∷ cs) h)))

skip-append : (m rest : Text) → skip m (m ++ rest) ≡ rest
unfolding skip
skip-append [] rest = refl
skip-append (p ∷ m) rest = skip-append m rest

pub after_mark-append :
    (c : ℕ) (cs xs rest : Text)
    → contains cs c ≡ false
    → has_substring xs (c ∷ cs) ≡ false
    → after_mark (c ∷ cs) (xs ++ ((c ∷ cs) ++ rest)) ≡ rest
unfolding after_mark
after_mark-append c cs [] rest only h =
    rw (starts_with_self (c ∷ cs) rest) (skip-append (c ∷ cs) rest)
after_mark-append c cs (x ∷ xs) rest only h =
    rw (no_earlier c cs x xs rest only h)
      (after_mark-append c cs xs rest only (later-substring x xs (c ∷ cs) h))

starts-substring : (m rest : Text) → has_substring (m ++ rest) m ≡ true
unfolding has_substring
starts-substring [] [] = refl
starts-substring [] (x ∷ rest) = refl
starts-substring (p ∷ m) rest = rw (starts_with_self (p ∷ m) rest) refl

pub has_substring-append : (xs m rest : Text) → has_substring (xs ++ (m ++ rest)) m ≡ true
unfolding has_substring
has_substring-append [] m rest = starts-substring m rest
has_substring-append (x ∷ xs) m rest = rw (has_substring-append xs m rest) ground (arith)

no_whole_line : (lead : Text) → contains lead b'\n' ≡ false → whole_lines lead ≡ []
unfolding whole_lines
no_whole_line [] h = refl
no_whole_line (x ∷ lead) h =
    let h0 = rw (contains-cons x lead b'\n') at h in
    let (differs, others) : (nat_beq x b'\n' ≡ false) × (contains lead b'\n' ≡ false) =
      (ground (arith), ground (arith)) in
    rw (differs, no_whole_line lead others) refl

-- The last line has not ended yet.
pub whole_lines-append :
    (xs lead : Text)
    → whole_lines xs ≡ xs
    → contains lead b'\n' ≡ false
    → whole_lines (xs ++ lead) ≡ xs
unfolding whole_lines
whole_lines-append [] lead whole h = no_whole_line lead h
whole_lines-append (x ∷ xs) lead whole h =
    elim (Bool-cases (x == b'\n' || not (whole_lines xs == []))) [
      | inr off ↦ absurd (cc (rw (off) at whole))
      | inl ends ↦
          let same : whole_lines xs ≡ xs = cc (rw (ends) at whole) in
          let ends0 : (x == b'\n' || not (xs == [])) ≡ true = rw (same) at ends in
          rw (whole_lines-append xs lead same h, ends0) refl
    ]

pub next_lines-append :
    (tail after : Text) → contains tail b'\n' ≡ false → next_lines (tail ++ (b'\n' ∷ after)) ≡ after
unfolding next_lines
next_lines-append [] after h = refl
next_lines-append (x ∷ tail) after h =
    let h0 = rw (contains-cons x tail b'\n') at h in
    let (differs, others) : (nat_beq x b'\n' ≡ false) × (contains tail b'\n' ≡ false) =
      (ground (arith), ground (arith)) in
    rw (differs) (next_lines-append tail after others)
