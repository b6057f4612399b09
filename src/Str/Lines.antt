-- ===== src/Str/Lines.antt =====
-- `splitlines`, `split("\n")`, and what they make of lines that were joined.
use security_toolchain.Prelude.{
  ℕ, ◌≡◌, refl, ap, ◌∙◌, inl, inr, Bool, false, ◌&&◌, List, [], ◌∷◌, ◌++◌, Text, arith, Bool-cases,
  nat_beq, if◌then◌else◌, any, All, ◌⊎◌, any-append,
}
use mathlib.Core.List.{append_assoc, append-nil}
use security_toolchain.Str.Space.{is_break}

-- What one more character does to the line that is read.
pub data Cut : Type 0 where
  -- the `\n` of a `\r\n`
  skip : Cut
  end_line : Cut
  take_char : Cut

cut : Bool → ℕ → Cut
unfolding is_break
cut after_cr c =
    if after_cr && nat_beq c 10 then skip else if is_break c then end_line else take_char

last_line : Text → List Text
last_line [] = []
last_line (c ∷ s) = (c ∷ s) ∷ []

lines_from : Text → Bool → Text → List Text
unfolding cut last_line
lines_from line after_cr [] = last_line line
lines_from line after_cr (c ∷ s) = elim (cut after_cr c) [
  | skip ↦ lines_from line false s
  | end_line ↦ line ∷ lines_from [] (nat_beq c 13) s
  | take_char ↦ lines_from (line ++ c ∷ []) false s
]

-- s.splitlines()
unfoldable pub splitlines : Text → List Text
unfolding lines_from
splitlines s = lines_from [] false s

-- The lines, each with the `\n` that ends it.
unfoldable pub unlines : List Text → Text
unlines [] = []
unlines (x ∷ xs) = x ++ 10 ∷ unlines xs

abbrev pub IsLine : Text → Type 0
IsLine s = any is_break s ≡ false

lines_from-line :
    (line s rest : Text)
    → IsLine s
    → lines_from line false (s ++ 10 ∷ rest) ≡ (line ++ s) ∷ lines_from [] false rest
unfolding lines_from any
lines_from-line line [] rest h = ap (λ l. l ∷ lines_from [] false rest) (rw append-nil)
lines_from-line line (c ∷ s) rest h = elim (Bool-cases (is_break c)) [
  | inl break ↦ ground arith
  | inr other ↦
      rw (other, lines_from)
        (lines_from-line (line ++ c ∷ []) s rest (ground arith) ∙ rw append_assoc)
]

-- Lines without a boundary in them come back.
pub splitlines-unlines : (ls : List Text) → All IsLine ls → splitlines (unlines ls) ≡ ls
unfolding splitlines unlines
splitlines-unlines [] h = refl
splitlines-unlines (x ∷ xs) (h, hs) =
    lines_from-line [] x (unlines xs) h ∙ ap (◌∷◌ x) (splitlines-unlines xs hs)

last_line-IsLine : (line : Text) → IsLine line → All IsLine (last_line line)
unfolding last_line
last_line-IsLine [] h = tt
last_line-IsLine (c ∷ s) h = (h, tt)

Cut-cases : (k : Cut) → (k ≡ skip) ⊎ (k ≡ end_line) ⊎ (k ≡ take_char)
Cut-cases skip = ground arith
Cut-cases end_line = ground arith
Cut-cases take_char = ground arith

cut-take_char : (after_cr : Bool) (c : ℕ) → cut after_cr c ≡ take_char → is_break c ≡ false
unfolding cut
cut-take_char after_cr c h = ground arith

IsLine-snoc : (line : Text) (c : ℕ) → IsLine line → is_break c ≡ false → IsLine (line ++ c ∷ [])
unfolding any
IsLine-snoc line c h k = rw any-append (ground arith)

lines_from-IsLine :
    (line : Text) (after_cr : Bool) (s : Text)
    → IsLine line
    → All IsLine (lines_from line after_cr s)
unfolding lines_from any
lines_from-IsLine line after_cr [] h = last_line-IsLine line h
lines_from-IsLine line after_cr (c ∷ s) h = elim (Cut-cases (cut after_cr c)) [
  | inl skips ↦ rw (skips, lines_from) (lines_from-IsLine line false s h)
  | inr (inl ends) ↦ rw (ends, lines_from) (h, lines_from-IsLine [] (nat_beq c 13) s refl)
  | inr (inr takes) ↦
      rw (takes, lines_from)
        (lines_from-IsLine (line ++ c ∷ []) false s
          (IsLine-snoc line c h (cut-take_char after_cr c takes)))
]

-- No line holds a boundary.
pub splitlines-IsLine : (s : Text) → All IsLine (splitlines s)
unfolding splitlines any
splitlines-IsLine s = lines_from-IsLine [] false s refl
