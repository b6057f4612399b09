-- ===== src/Str/Regex.antt =====
-- Regular expressions: what a text has to be to match one, and a matcher by derivatives.
pub mod Accepts
use security_toolchain.Prelude.{
  ℕ, ◌≡◌, ◌⊎◌, Bool, true, false, not, ◌&&◌, ◌||◌, List, [], ◌∷◌, ◌++◌, Text, ◌==◌, nat_eq,
  if◌then◌else◌,
}

pub data Regex : Type 0 where
  fail empty : Regex
  char : (ℕ → Bool) → Regex
  seq alt : Regex → Regex → Regex
  star : Regex → Regex

-- A text is a row of pieces in P.
pub data Star (P : Text → Type 0) : Text → Type 0 where
  stop : {s : Text} → s ≡ [] → Star P s
  more : {s : Text} (a b : Text) → s ≡ a ++ b → P a → Star P b → Star P s

unfoldable pub Matches : Regex → Text → Type 0
Matches fail s = ⊥
Matches empty s = s ≡ []
Matches (char p) s = (c : ℕ) × (s ≡ c ∷ []) × (p c ≡ true)
Matches (seq r q) s = (a : Text) × (b : Text) × (s ≡ a ++ b) × Matches r a × Matches q b
Matches (alt r q) s = Matches r s ⊎ Matches q s
Matches (star r) s = Star (Matches r) s

-- The empty text matches.
unfoldable pub nullable : Regex → Bool
nullable fail = false
nullable empty = true
nullable (char p) = false
nullable (seq r q) = nullable r && nullable q
nullable (alt r q) = nullable r || nullable q
nullable (star r) = true

-- What is left to match after a character.
unfoldable pub deriv : ℕ → Regex → Regex
unfolding nullable
deriv c fail = fail
deriv c empty = fail
deriv c (char p) = if p c then empty else fail
deriv c (seq r q) =
    let left = seq (deriv c r) q in
    let right = deriv c q in if nullable r then alt left right else left
deriv c (alt r q) = alt (deriv c r) (deriv c q)
deriv c (star r) = seq (deriv c r) (star r)

unfoldable pub accepts : Regex → Text → Bool
unfolding nullable deriv
accepts r [] = nullable r
accepts r (c ∷ s) = accepts (deriv c r) s

-- The text itself.
unfoldable pub lit : Text → Regex
lit [] = empty
lit (c ∷ s) = seq (char (λ d. d == c)) (lit s)

abbrev pub opt : Regex → Regex
opt r = alt empty r

unfoldable pub alts : List Regex → Regex
alts [] = fail
alts (r ∷ rs) = alt r (alts rs)
