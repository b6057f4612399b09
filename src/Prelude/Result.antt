-- ===== src/Prelude/Result.antt =====
-- A Python function that may raise: what it returns, or what it raises.
use mathlib.Core.Path.{◌≡◌, refl, ap}
use mathlib.Core.Bool.{Bool, true, false}
use mathlib.Core.List.{List, [], ◌∷◌}

pub data Result {ℓ} (E A : Type ℓ) : Type ℓ where
  ok : A → Result E A
  err : E → Result E A

infixl 5 ◌>>=◌ ◌>>◌
abbrev pub ◌>>=◌ {ℓ} : {E A B : Type ℓ} → Result E A → (A → Result E B) → Result E B
ok a >>= f = f a
err e >>= f = err e

abbrev pub ◌>>◌ {ℓ} : {E A B : Type ℓ} → Result E A → Result E B → Result E B
m >> k = m >>= λ _. k

-- `if not test: raise e`
abbrev pub require : {E : Type 0} → Bool → E → Result E (Unit {0})
require true e = ok tt
require false e = err e

taken {ℓ} : {E A : Type ℓ} → A → Result E A → A
taken otherwise (ok a) = a
taken otherwise (err e) = otherwise

pub ok-injective {ℓ} : {E A : Type ℓ} {a b : A} → Path (Result E A) (ok a) (ok b) → a ≡ b
unfolding taken
ok-injective {a = a} e = ap (taken a) e

-- A chain that returns has a first step that returned.
pub bind-eq-ok {ℓ} :
    {E A B : Type ℓ} (step : Result E A) (next : A → Result E B) {out : B}
    → (step >>= next) ≡ ok out
    → (mid : A) × (next mid ≡ ok out) × (step ≡ ok mid)
bind-eq-ok (err why) next returned = cc
bind-eq-ok (ok mid) next returned = (mid, returned, refl)

pub require-eq-ok : {E : Type 0} (b : Bool) (e : E) {u : Unit {0}} → require b e ≡ ok u → b ≡ true
require-eq-ok true e h = refl
require-eq-ok false e h = cc

-- `for x in xs: check(x)`
unfoldable pub each {ℓ} : {E A : Type ℓ} {U : Type ℓ} → (A → Result E U) → U → List A → Result E U
each f u [] = ok u
each f u (x ∷ xs) = do _ ← f x; each f u xs
