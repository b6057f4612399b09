-- ===== src/Gate/Whitespace.antt =====
-- `_norm_ws` of gate.py: runs of white space become one space, and the cut text is trimmed again.
use security_toolchain.Prelude.{
  ℕ, zero, suc, ◌≤◌, ◌≡◌, refl, ◌⊎◌, inl, inr, Bool, true, false, [], ◌∷◌, Text, arith, Bool-cases,
  if◌then◌else◌, length, take, length-take, take_of_length-le,
}
use security_toolchain.Str.Space.{is_space}
use security_toolchain.Str.Strip.{
  lstrip, rstrip, strip, rstrip_idem, lstrip-NoLeading, lstrip_of_NoLeading, NoLeading,
  rstrip-NoLeading, length-rstrip-le, trim_cons,
}

-- re.sub(r"\s+", " ", s); the flag says that the run of spaces has begun.
collapse : Bool → Text → Text
collapse in_run [] = []
collapse in_run (c ∷ s) =
    let rest = collapse (is_space c) s in
    if is_space c then (if in_run then rest else 32 ∷ rest) else c ∷ rest

unfoldable pub norm_ws : ℕ → Text → Text
unfolding collapse strip take is_space
norm_ws limit s = rstrip (take limit (strip (collapse false s)))

-- Every space is a plain one and stands alone; the flag forbids one at the front.
IsClean : Bool → Text → Type 0
IsClean after_space [] = Unit
IsClean after_space (c ∷ s) =
    ((is_space c ≡ false) ⊎ ((c ≡ 32) × (after_space ≡ false))) × IsClean (is_space c) s

collapse_step-IsClean :
    (b space : Bool) (c : ℕ) (rest : Text)
    → is_space c ≡ space
    → IsClean space rest
    → IsClean b (if space then (if b then rest else 32 ∷ rest) else c ∷ rest)
unfolding IsClean is_space
collapse_step-IsClean true true c rest e h = h
collapse_step-IsClean false true c rest e h = (inr (refl, refl), h)
collapse_step-IsClean b false c rest e h = (inl e, rw e h)

collapse-IsClean : (b : Bool) (s : Text) → IsClean b (collapse b s)
unfolding IsClean collapse
collapse-IsClean b [] = tt
collapse-IsClean b (c ∷ s) =
    collapse_step-IsClean b (is_space c) c (collapse (is_space c) s) refl
      (collapse-IsClean (is_space c) s)

collapse_of_IsClean : (b : Bool) (s : Text) → IsClean b s → collapse b s ≡ s
unfolding IsClean collapse
collapse_of_IsClean b [] h = refl
collapse_of_IsClean b (c ∷ s) (h, hs) = ground (arith, collapse_of_IsClean (is_space c) s hs)

IsClean-any : (b : Bool) (s : Text) → IsClean true s → IsClean b s
unfolding IsClean
IsClean-any b [] h = tt
IsClean-any b (c ∷ s) h = ground arith

lstrip-IsClean : (b : Bool) (s : Text) → IsClean b s → IsClean true (lstrip s)
unfolding IsClean lstrip
lstrip-IsClean b [] h = tt
lstrip-IsClean b (c ∷ s) (h, hs) = elim (Bool-cases (is_space c)) [
  | inl space ↦ rw space (lstrip-IsClean (is_space c) s hs)
  | inr other ↦ rw other (inl other, hs)
]

take-IsClean : (b : Bool) (n : ℕ) (s : Text) → IsClean b s → IsClean b (take n s)
unfolding IsClean take
take-IsClean b zero [] h = tt
take-IsClean b zero (c ∷ s) h = tt
take-IsClean b (suc n) [] h = tt
take-IsClean b (suc n) (c ∷ s) (h, hs) = (h, take-IsClean (is_space c) n s hs)

trim_cons-IsClean : (b : Bool) (c : ℕ) (s : Text) → IsClean b (c ∷ s) → IsClean b (trim_cons c s)
unfolding IsClean trim_cons
trim_cons-IsClean b c [] h = elim (Bool-cases (is_space c)) [
  | inl space ↦ rw space tt
  | inr other ↦ rw other (inl other, tt)
]
trim_cons-IsClean b c (d ∷ s) h = h

rstrip-IsClean : (b : Bool) (s : Text) → IsClean b s → IsClean b (rstrip s)
unfolding IsClean rstrip
rstrip-IsClean b [] h = tt
rstrip-IsClean b (c ∷ s) (h, hs) =
    trim_cons-IsClean b c (rstrip s) (h, rstrip-IsClean (is_space c) s hs)

take-NoLeading : (n : ℕ) (s : Text) → NoLeading s → NoLeading (take n s)
unfolding take
take-NoLeading zero [] h = tt
take-NoLeading zero (c ∷ s) h = tt
take-NoLeading (suc n) [] h = tt
take-NoLeading (suc n) (c ∷ s) h = h

-- The cut text is at most as long as the limit.
pub length-norm_ws : (limit : ℕ) (s : Text) → length (norm_ws limit s) ≤ limit
unfolding norm_ws
length-norm_ws limit s = omega (
  arith,
  length-rstrip-le (take limit (strip (collapse false s))),
  length-take limit (strip (collapse false s)),
)

-- What `norm_ws` returns is clean, trimmed and short, and such a text it leaves alone.
record IsNormal (limit : ℕ) (s : Text) : Type 0 where
  clean : IsClean true s
  front : NoLeading s
  back : rstrip s ≡ s
  short : length s ≤ limit

norm_ws-IsNormal : (limit : ℕ) (s : Text) → IsNormal limit (norm_ws limit s)
unfolding norm_ws
norm_ws-IsNormal limit s =
    let inner = collapse false s in
    let front = rstrip-NoLeading (lstrip inner) (lstrip-NoLeading inner) in
    let clean = rstrip-IsClean true _ (lstrip-IsClean false inner (collapse-IsClean false s)) in
    record {
      clean = rstrip-IsClean true _ (take-IsClean true limit _ clean);
      front = rstrip-NoLeading _ (take-NoLeading limit _ front);
      back = rstrip_idem (take limit (strip inner));
      short = length-norm_ws limit s;
    }

norm_ws_of_IsNormal : (limit : ℕ) (s : Text) → IsNormal limit s → norm_ws limit s ≡ s
unfolding norm_ws
norm_ws_of_IsNormal limit s n =
    rw
      (
        collapse_of_IsClean false s (IsClean-any false s n.clean),
        lstrip_of_NoLeading s n.front,
        n.back,
        take_of_length-le limit s n.short,
      )
      n.back

-- `_norm_ws` of its own result changes nothing, whatever the text and the limit.
pub norm_ws_idem : (limit : ℕ) (s : Text) → norm_ws limit (norm_ws limit s) ≡ norm_ws limit s
norm_ws_idem limit s = norm_ws_of_IsNormal limit (norm_ws limit s) (norm_ws-IsNormal limit s)

pub strip-norm_ws : (limit : ℕ) (s : Text) → strip (norm_ws limit s) ≡ norm_ws limit s
unfolding strip
strip-norm_ws limit s =
    let n = norm_ws-IsNormal limit s in rw (lstrip_of_NoLeading (norm_ws limit s) n.front) n.back
