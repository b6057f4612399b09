-- ===== src/Str/Regex/Accepts.antt =====
-- The matcher by derivatives and the texts that match.
use security_toolchain.Prelude.{
  ℕ, ◌≡◌, refl, sym, ap, ◌∙◌, subst, inl, inr, ◌⊎◌, ◌↔◌, Bool, true, [], ◌∷◌, ◌++◌, Text,
  if◌then◌else◌, Bool-cases, arith,
}
use security_toolchain.Str.Regex.{
  Regex, fail, empty, char, seq, alt, star, Star, stop, more, Matches, nullable, deriv, accepts,
}

append-eq-nil : (a b : Text) → a ++ b ≡ [] → (a ≡ []) × (b ≡ [])
append-eq-nil [] b h = (refl, h)
append-eq-nil (x ∷ a) b h = absurd (cc)

nullable_sound : (r : Regex) → nullable r ≡ true → Matches r []
unfolding nullable Matches
nullable_sound fail h = absurd (cc)
nullable_sound empty h = refl
nullable_sound (char p) h = absurd (cc)
nullable_sound (seq r q) h =
    ([], [], refl, nullable_sound r (ground (arith)), nullable_sound q (ground (arith)))
nullable_sound (alt r q) h = elim (Bool-cases (nullable r)) [
  | inl left ↦ inl (nullable_sound r left)
  | inr right ↦ inr (nullable_sound q (ground (arith)))
]
nullable_sound (star r) h = stop refl

nullable_complete : (r : Regex) → Matches r [] → nullable r ≡ true
unfolding nullable Matches
nullable_complete fail h = absurd h
nullable_complete empty h = refl
nullable_complete (char p) (c, e, h) = absurd (cc)
nullable_complete (seq r q) (a, b, e, h, k) =
    let (first, second) = append-eq-nil a b (sym e) in
    let left = nullable_complete r (subst (Matches r) first h) in
    let right = nullable_complete q (subst (Matches q) second k) in rw (left, right) refl
nullable_complete (alt r q) (inl h) = rw (nullable_complete r h) refl
nullable_complete (alt r q) (inr h) = rw (nullable_complete q h) ground (arith)
nullable_complete (star r) h = refl

deriv_sound : (c : ℕ) (r : Regex) (s : Text) → Matches (deriv c r) s → Matches r (c ∷ s)
unfolding deriv Matches
deriv_sound c fail s h = h
deriv_sound c empty s h = absurd h
deriv_sound c (char p) s h = elim (Bool-cases (p c)) [
  | inl in_set ↦
      let nothing : s ≡ [] = subst (λ (b : Bool). Matches (if b then empty else fail) s) in_set h in
      (c, ap (λ t. c ∷ t) nothing, in_set)
  | inr apart ↦ absurd (subst (λ (b : Bool). Matches (if b then empty else fail) s) apart h)
]
deriv_sound c (seq r q) s h = elim (Bool-cases (nullable r)) [
  | inl null ↦
      elim (subst
        (λ (b : Bool).
          Matches (if b then alt (seq (deriv c r) q) (deriv c q) else seq (deriv c r) q) s)
        null h) [
          | inl (a, b, e, left, right) ↦
              (c ∷ a, b, ap (λ t. c ∷ t) e, deriv_sound c r a left, right)
          | inr right ↦ ([], c ∷ s, refl, nullable_sound r null, deriv_sound c q s right)
        ]
  | inr full ↦
      let (a, b, e, left, right) =
        subst
          (λ (b : Bool).
            Matches (if b then alt (seq (deriv c r) q) (deriv c q) else seq (deriv c r) q) s)
          full h in
      (c ∷ a, b, ap (λ t. c ∷ t) e, deriv_sound c r a left, right)
]
deriv_sound c (alt r q) s (inl h) = inl (deriv_sound c r s h)
deriv_sound c (alt r q) s (inr h) = inr (deriv_sound c q s h)
deriv_sound c (star r) s (a, b, e, first, rest) =
    more (c ∷ a) b (ap (λ t. c ∷ t) e) (deriv_sound c r a first) rest

-- A text that is no piece of nothing starts with a piece that is not empty.
Star-head :
    (P : Text → Type 0) (s : Text)
    → Star P s
    → (s ≡ []) ⊎ ((x : ℕ) × (a : Text) × (b : Text) × (s ≡ x ∷ (a ++ b)) × P (x ∷ a) × Star P b)
Star-head P s (stop e) = inl e
Star-head P s (more [] b e first rest) = elim (Star-head P b rest) [
  | inl none_left ↦ inl (e ∙ none_left)
  | inr (x, a', b', e', first', rest') ↦ inr (x, a', b', e ∙ e', first', rest')
]
Star-head P s (more (x ∷ a) b e first rest) = inr (x, a, b, e, first, rest)

cons-eq-cons : (x y : ℕ) (s t : Text) → Path Text (x ∷ s) (y ∷ t) → (x ≡ y) × (s ≡ t)
cons-eq-cons x y s t h = (cc, cc)

deriv_complete : (c : ℕ) (r : Regex) (s : Text) → Matches r (c ∷ s) → Matches (deriv c r) s
unfolding deriv Matches
deriv_complete c fail s h = h
deriv_complete c empty s h = absurd (cc)
deriv_complete c (char p) s (d, e, in_set) =
    let (same, nothing) = cons-eq-cons c d s [] e in
    let here : p c ≡ true = ap p same ∙ in_set in
    subst (λ (b : Bool). Matches (if b then empty else fail) s) (sym here) nothing
deriv_complete c (seq r q) s ([], b, e, h, k) =
    let null = nullable_complete r h in
    let right = deriv_complete c q s (subst (Matches q) (sym e) k) in
    subst
      (λ (b : Bool).
        Matches (if b then alt (seq (deriv c r) q) (deriv c q) else seq (deriv c r) q) s)
      (sym null) (inr right)
deriv_complete c (seq r q) s (x ∷ a, b, e, h, k) =
    let (same, rest) = cons-eq-cons c x s (a ++ b) e in
    let left = deriv_complete c r a (subst (λ y. Matches r (y ∷ a)) (sym same) h) in
    elim (Bool-cases (nullable r)) [
      | inl null ↦
          subst
            (λ (b : Bool).
              Matches (if b then alt (seq (deriv c r) q) (deriv c q) else seq (deriv c r) q) s)
            (sym null) (inl (a, b, rest, left, k))
      | inr full ↦
          subst
            (λ (b : Bool).
              Matches (if b then alt (seq (deriv c r) q) (deriv c q) else seq (deriv c r) q) s)
            (sym full) (a, b, rest, left, k)
    ]
deriv_complete c (alt r q) s (inl h) = inl (deriv_complete c r s h)
deriv_complete c (alt r q) s (inr h) = inr (deriv_complete c q s h)
deriv_complete c (star r) s h = elim (Star-head (Matches r) (c ∷ s) h) [
  | inl none_left ↦ absurd (cc)
  | inr (x, a, b, e, first, rest) ↦
      let (same, tail) = cons-eq-cons c x s (a ++ b) e in
      (a, b, tail, deriv_complete c r a (subst (λ y. Matches r (y ∷ a)) (sym same) first), rest)
]

-- The matcher accepts a text exactly if the text matches.
pub accepts-Matches : (r : Regex) (s : Text) → (accepts r s ≡ true) ↔ Matches r s
unfolding accepts
accepts-Matches r [] = (nullable_sound r, nullable_complete r)
accepts-Matches r (c ∷ s) =
    let (sound, complete) = accepts-Matches (deriv c r) s in
    (λ h. deriv_sound c r s (sound h), λ h. complete (deriv_complete c r s h))
