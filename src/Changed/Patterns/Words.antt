-- ===== src/Changed/Patterns/Words.antt =====
-- The texts that a regular expression without repetition matches, as a list.
use security_toolchain.Prelude.{
  ◌≡◌, refl, sym, ap, ◌∙◌, subst, inl, inr, ◌⊎◌, ◌↔◌, true, Bool, ℕ, List, [], ◌∷◌, ◌++◌, Text,
  nat_eq, nat_beq_iff, map, All,
}
use security_toolchain.Str.Regex.{
  Regex, fail, empty, char, seq, alt, star, Star, stop, more, Matches, lit, opt,
}

-- The text is one of the words.
abbrev pub IsOneOf : List Text → Text → Type 0
IsOneOf [] s = ⊥
IsOneOf (w ∷ ws) s = (s ≡ w) ⊎ IsOneOf ws s

-- The expression matches these words and no other text.
pub record HasWords (r : Regex) (words : List Text) : Type 0 where
  pub at : (s : Text) → Matches r s ↔ IsOneOf words s

pub lit_sound : (t s : Text) → Matches (lit t) s → s ≡ t
unfolding lit Matches
lit_sound [] s h = h
lit_sound (x ∷ t) s (a, b, e, (c, one, same), rest) =
    e
    ∙ ap (λ u. u ++ b) one
    ∙ ap (λ d. d ∷ b) ((nat_beq_iff c x).0 same)
    ∙ ap (λ u. x ∷ u) (lit_sound t b rest)

pub lit_complete : (t : Text) → Matches (lit t) t
unfolding lit Matches
lit_complete [] = refl
lit_complete (x ∷ t) = (x ∷ [], t, refl, (x, refl, (nat_beq_iff x x).1 refl), lit_complete t)

pub lit-HasWords : (t : Text) → HasWords (lit t) (t ∷ [])
lit-HasWords t = record {
  at = λ s. (
    λ h. inl (lit_sound t s h),
    λ found. elim found [
      | inl e ↦ subst (Matches (lit t)) (sym e) (lit_complete t)
      | inr none_left ↦ absurd none_left
    ],
  );
}

IsOneOf-append :
    (ws vs : List Text) (s : Text) → IsOneOf (ws ++ vs) s ↔ (IsOneOf ws s ⊎ IsOneOf vs s)
IsOneOf-append [] vs s = (λ h. inr h, λ found. elim found [ inl h ↦ absurd h | inr h ↦ h ])
IsOneOf-append (w ∷ ws) vs s =
    let (split, join) = IsOneOf-append ws vs s in
    (
      λ found. elim found [
        | inl e ↦ inl (inl e)
        | inr h ↦ (elim (split h) [ inl k ↦ inl (inr k) | inr k ↦ inr k ])
      ],
      λ found. elim found [
        | inl h ↦ (elim h [ inl e ↦ inl e | inr k ↦ inr (join (inl k)) ])
        | inr k ↦ inr (join (inr k))
      ],
    )

pub alt-HasWords :
    {r q : Regex} {ws vs : List Text}
    → HasWords r ws
    → HasWords q vs
    → HasWords (alt r q) (ws ++ vs)
unfolding Matches
alt-HasWords {r} {q} {ws} {vs} hr hq = record {
  at = λ s.
      let (split, join) = IsOneOf-append ws vs s in
      (
        λ h. elim h [ inl m ↦ join (inl ((hr.at s).0 m)) | inr m ↦ join (inr ((hq.at s).0 m)) ],
        λ found. elim (split found) [ inl k ↦ inl ((hr.at s).1 k) | inr k ↦ inr ((hq.at s).1 k) ],
      );
}

pub opt-HasWords : {r : Regex} {ws : List Text} → HasWords r ws → HasWords (opt r) ([] ∷ ws)
unfolding Matches
opt-HasWords hr = record {
  at = λ s. (
    λ h. elim h [ inl e ↦ inl e | inr m ↦ inr ((hr.at s).0 m) ],
    λ found. elim found [ inl e ↦ inl e | inr k ↦ inr ((hr.at s).1 k) ],
  );
}

pub fail-HasWords : HasWords fail []
unfolding Matches
fail-HasWords = record { at = λ s. (λ h. h, λ h. h) }

IsOneOf-map :
    (t : Text) (ws : List Text) (s : Text)
    → IsOneOf (map (λ w. t ++ w) ws) s ↔ ((b : Text) × (s ≡ t ++ b) × IsOneOf ws b)
IsOneOf-map t [] s = (λ h. absurd h, λ (b, e, k). k)
IsOneOf-map t (w ∷ ws) s =
    let (split, join) = IsOneOf-map t ws s in
    (
      λ found. elim found [
        | inl e ↦ (w, e, inl refl)
        | inr h ↦ let (b, e, k) = split h in (b, e, inr k)
      ],
      λ (b, e, found). elim found [
        | inl same ↦ inl (e ∙ ap (λ u. t ++ u) same)
        | inr k ↦ inr (join (b, e, k))
      ],
    )

pub seq-HasWords :
    (t : Text) {q : Regex} {ws : List Text}
    → HasWords q ws
    → HasWords (seq (lit t) q) (map (λ w. t ++ w) ws)
unfolding Matches
seq-HasWords t {q} {ws} hq = record {
  at = λ s.
      let (split, join) = IsOneOf-map t ws s in
      (
        λ (a, b, e, first, rest).
            join (b, e ∙ ap (λ u. u ++ b) (lit_sound t a first), (hq.at b).0 rest),
        λ h. let (b, e, k) = split h in (t, b, e, lit_complete t, (hq.at b).1 k),
      );
}

pub empty-HasWords : HasWords empty ([] ∷ [])
unfolding Matches
empty-HasWords = record {
  at = λ s. (λ h. inl h, λ found. elim found [ inl e ↦ e | inr k ↦ absurd k ]);
}

-- Every word of the one list before every word of the other.
abbrev pub products : List Text → List Text → List Text
products [] vs = []
products (w ∷ ws) vs = map (λ v. w ++ v) vs ++ products ws vs

pub IsOneOf-products :
    (ws vs : List Text) (s : Text)
    → IsOneOf (products ws vs) s
      ↔ ((a : Text) × (b : Text) × (s ≡ a ++ b) × IsOneOf ws a × IsOneOf vs b)
IsOneOf-products [] vs s = (λ h. absurd h, λ (a, b, e, k, l). absurd k)
IsOneOf-products (w ∷ ws) vs s =
    let (split, join) = IsOneOf-append (map (λ v. w ++ v) vs) (products ws vs) s in
    let (here, back) = IsOneOf-map w vs s in
    let (later, there) = IsOneOf-products ws vs s in
    (
      λ h. elim (split h) [
        | inl k ↦ let (b, e, l) = here k in (w, b, e, inl refl, l)
        | inr k ↦ let (a, b, e, m, l) = later k in (a, b, e, inr m, l)
      ],
      λ (a, b, e, found, l). elim found [
        | inl same ↦ join (inl (back (b, e ∙ ap (λ u. u ++ b) same, l)))
        | inr m ↦ join (inr (there (a, b, e, m, l)))
      ],
    )

pub pair-HasWords :
    {r q : Regex} {ws vs : List Text}
    → HasWords r ws
    → HasWords q vs
    → HasWords (seq r q) (products ws vs)
unfolding Matches
pair-HasWords {r} {q} {ws} {vs} hr hq = record {
  at = λ s.
      let (split, join) = IsOneOf-products ws vs s in
      (
        λ (a, b, e, m, n). join (a, b, e, (hr.at a).0 m, (hq.at b).0 n),
        λ h. let (a, b, e, k, l) = split h in (a, b, e, (hr.at a).1 k, (hq.at b).1 l),
      );
}

row_sound : (p : ℕ → Bool) (s : Text) → Star (Matches (char p)) s → All (λ c. p c ≡ true) s
unfolding Matches
row_sound p s (stop e) = subst (All (λ c. p c ≡ true)) (sym e) tt
row_sound p s (more a b e (c, one, h) rest) =
    subst (All (λ c. p c ≡ true)) {x = c ∷ b} (sym (e ∙ ap (λ u. u ++ b) one))
      (h, row_sound p b rest)

row_complete : (p : ℕ → Bool) (s : Text) → All (λ c. p c ≡ true) s → Star (Matches (char p)) s
unfolding Matches
row_complete p [] h = stop refl
row_complete p (c ∷ s) (h, hs) = more (c ∷ []) s refl (c, refl, h) (row_complete p s hs)

-- A row of characters.
pub star-All : (p : ℕ → Bool) (s : Text) → Matches (star (char p)) s ↔ All (λ c. p c ≡ true) s
unfolding Matches
star-All p s = (row_sound p s, row_complete p s)
