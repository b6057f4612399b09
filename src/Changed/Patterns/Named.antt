-- ===== src/Changed/Patterns/Named.antt =====
-- The paths that MANIFEST_RE and IAC_RE find.
use security_toolchain.Prelude.{
  ◌≡◌, refl, sym, ap, ◌∙◌, text, subst, inl, inr, ◌⊎◌, ◌↔◌, true, ◌&&◌, [], ◌∷◌, ◌++◌, Text, ◌==◌,
  nat_eq, nat_beq_iff, Bool-cases, arith,
}
use security_toolchain.Str.Regex.{Regex, Matches, accepts, lit, opt}
use security_toolchain.Str.Regex.Accepts.{accepts-Matches}
use security_toolchain.Changed.Patterns.Words.{IsOneOf, HasWords, lit-HasWords, opt-HasWords}
use security_toolchain.Changed.Patterns.{at_end, after_slash, is_named}

-- The end of the path that follows its start or a slash matches.
pub data IsNamed (r : Regex) (path : Text) : Type 0 where
  whole : Matches (at_end r) path → IsNamed r path
  below :
      (directory name : Text)
      → path ≡ directory ++ (b'/' ∷ name)
      → Matches (at_end r) name
      → IsNamed r path

after_slash_sound :
    (r : Regex) (s : Text)
    → after_slash r s ≡ true
    → (directory : Text) × (name : Text) × (s ≡ directory ++ (b'/' ∷ name)) × Matches r name
unfolding after_slash
after_slash_sound r [] h = absurd (cc)
after_slash_sound r (c ∷ s) h = elim (Bool-cases (c == b'/' && accepts r s)) [
  | inl found ↦
      let slash : c ≡ b'/' = (nat_beq_iff c b'/').0 (ground (arith)) in
      ([], s, ap (λ d. d ∷ s) slash, (accepts-Matches r s).0 (ground (arith)))
  | inr later ↦
      let (directory, name, e, m) = after_slash_sound r s (ground (arith)) in
      (c ∷ directory, name, ap (λ t. c ∷ t) e, m)
]

after_slash_complete :
    (r : Regex) (directory name : Text)
    → Matches r name
    → after_slash r (directory ++ (b'/' ∷ name)) ≡ true
unfolding after_slash
after_slash_complete r [] name m = rw ((accepts-Matches r name).1 m) refl
after_slash_complete r (c ∷ directory) name m =
    ground (arith, after_slash_complete r directory name m)

is_named_iff : (r : Regex) (path : Text) → (is_named r path ≡ true) ↔ IsNamed r path
unfolding is_named
is_named_iff r path = (
  λ h. elim (Bool-cases (accepts (at_end r) path)) [
    | inl found ↦ whole ((accepts-Matches (at_end r) path).0 found)
    | inr missed ↦
        let (directory, name, e, m) = after_slash_sound (at_end r) path (ground (arith)) in
        below directory name e m
  ],
  λ named. elim named [
    | whole m ↦ rw ((accepts-Matches (at_end r) path).1 m) refl
    | below directory name e m ↦
        let found : after_slash (at_end r) path ≡ true =
          subst (λ s. after_slash (at_end r) s ≡ true) (sym e)
            (after_slash_complete (at_end r) directory name m) in
        ground (arith, found)
  ],
)

-- The end of a text for `$`: nothing, or one line feed.
abbrev pub IsEnd : Text → Type 0
IsEnd = IsOneOf ([] ∷ text "\n" ∷ [])

-- The path is such a name, or ends in a slash and such a name; one line feed may follow.
abbrev pub EndsIn : (Text → Type 0) → Text → Type 0
EndsIn P path =
    (name : Text) × (end : Text) × P name
    × IsEnd end
    × ((path ≡ name ++ end) ⊎ ((directory : Text) × (path ≡ directory ++ (b'/' ∷ (name ++ end)))))

end-HasWords : HasWords (opt (lit (text "\n"))) ([] ∷ text "\n" ∷ [])
end-HasWords = opt-HasWords (lit-HasWords (text "\n"))

module _ (r : Regex) (P : Text → Type 0) (matches : (s : Text) → Matches r s ↔ P s) where
  ended_iff :
      (s : Text)
      → Matches (at_end r) s
        ↔ ((name : Text) × (end : Text) × P name × IsEnd end × (s ≡ name ++ end))
  unfolding Matches at_end
  ended_iff s = (
    λ (name, end, e, named, ended).
        (name, end, (matches name).0 named, (end-HasWords.at end).0 ended, e),
    λ (name, end, named, ended, e).
        (name, end, e, (matches name).1 named, (end-HasWords.at end).1 ended),
  )

  -- The search finds such a name as the whole path or after a slash.
  pub is_named-EndsIn : (path : Text) → (is_named r path ≡ true) ↔ EndsIn P path
  is_named-EndsIn path =
      let (there, back) = is_named_iff r path in
      (
        λ h. elim (there h) [
          | whole m ↦
              let (name, end, named, ended, e) = (ended_iff path).0 m in
              (name, end, named, ended, inl e)
          | below directory rest e m ↦
              let (name, end, named, ended, f) = (ended_iff rest).0 m in
              (name, end, named, ended, inr (directory, e ∙ ap (λ t. directory ++ (b'/' ∷ t)) f))
        ],
        λ (name, end, named, ended, place). elim place [
          | inl e ↦ back (whole ((ended_iff path).1 (name, end, named, ended, e)))
          | inr (directory, e) ↦ back (
              below directory (name ++ end) e
                ((ended_iff (name ++ end)).1 (name, end, named, ended, refl)))
        ],
      )
