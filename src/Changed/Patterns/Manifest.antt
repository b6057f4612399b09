-- ===== src/Changed/Patterns/Manifest.antt =====
-- The manifests of MANIFEST_RE, named without a regular expression.
use security_toolchain.Prelude.{
  ◌≡◌, refl, ap, ◌∙◌, inl, inr, ◌⊎◌, ◌↔◌, true, not, List, [], ◌∷◌, ◌++◌, Text, text, ◌==◌, nat_eq,
  All,
}
use security_toolchain.Str.Regex.{Matches, lit, alts}
use security_toolchain.Changed.Patterns.{in_turn, segment, manifest_names}
use security_toolchain.Changed.Patterns.Words.{
  IsOneOf, lit_sound, lit_complete, lit-HasWords, alt-HasWords, opt-HasWords, fail-HasWords,
  seq-HasWords, star-All,
}

-- The names that are told in full.
abbrev pub manifests : List Text
manifests =
    text "pyproject.toml"
    ∷ text "setup.py"
    ∷ text "setup.cfg"
    ∷ text "uv.lock"
    ∷ text "poetry.lock"
    ∷ text "Pipfile"
    ∷ text "Pipfile.lock"
    ∷ text "package.json"
    ∷ text "package-lock.json"
    ∷ text "pnpm-lock.yaml"
    ∷ text "yarn.lock"
    ∷ text "bun.lock"
    ∷ text "bun.lockb"
    ∷ text "go.mod"
    ∷ text "go.sum"
    ∷ text "Cargo.toml"
    ∷ text "Cargo.lock"
    ∷ text "Gemfile"
    ∷ text "Gemfile.lock"
    ∷ text "composer.json"
    ∷ text "composer.lock"
    ∷ text "pixi.toml"
    ∷ text "pixi.lock"
    ∷ text "osv-scanner.toml"
    ∷ []

-- requirements*.txt, where no slash stands for the star
abbrev pub IsRequirements : Text → Type 0
IsRequirements name =
    (middle : Text) × (name ≡ text "requirements" ++ (middle ++ text ".txt"))
    × All (λ c. not (c == b'/') ≡ true) middle

abbrev pub IsManifestName : Text → Type 0
IsManifestName name = IsRequirements name ⊎ IsOneOf manifests name

IsRequirements-iff :
    (s : Text)
    → Matches (in_turn (lit (text "requirements") ∷ segment ∷ lit (text ".txt") ∷ [])) s
      ↔ IsRequirements s
unfolding Matches in_turn
IsRequirements-iff s = (
  λ (a, b, e, start, (middle, d, f, star_part, (dot, nothing, g, txt, empty_end))).
      let tail =
        g
        ∙ ap (λ u. u ++ nothing) (lit_sound (text ".txt") dot txt)
        ∙ ap (λ u. text ".txt" ++ u) empty_end in
      (
        middle,
        e
            ∙ ap (λ u. u ++ b) (lit_sound (text "requirements") a start)
            ∙ ap (λ u. text "requirements" ++ u) (f ∙ ap (λ u. middle ++ u) tail),
        (star-All _ middle).0 star_part,
      ),
  λ (middle, e, free). (
    text "requirements",
    middle ++ text ".txt",
    e,
    lit_complete (text "requirements"),
    (
      middle,
      text ".txt",
      refl,
      (star-All _ middle).1 free,
      (text ".txt", [], refl, lit_complete (text ".txt"), refl),
    ),
  ),
)

pub manifest_names_iff : (s : Text) → Matches manifest_names s ↔ IsManifestName s
unfolding Matches manifest_names alts
manifest_names_iff s =
    let (there, back) = IsRequirements-iff s in
    let rest = alt-HasWords (lit-HasWords (text "pyproject.toml")) (
      alt-HasWords (lit-HasWords (text "setup.py")) (
        alt-HasWords (lit-HasWords (text "setup.cfg")) (
          alt-HasWords (lit-HasWords (text "uv.lock")) (
            alt-HasWords (lit-HasWords (text "poetry.lock")) (
              alt-HasWords
                (seq-HasWords (text "Pipfile") (opt-HasWords (lit-HasWords (text ".lock"))))
                (alt-HasWords (lit-HasWords (text "package.json")) (
                  alt-HasWords (lit-HasWords (text "package-lock.json")) (
                    alt-HasWords (lit-HasWords (text "pnpm-lock.yaml")) (
                      alt-HasWords (lit-HasWords (text "yarn.lock")) (
                        alt-HasWords
                          (seq-HasWords (text "bun.lock") (opt-HasWords (lit-HasWords (text "b"))))
                          (alt-HasWords (lit-HasWords (text "go.mod")) (
                            alt-HasWords (lit-HasWords (text "go.sum")) (
                              alt-HasWords
                                (seq-HasWords (text "Cargo.") (
                                  alt-HasWords (lit-HasWords (text "toml"))
                                    (lit-HasWords (text "lock"))))
                                (alt-HasWords
                                  (seq-HasWords (text "Gemfile")
                                    (opt-HasWords (lit-HasWords (text ".lock"))))
                                  (alt-HasWords
                                    (seq-HasWords (text "composer.") (
                                      alt-HasWords (lit-HasWords (text "json"))
                                        (lit-HasWords (text "lock"))))
                                    (alt-HasWords
                                      (seq-HasWords (text "pixi.") (
                                        alt-HasWords (lit-HasWords (text "toml"))
                                          (lit-HasWords (text "lock"))))
                                      (alt-HasWords (lit-HasWords (text "osv-scanner.toml"))
                                        fail-HasWords))))))))))))))))) in
    (
      λ h. elim h [ inl r ↦ inl (there r) | inr m ↦ inr ((rest.at s).0 m) ],
      λ found. elim found [ inl r ↦ inl (back r) | inr k ↦ inr ((rest.at s).1 k) ],
    )
