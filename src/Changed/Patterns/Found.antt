-- ===== src/Changed/Patterns/Found.antt =====
-- The files that MANIFEST_RE and IAC_RE find, named without a regular expression.
use security_toolchain.Prelude.{
  ◌≡◌, refl, ◌∙◌, sym, ap, inl, inr, ◌⊎◌, ◌↔◌, true, List, [], ◌∷◌, ◌++◌, Text, text, All,
  Bool-cases, arith,
}
use security_toolchain.Str.Regex.{seq, Matches, lit, opt, alts}
use security_toolchain.Str.Regex.Accepts.{accepts-Matches}
use security_toolchain.Changed.Patterns.{
  in_turn, yaml, infrastructure_names, manifest_names, infrastructure_directory, is_named,
  is_manifest, is_infrastructure,
}
use security_toolchain.Changed.Patterns.Words.{
  IsOneOf, HasWords, lit_sound, lit_complete, lit-HasWords, alt-HasWords, opt-HasWords,
  empty-HasWords, fail-HasWords, pair-HasWords, star-All,
}
use security_toolchain.Changed.Patterns.Shapes.{
  Shape, plain, starred, HasAnyShape, IsShaped-plain, IsShaped-last, IsShaped-segment,
  IsShaped-first, IsAnyShaped, IsAnyShaped-fail, IsAnyShaped-alt, append_nil,
}
use security_toolchain.Changed.Patterns.Named.{EndsIn, is_named-EndsIn}
use security_toolchain.Changed.Patterns.Manifest.{IsManifestName, manifest_names_iff}

abbrev pub yaml_ends : List Text
yaml_ends = text ".yml" ∷ text ".yaml" ∷ []

-- The names of infrastructure files: a shape with a star stands for any text without a slash there.
abbrev pub infrastructure_shapes : List Shape
infrastructure_shapes =
    starred (text "Dockerfile" ∷ []) ([] ∷ [])
    ∷ starred ([] ∷ []) (text ".dockerfile" ∷ [])
    ∷ starred (text "compose" ∷ text "docker-compose" ∷ []) yaml_ends
    ∷ starred ([] ∷ []) (text ".tf" ∷ [])
    ∷ starred ([] ∷ []) (text ".tfvars" ∷ [])
    ∷ starred ([] ∷ []) (text ".bicep" ∷ [])
    ∷ starred ([] ∷ []) (text ".bicepparam" ∷ [])
    ∷ plain (text "Chart.yml" ∷ text "Chart.yaml" ∷ [])
    ∷ starred (text "values" ∷ []) yaml_ends
    ∷ plain (text "kustomization.yml" ∷ text "kustomization.yaml" ∷ [])
    ∷ plain (text "trivy.yaml" ∷ [])
    ∷ plain (text ".trivyignore" ∷ [])
    ∷ []

-- The directories at the root whose files are all infrastructure.
abbrev pub infrastructure_directories : List Text
infrastructure_directories =
    text "infra"
    ∷ text "infrastructure"
    ∷ text "deploy"
    ∷ text "deployment"
    ∷ text "chart"
    ∷ text "charts"
    ∷ text "helm"
    ∷ text "k8s"
    ∷ text "kubernetes"
    ∷ text "manifests"
    ∷ text "terraform"
    ∷ []

yaml-HasWords : HasWords yaml yaml_ends
unfolding in_turn
yaml-HasWords = pair-HasWords (lit-HasWords (text ".y")) (
    pair-HasWords (opt-HasWords (lit-HasWords (text "a")))
      (pair-HasWords (lit-HasWords (text "ml")) empty-HasWords))

infrastructure-IsAnyShaped : IsAnyShaped infrastructure_names infrastructure_shapes
unfolding infrastructure_names alts in_turn
infrastructure-IsAnyShaped =
    let ends = pair-HasWords yaml-HasWords empty-HasWords in
    IsAnyShaped-alt (IsShaped-first (lit-HasWords (text "Dockerfile")) IsShaped-segment) (
      IsAnyShaped-alt (IsShaped-last (lit-HasWords (text ".dockerfile"))) (
        IsAnyShaped-alt
          (IsShaped-first (opt-HasWords (lit-HasWords (text "docker-")))
            (IsShaped-first (lit-HasWords (text "compose")) (IsShaped-last ends)))
          (IsAnyShaped-alt (IsShaped-last (lit-HasWords (text ".tf"))) (
            IsAnyShaped-alt (IsShaped-last (lit-HasWords (text ".tfvars"))) (
              IsAnyShaped-alt (IsShaped-last (lit-HasWords (text ".bicep"))) (
                IsAnyShaped-alt (IsShaped-last (lit-HasWords (text ".bicepparam"))) (
                  IsAnyShaped-alt
                    (IsShaped-plain (pair-HasWords (lit-HasWords (text "Chart")) yaml-HasWords))
                    (IsAnyShaped-alt
                      (IsShaped-first (lit-HasWords (text "values")) (IsShaped-last ends))
                      (IsAnyShaped-alt
                        (IsShaped-plain
                          (pair-HasWords (lit-HasWords (text "kustomization")) yaml-HasWords))
                        (IsAnyShaped-alt (IsShaped-plain (lit-HasWords (text "trivy.yaml"))) (
                          IsAnyShaped-alt (IsShaped-plain (lit-HasWords (text ".trivyignore")))
                            IsAnyShaped-fail)))))))))))

-- The path lies below one of these directories, which the path starts with.
abbrev pub IsBelowOneOf : List Text → Text → Type 0
IsBelowOneOf directories path =
    (directory : Text) × (rest : Text) × IsOneOf directories directory
    × (path ≡ directory ++ (b'/' ∷ rest))

directories-HasWords :
    HasWords
      (alts (
        lit (text "infra")
        ∷ lit (text "infrastructure")
        ∷ lit (text "deploy")
        ∷ lit (text "deployment")
        ∷ seq (lit (text "chart")) (opt (lit (text "s")))
        ∷ lit (text "helm")
        ∷ lit (text "k8s")
        ∷ lit (text "kubernetes")
        ∷ lit (text "manifests")
        ∷ lit (text "terraform")
        ∷ []))
      infrastructure_directories
unfolding alts
directories-HasWords = alt-HasWords (lit-HasWords (text "infra")) (
    alt-HasWords (lit-HasWords (text "infrastructure")) (
      alt-HasWords (lit-HasWords (text "deploy")) (
        alt-HasWords (lit-HasWords (text "deployment")) (
          alt-HasWords
            (pair-HasWords (lit-HasWords (text "chart")) (opt-HasWords (lit-HasWords (text "s"))))
            (alt-HasWords (lit-HasWords (text "helm")) (
              alt-HasWords (lit-HasWords (text "k8s")) (
                alt-HasWords (lit-HasWords (text "kubernetes")) (
                  alt-HasWords (lit-HasWords (text "manifests"))
                    (alt-HasWords (lit-HasWords (text "terraform")) fail-HasWords)))))))))

anything : (s : Text) → All (λ c. true ≡ true) s
anything [] = tt
anything (c ∷ s) = (refl, anything s)

directory_iff :
    (path : Text)
    → Matches infrastructure_directory path ↔ IsBelowOneOf infrastructure_directories path
unfolding Matches infrastructure_directory in_turn
directory_iff path = (
  λ (directory, b, e, named, (slash, c, f, single, (rest, end, g, row, nothing))). (
    directory,
    c,
    (directories-HasWords.at directory).0 named,
    e ∙ ap (λ u. directory ++ u) (f ∙ ap (λ u. u ++ c) (lit_sound (text "/") slash single)),
  ),
  λ (directory, rest, k, e). (
    directory,
    b'/' ∷ rest,
    e,
    (directories-HasWords.at directory).1 k,
    (
      text "/",
      rest,
      refl,
      lit_complete (text "/"),
      (rest, [], sym (append_nil rest), (star-All _ rest).1 (anything rest), refl),
    ),
  ),
)

-- A path is a manifest exactly if it is, or ends in a slash and, requirements*.txt with no slash in place
-- of the star or one of the 24 names that the list manifests tells in full. It is an infrastructure file
-- exactly if it is, or ends in a slash and, a name of one of the infrastructure_shapes with no slash in
-- place of the star, or if it lies below one of the infrastructure_directories, at the root. One line
-- feed may follow a name.
pub is_manifest-is_infrastructure_iff :
    (path : Text)
    → ((is_manifest path ≡ true) ↔ EndsIn IsManifestName path)
      × ((is_infrastructure path ≡ true) ↔ (
          EndsIn (HasAnyShape infrastructure_shapes) path
          ⊎ IsBelowOneOf infrastructure_directories path))
unfolding is_manifest is_infrastructure
is_manifest-is_infrastructure_iff path =
    let (sound, complete) =
      is_named-EndsIn infrastructure_names (HasAnyShape infrastructure_shapes)
        (λ s. infrastructure-IsAnyShaped.at s) path in
    let (matched, matching) = accepts-Matches infrastructure_directory path in
    let (there, back) = directory_iff path in
    (
      is_named-EndsIn manifest_names IsManifestName manifest_names_iff path,
      (
        λ h. elim (Bool-cases (is_named infrastructure_names path)) [
          | inl named ↦ inl (sound named)
          | inr missed ↦ inr (there (matched (ground (arith))))
        ],
        λ found. elim found [
          | inl named ↦ rw (complete named) refl
          | inr directory ↦ rw (matching (back directory)) ground (arith)
        ],
      ),
    )
