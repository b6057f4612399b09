-- ===== src/Changed/Patterns.antt =====
-- MANIFEST_RE and IAC_RE of changed.py.
pub mod Words
pub mod Shapes
pub mod Manifest
pub mod Found
pub mod Named
use security_toolchain.Prelude.{
  ℕ, Bool, true, false, not, ◌||◌, ◌&&◌, List, [], ◌∷◌, Text, text, ◌==◌, nat_eq, map,
}
use security_toolchain.Str.Regex.{Regex, empty, char, seq, alt, star, accepts, lit, opt, alts}

-- One after the other.
unfoldable pub in_turn : List Regex → Regex
in_turn [] = empty
in_turn (r ∷ rs) = seq r (in_turn rs)

-- `[^/]*`
abbrev pub segment : Regex
segment = star (char (λ c. not (c == b'/')))

-- `\.ya?ml`
abbrev pub yaml : Regex
yaml = in_turn (lit (text ".y") ∷ opt (lit (text "a")) ∷ lit (text "ml") ∷ [])

-- The names of MANIFEST_RE.
unfoldable pub manifest_names : Regex
unfolding in_turn lit alts
manifest_names = alts (
    in_turn (lit (text "requirements") ∷ segment ∷ lit (text ".txt") ∷ [])
    ∷ lit (text "pyproject.toml")
    ∷ lit (text "setup.py")
    ∷ lit (text "setup.cfg")
    ∷ lit (text "uv.lock")
    ∷ lit (text "poetry.lock")
    ∷ seq (lit (text "Pipfile")) (opt (lit (text ".lock")))
    ∷ lit (text "package.json")
    ∷ lit (text "package-lock.json")
    ∷ lit (text "pnpm-lock.yaml")
    ∷ lit (text "yarn.lock")
    ∷ seq (lit (text "bun.lock")) (opt (lit (text "b")))
    ∷ lit (text "go.mod")
    ∷ lit (text "go.sum")
    ∷ seq (lit (text "Cargo.")) (alt (lit (text "toml")) (lit (text "lock")))
    ∷ seq (lit (text "Gemfile")) (opt (lit (text ".lock")))
    ∷ seq (lit (text "composer.")) (alt (lit (text "json")) (lit (text "lock")))
    ∷ seq (lit (text "pixi.")) (alt (lit (text "toml")) (lit (text "lock")))
    ∷ lit (text "osv-scanner.toml")
    ∷ [])

-- The names of IAC_RE.
unfoldable pub infrastructure_names : Regex
unfolding in_turn lit alts
infrastructure_names = alts (
    seq (lit (text "Dockerfile")) segment
    ∷ seq segment (lit (text ".dockerfile"))
    ∷ in_turn (opt (lit (text "docker-")) ∷ lit (text "compose") ∷ segment ∷ yaml ∷ [])
    ∷ seq segment (lit (text ".tf"))
    ∷ seq segment (lit (text ".tfvars"))
    ∷ seq segment (lit (text ".bicep"))
    ∷ seq segment (lit (text ".bicepparam"))
    ∷ seq (lit (text "Chart")) yaml
    ∷ in_turn (lit (text "values") ∷ segment ∷ yaml ∷ [])
    ∷ seq (lit (text "kustomization")) yaml
    ∷ lit (text "trivy.yaml")
    ∷ lit (text ".trivyignore")
    ∷ [])

-- The second part of IAC_RE: a directory at the root, and anything below it.
unfoldable pub infrastructure_directory : Regex
unfolding in_turn lit alts
infrastructure_directory = in_turn (
    alts (
      lit (text "infra")
      ∷ lit (text "infrastructure")
      ∷ lit (text "deploy")
      ∷ lit (text "deployment")
      ∷ seq (lit (text "chart")) (opt (lit (text "s")))
      ∷ lit (text "helm")
      ∷ lit (text "k8s")
      ∷ lit (text "kubernetes")
      ∷ lit (text "manifests")
      ∷ lit (text "terraform")
      ∷ [])
    ∷ lit (text "/")
    ∷ star (char (λ c. true))
    ∷ [])

-- `r$`: the end, or a line feed that ends the text.
unfoldable pub at_end : Regex → Regex
unfolding lit
at_end r = seq r (opt (lit (text "\n")))

-- The name stands after a slash.
unfoldable pub after_slash : Regex → Text → Bool
unfolding accepts
after_slash r [] = false
after_slash r (c ∷ s) = let rest = after_slash r s in (c == b'/' && accepts r s) || rest

-- re.search(r"(^|/)(r)$", s)
unfoldable pub is_named : Regex → Text → Bool
unfolding accepts at_end after_slash
is_named r s = accepts (at_end r) s || after_slash (at_end r) s

-- MANIFEST_RE.search(path)
unfoldable pub is_manifest : Text → Bool
unfolding is_named manifest_names
is_manifest path = is_named manifest_names path

-- IAC_RE.search(path)
unfoldable pub is_infrastructure : Text → Bool
unfolding is_named infrastructure_names accepts infrastructure_directory
is_infrastructure path = is_named infrastructure_names path || accepts infrastructure_directory path
