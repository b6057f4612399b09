-- ===== src/Tests/Patterns.antt =====
-- Paths that MANIFEST_RE and IAC_RE find, and paths that they do not find.
use security_toolchain.Prelude.{◌≡◌, ◌↔◌, ◌⊎◌, refl, true, false, text}
use security_toolchain.Changed.Patterns.{is_manifest, is_infrastructure}
use security_toolchain.Changed.Patterns.Shapes.{HasAnyShape}
use security_toolchain.Changed.Patterns.Named.{EndsIn}
use security_toolchain.Changed.Patterns.Manifest.{IsManifestName}
use security_toolchain.Changed.Patterns.Found.{
  infrastructure_shapes, infrastructure_directories, IsBelowOneOf,
  is_manifest-is_infrastructure_iff,
}

requirements : is_manifest (text "api/requirements-dev.txt") ≡ true
unfolding is_manifest
requirements = refl

no_requirements : is_manifest (text "requirements/dev.txt") ≡ false
unfolding is_manifest
no_requirements = refl

bun_lock : is_manifest (text "bun.lockb") ≡ true
unfolding is_manifest
bun_lock = refl

compose : is_infrastructure (text "a/docker-compose.prod.yml") ≡ true
unfolding is_infrastructure
compose = refl

at_root : is_infrastructure (text "k8s/x.py") ≡ true
unfolding is_infrastructure
at_root = refl

not_at_root : is_infrastructure (text "src/k8s/x.py") ≡ false
unfolding is_infrastructure
not_at_root = refl

unanchored : is_manifest (text "uv.lock.bak") ≡ false
unfolding is_manifest
unanchored = refl

is_manifest-is_infrastructure_iff_example :
    ((is_manifest (text "a/uv.lock") ≡ true) ↔ EndsIn IsManifestName (text "a/uv.lock"))
    × ((is_infrastructure (text "a/uv.lock") ≡ true) ↔ (
        EndsIn (HasAnyShape infrastructure_shapes) (text "a/uv.lock")
        ⊎ IsBelowOneOf infrastructure_directories (text "a/uv.lock")))
is_manifest-is_infrastructure_iff_example = is_manifest-is_infrastructure_iff (text "a/uv.lock")
