-- ===== src/Tests/Lock.antt =====
-- A lock that passes, and the theorems of lock.py applied to it.
use security_toolchain.Prelude.{
  ◌≡◌, refl, pos, Text, text, true, List, [], ◌∷◌, some, contains, any, text_eq,
}
use security_toolchain.Prelude.Result.{ok}
use security_toolchain.Json.{Json, Fields, int, str, obj, end, field}
use security_toolchain.Lock.{tool_names, platforms, platform_key, validate_lock, asset_for}
use security_toolchain.Lock.Accepted.{IsPinned, validate_lock-asset_for, platform_key-covered}

abbrev pub digest : Text
digest = text "0123456789abcdef0123456789abcdef0123456789abcdef0123456789abcdef"

abbrev pub asset : Fields
asset =
    field (text "url") (str (text "https://github.com/a/b/v8.1/b"))
      (field (text "sha256") (str digest) end)

abbrev pub for_each : List Text → Json → Fields
for_each [] v = end
for_each (k ∷ ks) v = field k v (for_each ks v)

abbrev pub spec : Json
spec = obj (
    field (text "version") (str (text "8.1"))
      (field (text "assets") (obj (for_each platforms (obj asset))) end))

abbrev pub lock : Json
lock = obj (
    field (text "schema") (int (pos 1)) (field (text "tools") (obj (for_each tool_names spec)) end))

lock-accepted : validate_lock lock ≡ ok tt
unfolding validate_lock
lock-accepted = refl

abbrev pub shown_text : Json → Text
shown_text (str s) = s
shown_text _ = []

validate_lock-asset_for_example :
    (version : Text) × (fs : Fields) × (asset_for shown_text lock
        (text "trivy")
        (text "linux-x86_64")
      ≡ ok (shown_text (str version), obj fs))
    × IsPinned fs version
unfolding contains any
validate_lock-asset_for_example =
    validate_lock-asset_for shown_text lock lock-accepted (text "trivy") (text "linux-x86_64") refl
      refl

arm_linux : platform_key (text "Linux") (text "aarch64") ≡ some (text "linux-aarch64")
unfolding platform_key
arm_linux = refl

platform_key-covered_example : contains platforms (text "linux-aarch64") ≡ true
platform_key-covered_example = platform_key-covered (text "Linux") (text "aarch64") arm_linux
