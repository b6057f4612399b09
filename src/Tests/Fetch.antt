-- ===== src/Tests/Fetch.antt =====
-- A first fetch of a tool and an extraction, with the theorems about them.
use security_toolchain.Prelude.{
  ℕ, ◌≡◌, refl, true, false, Option, none, some, List, [], ◌∷◌, Text, text, nat_eq, ◌==◌, text_eq,
  if◌then◌else◌, All,
}
use security_toolchain.Prelude.Result.{ok}
use security_toolchain.Json.{Json}
use security_toolchain.Fetch.{
  Bytes, Disk, Outside, Member, download_verified, tool_path, target_path, replace_file,
  safe_extract,
}
use security_toolchain.Fetch.Verified.{
  IsRead, IsInstalled, download_verified_iff, tool_path-IsInstalled,
}
use security_toolchain.Fetch.Extract.{IsBelow, safe_extract-IsBelow}
use security_toolchain.Lock.{asset_for}
use security_toolchain.Tests.Lock.{digest, lock, shown_text}

-- The second attempt succeeds.
abbrev flaky : ℕ → Option Bytes
flaky attempt = if attempt == 1 then none else some (text "binary")

abbrev constant_digest : Bytes → Text
constant_digest content = digest

abbrev outside : Outside
outside = record {
  get = λ url. flaky;
  sha256 = constant_digest;
  members = λ content. [];
  offline = false;
  cache = text "/c";
  show = shown_text;
}

abbrev empty_disk : Disk
empty_disk = λ path. none

download_verified_iff_example :
    (download_verified flaky constant_digest digest 3 ≡ ok (text "binary")
      → IsRead flaky (text "binary") 3 1 × (constant_digest (text "binary") ≡ digest))
    × (IsRead flaky (text "binary") 3 1 × (constant_digest (text "binary") ≡ digest)
        → download_verified flaky constant_digest digest 3 ≡ ok (text "binary"))
download_verified_iff_example = download_verified_iff flaky constant_digest digest 3 (text "binary")

abbrev target : Text
target = text "/c/trivy/8.1/trivy"

fetched-disk :
    tool_path outside empty_disk lock (text "linux-x86_64") (text "trivy")
    ≡ ok (target, replace_file empty_disk target (text "binary"))
unfolding tool_path
fetched-disk = refl

tool_path-IsInstalled_example :
    (version : Text) × (pinned : Json) × (asset_for shown_text lock
        (text "trivy")
        (text "linux-x86_64")
      ≡ ok (version, pinned))
    × (target ≡ target_path (text "/c") (text "trivy") version)
    × IsInstalled outside empty_disk pinned target (replace_file empty_disk target (text "binary"))
tool_path-IsInstalled_example =
    tool_path-IsInstalled outside empty_disk lock (text "linux-x86_64") (text "trivy") fetched-disk

abbrev climbing : List Member
climbing =
    record { name = text "r/../../etc/passwd"; is_file = true; content = some [] }
    ∷ record { name = text "r/go/a.yaml"; is_file = true; content = some [] }
    ∷ []

safe_extract-IsBelow_example :
    All (λ (file : List Text × Bytes). IsBelow file.0) (safe_extract climbing)
safe_extract-IsBelow_example = safe_extract-IsBelow climbing
