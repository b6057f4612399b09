-- ===== src/Fetch.antt =====
-- fetch.py: the download with its retries, the cache of a tool's binary, and the two ways to take files
-- from an archive. The network, the hash and the tar reader are parameters; the disk is the contents
-- of its regular files, by path. Directories, modes, temporary files and log lines are left out.
pub mod Verified
pub mod Extract
pub mod Rules
use security_toolchain.Prelude.{
  ℕ, zero, suc, ◌+◌, Bool, true, false, not, ◌&&◌, ◌||◌, Option, none, some, List, [], ◌∷◌, ◌++◌,
  Text, text, ◌==◌, text_eq, if◌then◌else◌, any, keep,
}
use security_toolchain.Prelude.Result.{Result, ok, err, ◌>>=◌}
use security_toolchain.Json.{Json, str}
use security_toolchain.Changed.Lists.{split_on, path_name}
use security_toolchain.Str.{starts_with}
use security_toolchain.Lock.{Failure, lock_error, no_platform, asset_for, item, is_tar_gz, other}
use security_toolchain.Json.{PyError, key_error, Fields, obj, find_field}

abbrev pub Bytes : Type 0
Bytes = List ℕ

pub data FetchError : Type 0 where
  download_failed : FetchError
  sha_mismatch : FetchError
  not_cached : FetchError
  no_member_found : FetchError
  lock_failure : Failure → FetchError

-- The loop of `download_verified`, from an attempt on with that many left: `get` is what an attempt
-- reads, `none` where it raises a network error.
unfoldable pub try_download :
    (ℕ → Option Bytes) → (Bytes → Text) → Text → ℕ → ℕ → Result FetchError Bytes
try_download get sha256 expected zero attempt = err download_failed
try_download get sha256 expected (suc left) attempt =
    let again = try_download get sha256 expected left (attempt + 1) in
    elim (get attempt) [
      | none ↦ again
      | some content ↦ if sha256 content == expected then ok content else err sha_mismatch
    ]

-- `download_verified`: what the destination holds.
unfoldable pub download_verified :
    (ℕ → Option Bytes) → (Bytes → Text) → Text → ℕ → Result FetchError Bytes
unfolding try_download
download_verified get sha256 expected attempts = try_download get sha256 expected attempts 1

-- A member of an archive; a file that cannot be read has no content.
pub record Member : Type 0 where
  pub name : Text
  pub is_file : Bool
  pub content : Option Bytes

-- Path(name).parts of a relative name
unfoldable pub parts : Text → List Text
unfolding split_on keep
parts name = keep (λ part. not (part == []) && not (part == text ".")) (split_on b'/' name)

unfoldable pub climbs : List Text → Bool
unfolding any
climbs ps = any (λ part. part == text "..") ps

unfoldable pub is_candidate : Text → Member → Bool
unfolding path_name parts climbs
is_candidate basename m = m.is_file && (path_name m.name == basename && not (climbs (parts m.name)))

first_content : List Member → Result FetchError Bytes
first_content [] = err no_member_found
first_content (m ∷ ms) = elim m.content [ none ↦ err no_member_found | some content ↦ ok content ]

-- `_extract_single_member`: what the destination holds.
unfoldable pub extract_single_member : List Member → Text → Result FetchError Bytes
unfolding first_content is_candidate keep
extract_single_member members basename = first_content (keep (is_candidate basename) members)

abbrev pub Disk : Type 0
Disk = Text → Option Bytes

pub record Outside : Type 0 where
  pub get : Text → ℕ → Option Bytes
  pub sha256 : Bytes → Text
  pub members : Bytes → List Member
  pub offline : Bool
  pub cache : Text
  pub show : Json → Text

-- The text of a field of an asset.
text_value : Option Json → Result FetchError Text
text_value (some (str s)) = ok s
text_value _ = err (lock_failure (other key_error))

unfoldable pub text_field : Json → Text → Result FetchError Text
unfolding find_field text_value
text_field (obj fs) k = text_value (find_field k fs)
text_field _ k = err (lock_failure (other key_error))

unfoldable pub looked_up : Result Failure (Text × Json) → Result FetchError (Text × Json)
looked_up (ok found) = ok found
looked_up (err e) = err (lock_failure e)

-- asset.get("archive") == "tar.gz"
is_archive : Json → Bool
unfolding is_tar_gz find_field
is_archive (obj fs) = elim (find_field (text "archive") fs) [ none ↦ false | some v ↦ is_tar_gz v ]
is_archive _ = false

-- The binary in what was downloaded.
unfoldable pub binary_of : (Bytes → List Member) → Json → Bytes → Result FetchError Bytes
unfolding is_archive text_field extract_single_member
binary_of members asset content =
    if is_archive asset
    then (do
      member ← text_field asset (text "member")
      extract_single_member (members content) member)
    else ok content

unfoldable pub target_path : Text → Text → Text → Text
target_path cache tool version =
    cache ++ (text "/" ++ (tool ++ (text "/" ++ (version ++ (text "/" ++ tool)))))

unfoldable pub replace_file : Disk → Text → Bytes → Disk
replace_file disk path content = λ p. if p == path then some content else disk p

-- The part of `tool_path` that fetches; three attempts are the default of `download_verified`.
unfoldable pub fetch : Outside → Disk → Text → Json → Result FetchError Disk
unfolding text_field download_verified binary_of replace_file
fetch outside disk target asset = do
  url ← text_field asset (text "url")
  expected ← text_field asset (text "sha256")
  content ← download_verified (outside.get url) outside.sha256 expected 3
  binary ← binary_of outside.members asset content
  ok (replace_file disk target binary)

-- The rest of `tool_path`, from what the disk holds at the target.
unfoldable pub from_cache :
    Outside → Disk → Text → Json → Option Bytes → Result FetchError (Text × Disk)
unfolding fetch
from_cache outside disk target asset (some content) = ok (target, disk)
from_cache outside disk target asset none =
    if outside.offline
    then err not_cached
    else (do next ← fetch outside disk target asset; ok (target, next))

-- `tool_path` on a machine's platform: the path, and the disk afterwards.
unfoldable pub tool_path : Outside → Disk → Json → Text → Text → Result FetchError (Text × Disk)
unfolding looked_up asset_for target_path from_cache
tool_path outside disk lock plat tool = do
  (version, asset) ← looked_up (asset_for outside.show lock tool plat)
  let target = target_path outside.cache tool version
  from_cache outside disk target asset (disk target)

-- One round of the loop of `_safe_extract_strip1`, from the parts of the member's name: the file that it
-- writes below the destination, by the parts of its path.
unfoldable pub extract_parts : Member → List Text → List (List Text × Bytes)
unfolding climbs starts_with
extract_parts m (top ∷ part ∷ rest) =
    if climbs (top ∷ part ∷ rest) || (starts_with m.name (text "/") || not m.is_file)
    then []
    else elim m.content [ none ↦ [] | some content ↦ (part ∷ rest, content) ∷ [] ]
extract_parts m _ = []

unfoldable pub extract_member : Member → List (List Text × Bytes)
unfolding parts extract_parts
extract_member m = extract_parts m (parts m.name)

-- `_safe_extract_strip1`: the files that it writes, in order.
unfoldable pub safe_extract : List Member → List (List Text × Bytes)
unfolding extract_member
safe_extract [] = []
safe_extract (m ∷ ms) = extract_member m ++ safe_extract ms
