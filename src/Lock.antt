-- ===== src/Lock.antt =====
-- lock.py: the lock of tools and rules, its validation and the lookups in it. A lock is a JSON value;
-- reading it from the file is left out. `_mapping` and `_text` return what they were given, here as
-- the fields or the text that it is.
pub mod Accepted
use security_toolchain.Prelude.{
  ℕ, pos, Bool, true, false, not, ◌&&◌, ◌||◌, Option, none, some, List, [], ◌∷◌, Text, text, ◌==◌,
  nat_eq, text_eq, if◌then◌else◌, length, all,
}
use security_toolchain.Prelude.Result.{Result, ok, err, ◌>>=◌, require, each}
use security_toolchain.Json.{
  Json, Fields, null, bool, int, str, obj, end, field, PyError, type_error, key_error,
  attribute_error, truthy, or_else, find_field, or_default, same_key, get,
}
use security_toolchain.Str.{lower, starts_with, has_substring}
use security_toolchain.Changed.Sources.{is_lower_hex}

-- The reasons of a `LockError`.
pub data LockError : Type 0 where
  no_object no_text bad_schema missing_tool no_version no_asset : LockError
  not_github not_versioned bad_sha bad_archive no_member missing_key : LockError
  unknown_tool no_platform unknown_rules : LockError

-- What a lookup raises.
pub data Failure : Type 0 where
  lock_error : LockError → Failure
  other : PyError → Failure

-- TOOLS
abbrev pub tool_names : List Text
tool_names =
    text "gitleaks" ∷ text "opengrep" ∷ text "osv-scanner" ∷ text "trivy" ∷ text "actionlint" ∷ []

-- PLATFORMS
abbrev pub platforms : List Text
platforms =
    text "linux-x86_64" ∷ text "linux-aarch64" ∷ text "darwin-arm64" ∷ text "darwin-x86_64" ∷ []

-- `platform_key` of _platform.py, of what the machine reports; `none` is `UnsupportedPlatform`.
unfoldable pub platform_key : Text → Text → Option Text
unfolding lower
platform_key system machine =
    let x86 = lower machine == text "x86_64" || lower machine == text "amd64" in
    let arm = lower machine == text "aarch64" || lower machine == text "arm64" in
    if lower system == text "linux"
    then (if x86
        then some (text "linux-x86_64")
        else if arm
        then some (text "linux-aarch64")
        else none)
    else if lower system == text "darwin"
    then (if arm
        then some (text "darwin-arm64")
        else if x86
        then some (text "darwin-x86_64")
        else none)
    else none

-- x.get(k, d) of a dict
unfoldable pub field_or : Json → Text → Fields → Json
unfolding find_field or_default
field_or d k fs = or_default (find_field k fs) d

-- `_mapping`
unfoldable pub as_mapping : Json → Result LockError Fields
as_mapping (obj fs) = ok fs
as_mapping _ = err no_object

-- `_text`
unfoldable pub as_text : Json → Result LockError Text
as_text (str (c ∷ s)) = ok (c ∷ s)
as_text _ = err no_text

-- A digest that `_validate_sha` accepts.
unfoldable pub is_sha256 : Text → Bool
unfolding all is_lower_hex
is_sha256 digest = length digest == 64 && all is_lower_hex digest

-- `_validate_sha`
unfoldable pub validate_sha : Json → Result LockError (Unit {0})
unfolding is_sha256
validate_sha (str digest) = require (is_sha256 digest) bad_sha
validate_sha _ = err bad_sha

unfoldable pub is_tar_gz : Json → Bool
is_tar_gz (str s) = s == text "tar.gz"
is_tar_gz _ = false

unfoldable pub is_null : Json → Bool
is_null null = true
is_null _ = false

-- `_validate_asset`
unfoldable pub validate_asset : Fields → Text → Result LockError (Unit {0})
unfolding as_text field_or starts_with has_substring validate_sha is_tar_gz is_null truthy
validate_asset asset version = do
  url ← as_text (field_or (str []) (text "url") asset)
  _ ← require (starts_with url (text "https://github.com/")) not_github
  _ ← require (has_substring url version) not_versioned
  _ ← validate_sha (field_or (str []) (text "sha256") asset)
  let archive = field_or null (text "archive") asset
  _ ← require (is_null archive || is_tar_gz archive) bad_archive
  require (not (is_tar_gz archive) || truthy (field_or null (text "member") asset)) no_member

-- The loop over the platforms.
unfoldable pub validate_platform : Text → Fields → Text → Result LockError (Unit {0})
unfolding validate_asset truthy as_mapping field_or
validate_platform version assets plat = do
  let asset = field_or null plat assets
  _ ← require (truthy asset) no_asset
  fs ← as_mapping asset
  validate_asset fs version

-- The loop over the tools.
unfoldable pub validate_tool : Fields → Text → Result LockError (Unit {0})
unfolding validate_platform truthy as_mapping as_text field_or or_else each
validate_tool tools name = do
  let spec = field_or null name tools
  _ ← require (truthy spec) missing_tool
  fs ← as_mapping spec
  let version = field_or null (text "version") fs
  _ ← require (truthy version) no_version
  v ← as_text version
  assets ← as_mapping (or_else (field_or null (text "assets") fs) (obj end))
  each (validate_platform v assets) tt platforms

-- The loop over the keys of a rules entry.
unfoldable pub validate_key : Fields → Text → Result LockError (Unit {0})
unfolding truthy as_text field_or
validate_key spec key = do
  let value = field_or null key spec
  _ ← require (truthy value) missing_key
  _ ← as_text value
  ok tt

abbrev pub rules_keys : List Text
rules_keys = text "commit" ∷ text "url" ∷ text "sha256" ∷ []

unfoldable pub validate_rules_entry : Json → Result LockError (Unit {0})
unfolding as_mapping each validate_key validate_sha field_or
validate_rules_entry spec = do
  fs ← as_mapping spec
  _ ← each (validate_key fs) tt rules_keys
  validate_sha (field_or null (text "sha256") fs)

unfoldable pub values : Fields → List Json
values end = []
values (field k v fs) = v ∷ values fs

-- `validate_lock`
unfoldable pub validate_lock : Json → Result LockError (Unit {0})
unfolding as_mapping field_or same_key or_else validate_tool each validate_rules_entry values
validate_lock lock = do
  fs ← as_mapping lock
  _ ← require (same_key (field_or null (text "schema") fs) (int (pos 1))) bad_schema
  tools ← as_mapping (or_else (field_or null (text "tools") fs) (obj end))
  _ ← each (validate_tool tools) tt tool_names
  rules ← as_mapping (or_else (field_or null (text "rules") fs) (obj end))
  each validate_rules_entry tt (values rules)

unfoldable pub found_or : Option Json → Failure → Result Failure Json
found_or none e = err e
found_or (some v) e = ok v

-- x[k], where a missing key is the given failure
unfoldable pub item : Json → Text → Failure → Result Failure Json
unfolding find_field found_or
item (obj fs) k e = found_or (find_field k fs) e
item _ k e = err (other type_error)

unfoldable pub as_spec : Json → Result Failure Json
as_spec null = err (lock_error unknown_tool)
as_spec v = ok v

unfoldable pub get_spec : Json → Text → Result Failure Json
unfolding field_or
get_spec (obj fs) tool = ok (field_or null tool fs)
get_spec _ tool = err (other attribute_error)

-- `asset_for` on a loaded lock; `show` is `str` of a value.
unfoldable pub asset_for : (Json → Text) → Json → Text → Text → Result Failure (Text × Json)
unfolding item get_spec as_spec
asset_for show lock tool plat = do
  tools ← item lock (text "tools") (other key_error)
  entry ← get_spec tools tool
  spec ← as_spec entry
  version ← item spec (text "version") (lock_error no_platform)
  assets ← item spec (text "assets") (lock_error no_platform)
  asset ← item assets plat (lock_error no_platform)
  ok (show version, asset)

-- `rules_spec` on a loaded lock
unfoldable pub rules_spec : Json → Text → Result Failure Json
unfolding item
rules_spec lock name = do
  rules ← item lock (text "rules") (lock_error unknown_rules)
  item rules name (lock_error unknown_rules)
