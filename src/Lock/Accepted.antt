-- ===== src/Lock/Accepted.antt =====
-- What a lock that `validate_lock` accepts holds.
use security_toolchain.Prelude.{
  contains-nil, contains-cons, text_beq_iff, pos, ◌≡◌, refl, ap, sym, subst, ◌∙◌, inl, inr, Bool,
  true, not, ◌||◌, Option, none, some, List, [], ◌∷◌, Text, text, ◌==◌, text_eq, arith, Bool-cases,
  Option-cases, any, All, contains, if◌then◌else◌,
}
use security_toolchain.Prelude.Result.{Result, ok, require, each, bind-eq-ok, require-eq-ok}
use security_toolchain.Json.{
  Json, Fields, null, bool, int, frac, str, arr, obj, end, truthy, or_else, find_field, or_default,
  same_key,
}
use security_toolchain.Str.{lower, starts_with, has_substring}
use security_toolchain.Lock.{
  LockError, bad_archive, no_member, no_asset, missing_tool, no_version, bad_schema, tool_names,
  platforms, platform_key, field_or, as_mapping, as_text, is_sha256, validate_sha, is_tar_gz,
  is_null, validate_asset, validate_platform, validate_tool, validate_lock, asset_for, item,
  found_or, get_spec, as_spec,
}

-- The fields of an asset that can be fetched and verified.
pub record IsPinned (asset : Fields) (version : Text) : Type 0 where
  pub url : Text
  pub digest : Text
  pub url-field : field_or (str []) (text "url") asset ≡ str url
  pub url-github : starts_with url (text "https://github.com/") ≡ true
  pub url-version : has_substring url version ≡ true
  pub sha-field : field_or (str []) (text "sha256") asset ≡ str digest
  pub sha-hex : is_sha256 digest ≡ true
  pub member_named :
      (not (is_tar_gz (field_or null (text "archive") asset))
        || truthy (field_or null (text "member") asset))
      ≡ true

as_text-ok : (v : Json) {s : Text} → as_text v ≡ ok s → v ≡ str s
unfolding as_text
as_text-ok (str (c ∷ s)) h = ap str (cc)
as_text-ok (str []) h = absurd (cc)
as_text-ok null h = absurd (cc)
as_text-ok (bool b) h = absurd (cc)
as_text-ok (int n) h = absurd (cc)
as_text-ok (frac s) h = absurd (cc)
as_text-ok (arr xs) h = absurd (cc)
as_text-ok (obj fs) h = absurd (cc)

as_mapping-ok : (v : Json) {fs : Fields} → as_mapping v ≡ ok fs → v ≡ obj fs
unfolding as_mapping
as_mapping-ok (obj fs) h = ap obj (cc)
as_mapping-ok (str s) h = absurd (cc)
as_mapping-ok null h = absurd (cc)
as_mapping-ok (bool b) h = absurd (cc)
as_mapping-ok (int n) h = absurd (cc)
as_mapping-ok (frac s) h = absurd (cc)
as_mapping-ok (arr xs) h = absurd (cc)

validate_sha-ok :
    (v : Json)
    → validate_sha v ≡ ok tt
    → (digest : Text) × (v ≡ str digest) × (is_sha256 digest ≡ true)
unfolding validate_sha
validate_sha-ok (str s) h = (s, refl, require-eq-ok (is_sha256 s) _ h)
validate_sha-ok null h = absurd (cc)
validate_sha-ok (bool b) h = absurd (cc)
validate_sha-ok (int n) h = absurd (cc)
validate_sha-ok (frac s) h = absurd (cc)
validate_sha-ok (arr xs) h = absurd (cc)
validate_sha-ok (obj fs) h = absurd (cc)

each-ok :
    {A : Type 0} (f : A → Result LockError (Unit {0})) (xs : List A)
    → each f tt xs ≡ ok tt
    → All (λ x. f x ≡ ok tt) xs
unfolding each
each-ok f [] h = tt
each-ok f (x ∷ xs) h = let (u, rest, first) = bind-eq-ok (f x) _ h in (first, each-ok f xs rest)

All-member : (P : Text → Type 0) (xs : List Text) (a : Text) → All P xs → contains xs a ≡ true → P a
All-member P [] a h m = absurd (cc (contains-nil a))
All-member P (x ∷ xs) a (h, hs) m = elim (Bool-cases (x == a)) [
  | inl same ↦ subst P ((text_beq_iff x a).0 same) h
  | inr differ ↦ All-member P xs a hs (ground (arith, contains-cons x xs a))
]

validate_asset-IsPinned :
    (asset : Fields) (version : Text)
    → validate_asset asset version ≡ ok tt
    → IsPinned asset version
unfolding validate_asset
validate_asset-IsPinned asset version h =
    let (url, h1, e1) = bind-eq-ok (as_text (field_or (str []) (text "url") asset)) _ h in
    let (_, h2, e2) = bind-eq-ok (require (starts_with url (text "https://github.com/")) _) _ h1 in
    let (_, h3, e3) = bind-eq-ok (require (has_substring url version) _) _ h2 in
    let (_, h4, e4) = bind-eq-ok (validate_sha (field_or (str []) (text "sha256") asset)) _ h3 in
    let archive = field_or null (text "archive") asset in
    let (_, h5, _) = bind-eq-ok (require (is_null archive || is_tar_gz archive) bad_archive) _ h4 in
    let (digest, sha, hex) = validate_sha-ok (field_or (str []) (text "sha256") asset) e4 in
    record {
      url = url;
      digest = digest;
      url-field = as_text-ok _ e1;
      url-github = require-eq-ok _ _ e2;
      url-version = require-eq-ok _ _ e3;
      sha-field = sha;
      sha-hex = hex;
      member_named = require-eq-ok _ no_member h5;
    }

field_or-found :
    (k : Text) (fs : Fields) (v : Json)
    → truthy v ≡ true
    → field_or null k fs ≡ v
    → find_field k fs ≡ some v
unfolding field_or truthy
field_or-found k fs v h e = elim (Option-cases (find_field k fs)) [
  | inl missing ↦ absurd (cc (rw (missing, field_or) at e))
  | inr found ↦ let (w, e') = found in e' ∙ ap some (rw (e', field_or) at e)
]

obj-injective : {fs gs : Fields} → as_mapping (obj fs) ≡ ok gs → fs ≡ gs
unfolding as_mapping
obj-injective h = cc

or_else-mapping :
    (v : Json) {fs : Fields} (k : Text)
    → as_mapping (or_else v (obj end)) ≡ ok fs
    → truthy (field_or null k fs) ≡ true
    → (v ≡ obj fs) × (truthy v ≡ true)
unfolding or_else as_mapping field_or truthy find_field or_default
or_else-mapping v {fs} k h some_field = elim (Bool-cases (truthy v)) [
  | inl full ↦ (as_mapping-ok v (rw (full, or_else) at h), full)
  | inr empty ↦
      absurd (cc (rw (sym (obj-injective (rw (empty, or_else) at h)), field_or) at some_field))
]

-- What is checked of one platform.
validate_platform-IsPinned :
    (version : Text) (assets : Fields) (plat : Text)
    → validate_platform version assets plat ≡ ok tt
    → (asset : Fields) × (find_field plat assets ≡ some (obj asset))
      × (truthy (field_or null plat assets) ≡ true)
      × IsPinned asset version
unfolding validate_platform
validate_platform-IsPinned version assets plat h =
    let (_, h1, e1) = bind-eq-ok (require (truthy (field_or null plat assets)) no_asset) _ h in
    let (asset, h2, e2) = bind-eq-ok (as_mapping (field_or null plat assets)) _ h1 in
    let full = require-eq-ok _ no_asset e1 in
    let same = as_mapping-ok _ e2 in
    (
      asset,
      field_or-found plat assets (obj asset) (subst (λ v. truthy v ≡ true) same full) same,
      full,
      validate_asset-IsPinned asset version h2,
    )

-- What is checked of one tool: its entry, its version and its assets for every platform.
validate_tool-assets :
    (tools : Fields) (name : Text)
    → validate_tool tools name ≡ ok tt
    → (spec : Fields) × (version : Text) × (assets : Json) × (find_field name tools
        ≡ some (obj spec))
      × (truthy (field_or null name tools) ≡ true)
      × (find_field (text "version") spec ≡ some (str version))
      × (field_or null (text "assets") spec ≡ assets)
      × (fs : Fields) × (as_mapping (or_else assets (obj end)) ≡ ok fs)
      × All (λ plat. validate_platform version fs plat ≡ ok tt) platforms
unfolding validate_tool
validate_tool-assets tools name h =
    let entry = field_or null name tools in
    let (_, h1, e1) = bind-eq-ok (require (truthy entry) missing_tool) _ h in
    let (spec, h2, e2) = bind-eq-ok (as_mapping entry) _ h1 in
    let named = field_or null (text "version") spec in
    let (_, h3, e3) = bind-eq-ok (require (truthy named) no_version) _ h2 in
    let (version, h4, e4) = bind-eq-ok (as_text named) _ h3 in
    let assets = field_or null (text "assets") spec in
    let (fs, h5, e5) = bind-eq-ok (as_mapping (or_else assets (obj end))) _ h4 in
    let full = require-eq-ok _ missing_tool e1 in
    let same = as_mapping-ok entry e2 in
    let set = require-eq-ok _ no_version e3 in
    let spelled = as_text-ok named e4 in
    (
      spec,
      version,
      assets,
      field_or-found name tools (obj spec) (subst (λ v. truthy v ≡ true) same full) same,
      full,
      field_or-found (text "version") spec (str version) (subst (λ v. truthy v ≡ true) spelled set)
          spelled,
      refl,
      fs,
      e5,
      each-ok (validate_platform version fs) platforms h5,
    )

validate_lock-tools :
    (lock : Json)
    → validate_lock lock ≡ ok tt
    → (fs : Fields) × (tools : Fields) × (lock ≡ obj fs)
      × (as_mapping (or_else (field_or null (text "tools") fs) (obj end)) ≡ ok tools)
      × All (λ name. validate_tool tools name ≡ ok tt) tool_names
unfolding validate_lock
validate_lock-tools lock h =
    let (fs, h1, e1) = bind-eq-ok (as_mapping lock) _ h in
    let schema = same_key (field_or null (text "schema") fs) (int (pos 1)) in
    let (_, h2, e2) = bind-eq-ok (require schema bad_schema) _ h1 in
    let (tools, h3, e3) =
      bind-eq-ok (as_mapping (or_else (field_or null (text "tools") fs) (obj end))) _ h2 in
    let (_, h4, e4) = bind-eq-ok (each (validate_tool tools) tt tool_names) _ h3 in
    (fs, tools, as_mapping-ok lock e1, e3, each-ok (validate_tool tools) tool_names e4)

-- The lookup of an asset, from the fields that it finds.
asset_for-found :
    (show : Json → Text) (fs tools spec assets asset : Fields) (tool plat version : Text)
    → find_field (text "tools") fs ≡ some (obj tools)
    → find_field tool tools ≡ some (obj spec)
    → find_field (text "version") spec ≡ some (str version)
    → find_field (text "assets") spec ≡ some (obj assets)
    → find_field plat assets ≡ some (obj asset)
    → asset_for show (obj fs) tool plat ≡ ok (show (str version), obj asset)
unfolding asset_for item found_or get_spec as_spec field_or
asset_for-found show fs tools spec assets asset tool plat version a b c d e =
    rw (a, b, c, d, e) refl

-- In a lock that validate_lock accepts, asset_for finds an asset of every tool for every platform of
-- the lists; it is one whose url is below https://github.com/ and contains the tool's version, whose
-- sha256 is 64 lowercase hexadecimal digits, and which names a member if it is an archive.
pub validate_lock-asset_for :
    (show : Json → Text) (lock : Json)
    → validate_lock lock ≡ ok tt
    → (tool plat : Text) → contains tool_names tool ≡ true
    → contains platforms plat ≡ true
    → (version : Text) × (asset : Fields) × (asset_for show lock tool plat
        ≡ ok (show (str version), obj asset))
      × IsPinned asset version
validate_lock-asset_for show lock h tool plat known supported =
    let (fs, tools, e, listed, checked) = validate_lock-tools lock h in
    let (spec, version, assets, e1, full, e2, e3, fields, listing, plats) =
      validate_tool-assets tools tool
        (All-member (λ name. validate_tool tools name ≡ ok tt) tool_names tool checked known) in
    let (asset, e4, there, pinned) = validate_platform-IsPinned version fields plat (
      All-member (λ p. validate_platform version fields p ≡ ok tt) platforms plat plats
        supported) in
    let (t, t_full) = or_else-mapping (field_or null (text "tools") fs) tool listed full in
    let (a, a_full) = or_else-mapping assets plat listing there in
    let tools_found =
      field_or-found (text "tools") fs (obj tools) (subst (λ v. truthy v ≡ true) t t_full) t in
    let assets_found =
      field_or-found (text "assets") spec (obj fields) (subst (λ v. truthy v ≡ true) a a_full)
        (e3 ∙ a) in
    (
      version,
      asset,
      subst (λ l. asset_for show l tool plat ≡ ok (show (str version), obj asset)) (sym e)
          (asset_for-found show fs tools spec fields asset tool plat version tools_found e1 e2
            assets_found e4),
      pinned,
    )

covered : Option Text → Bool
covered none = true
covered (some plat) = contains platforms plat

platform-choice-covered :
    (linux darwin x86 arm : Bool)
    → covered (
        if linux
        then (if x86
            then some (text "linux-x86_64")
            else if arm
            then some (text "linux-aarch64")
            else none)
        else if darwin
        then (if arm
            then some (text "darwin-arm64")
            else if x86
            then some (text "darwin-x86_64")
            else none)
        else none)
      ≡ true
unfolding covered contains any
platform-choice-covered linux darwin x86 arm = ground arith

-- The platform of every machine that platform_key supports is one that the lock covers.
pub platform_key-covered :
    (system machine : Text) {plat : Text}
    → platform_key system machine ≡ some plat
    → contains platforms plat ≡ true
unfolding platform_key covered
platform_key-covered system machine h =
    subst (λ found. covered found ≡ true) h
      (platform-choice-covered (lower system == text "linux") (lower system == text "darwin")
        (lower machine == text "x86_64" || lower machine == text "amd64")
        (lower machine == text "aarch64" || lower machine == text "arm64"))
