-- ===== src/Fetch/Verified.antt =====
-- What `download_verified` and `tool_path` of fetch.py keep.
use security_toolchain.Prelude.{
  ℕ, zero, suc, ◌+◌, ◌≡◌, refl, ◌∙◌, ap, sym, subst, inl, inr, Bool, true, false, Option, none,
  some, Text, text, ◌==◌, text_eq, text_beq_iff, if◌then◌else◌, Bool-cases, Option-cases,
}
use security_toolchain.Prelude.Result.{Result, ok, err, bind-eq-ok}
use security_toolchain.Json.{Json}
use security_toolchain.Lock.{Failure, asset_for}
use security_toolchain.Fetch.{
  text_field, looked_up, target_path, not_cached, Bytes, FetchError, sha_mismatch, try_download,
  download_verified, Disk, Outside, binary_of, replace_file, fetch, from_cache, tool_path,
}

-- The attempts from one on fail up to one that reads the content.
pub data IsRead (get : ℕ → Option Bytes) (content : Bytes) : ℕ → ℕ → Type 0 where
  now : {left attempt : ℕ} → get attempt ≡ some content → IsRead get content (suc left) attempt
  later :
      {left attempt : ℕ}
      → get attempt ≡ none
      → IsRead get content left (attempt + 1)
      → IsRead get content (suc left) attempt

returned : {A : Type 0} → A → Result FetchError A → A
returned otherwise (ok r) = r
returned otherwise (err e) = otherwise

ok-injective : {A : Type 0} {a b : A} → Path (Result FetchError A) (ok a) (ok b) → a ≡ b
unfolding returned
ok-injective {a = a} e = ap (returned a) e

checked :
    (digest expected : Text) {content out : Bytes}
    → Path
        (Result FetchError Bytes)
        (if digest == expected then ok content else err sha_mismatch)
        (ok out)
    → (digest ≡ expected) × (content ≡ out)
checked digest expected h = elim (Bool-cases (digest == expected)) [
  | inl same ↦ ((text_beq_iff digest expected).0 same, ok-injective (rw (same) at h))
  | inr differ ↦ absurd (cc (rw (differ) at h))
]

try_download-IsRead :
    (get : ℕ → Option Bytes) (sha256 : Bytes → Text) (expected : Text) (left attempt : ℕ)
    {content : Bytes}
    → try_download get sha256 expected left attempt ≡ ok content
    → IsRead get content left attempt × (sha256 content ≡ expected)
unfolding try_download
try_download-IsRead get sha256 expected zero attempt h = absurd (cc)
try_download-IsRead get sha256 expected (suc left) attempt {content} h =
    elim (Option-cases (get attempt)) [
      | inl failed ↦
          let (read, same) =
            try_download-IsRead get sha256 expected left (attempt + 1)
              (rw (failed, try_download) at h) in
          (later failed read, same)
      | inr found ↦
          let (got, e) = found in
          let (same, out) = checked (sha256 got) expected (rw (e, try_download) at h) in
          (now (e ∙ ap some out), ap sha256 (sym out) ∙ same)
    ]

try_download-returns :
    (get : ℕ → Option Bytes) (sha256 : Bytes → Text) (expected : Text) (content : Bytes)
    → sha256 content ≡ expected
    → {left attempt : ℕ} → IsRead get content left attempt
    → try_download get sha256 expected left attempt ≡ ok content
unfolding try_download
try_download-returns get sha256 expected content same {left = zero} read = elim read [ ]
try_download-returns get sha256 expected content same {left = suc left} {attempt = attempt}
      (now e) =
    rw (e, (text_beq_iff (sha256 content) expected).1 same, try_download) refl
try_download-returns get sha256 expected content same {left = suc left} {attempt = attempt}
      (later e read) =
    rw (e, try_download) (try_download-returns get sha256 expected content same read)

-- A download ends with a content exactly where that content is the first that an attempt reads, within
-- the given number of attempts, and has the expected digest.
pub download_verified_iff :
    (get : ℕ → Option Bytes) (sha256 : Bytes → Text) (expected : Text) (attempts : ℕ)
    (content : Bytes)
    → (download_verified get sha256 expected attempts ≡ ok content
        → IsRead get content attempts 1 × (sha256 content ≡ expected))
      × (IsRead get content attempts 1 × (sha256 content ≡ expected)
          → download_verified get sha256 expected attempts ≡ ok content)
unfolding download_verified
download_verified_iff get sha256 expected attempts content = (
  try_download-IsRead get sha256 expected attempts 1,
  λ h. try_download-returns get sha256 expected content h.1 h.0,
)

-- How a disk with the tool at a path comes about.
pub data IsInstalled (outside : Outside) (disk : Disk) (asset : Json) (path : Text)
    : Disk → Type 0 where
  cached : {content : Bytes} → disk path ≡ some content → IsInstalled outside disk asset path disk
  fetched :
      (url : Text) (content binary : Bytes)
      → disk path ≡ none
      → outside.offline ≡ false
      → text_field asset (text "url") ≡ ok url
      → text_field asset (text "sha256") ≡ ok (outside.sha256 content)
      → IsRead (outside.get url) content 3 1
      → binary_of outside.members asset content ≡ ok binary
      → IsInstalled outside disk asset path (replace_file disk path binary)

fetch-IsInstalled :
    (outside : Outside) (disk : Disk) (target : Text) (asset : Json) {next : Disk}
    → disk target ≡ none
    → outside.offline ≡ false
    → fetch outside disk target asset ≡ ok next
    → IsInstalled outside disk asset target next
unfolding fetch
fetch-IsInstalled outside disk target asset missing online h =
    let (url, h1, e1) = bind-eq-ok (text_field asset (text "url")) _ h in
    let (expected, h2, e2) = bind-eq-ok (text_field asset (text "sha256")) _ h1 in
    let (content, h3, e3) =
      bind-eq-ok (download_verified (outside.get url) outside.sha256 expected 3) _ h2 in
    let (binary, h4, e4) = bind-eq-ok (binary_of outside.members asset content) _ h3 in
    let (read, same) =
      (download_verified_iff (outside.get url) outside.sha256 expected 3 content).0 e3 in
    subst (IsInstalled outside disk asset target) (ok-injective h4)
      (fetched url content binary missing online e1 (e2 ∙ ap ok (sym same)) read e4)

looked_up-ok :
    (r : Result Failure (Text × Json)) {found : Text × Json} → looked_up r ≡ ok found → r ≡ ok found
unfolding looked_up
looked_up-ok (ok pair) h = ap ok (ok-injective h)
looked_up-ok (err e) h = absurd (cc)

online-step :
    (offline : Bool) {A : Type 0} {step : Result FetchError A} {out : A}
    → (if offline then err not_cached else step) ≡ ok out
    → (offline ≡ false) × (step ≡ ok out)
online-step false h = (refl, h)
online-step true h = absurd (cc)

from_cache-IsInstalled :
    (outside : Outside) (disk : Disk) (target : Text) (asset : Json) (held : Option Bytes)
    {path : Text} {next : Disk}
    → disk target ≡ held
    → from_cache outside disk target asset held ≡ ok (path, next)
    → (path ≡ target) × IsInstalled outside disk asset path next
unfolding from_cache
from_cache-IsInstalled outside disk target asset (some content) {path} {next} e h =
    let same = ok-injective h in
    (sym (ap (λ x. x.0) same), subst (λ x. IsInstalled outside disk asset x.0 x.1) same (cached e))
from_cache-IsInstalled outside disk target asset none {path} {next} e h =
    let (online, h1) = online-step outside.offline h in
    let (after, h2, e2) = bind-eq-ok (fetch outside disk target asset) _ h1 in
    let same = ok-injective h2 in
    (
      sym (ap (λ x. x.0) same),
      subst (λ x. IsInstalled outside disk asset x.0 x.1) same
          (fetch-IsInstalled outside disk target asset e online e2),
    )

-- Where tool_path returns a path, the lock has an asset for the tool, and the path is that of the
-- tool's version in the cache: either a file was there and the disk is as it was, or none was there, the
-- run is online, and the one file written is the binary of a download whose digest is the asset's
-- sha256.
pub tool_path-IsInstalled :
    (outside : Outside) (disk : Disk) (lock : Json) (plat tool : Text) {path : Text} {next : Disk}
    → tool_path outside disk lock plat tool ≡ ok (path, next)
    → (version : Text) × (asset : Json) × (asset_for outside.show lock tool plat
        ≡ ok (version, asset))
      × (path ≡ target_path outside.cache tool version)
      × IsInstalled outside disk asset path next
unfolding tool_path
tool_path-IsInstalled outside disk lock plat tool {path} {next} h =
    let ((version, asset), h1, e1) =
      bind-eq-ok (looked_up (asset_for outside.show lock tool plat)) _ h in
    let target = target_path outside.cache tool version in
    let (same, installed) =
      from_cache-IsInstalled outside disk target asset (disk target) refl h1 in
    (version, asset, looked_up-ok (asset_for outside.show lock tool plat) e1, same, installed)
