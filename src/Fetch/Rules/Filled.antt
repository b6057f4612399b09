-- ===== src/Fetch/Rules/Filled.antt =====
-- What `rules_path` of fetch.py puts into the directory of the rules.
use security_toolchain.Prelude.{
  ◌≡◌, refl, sym, ap, ◌∙◌, subst, inl, inr, Bool, true, false, if◌then◌else◌, Option, none, some,
  List, [], ◌∷◌, ◌++◌, Text, text, ◌==◌, text_eq, text_beq_refl, text_beq_iff, Bool-cases,
}
use security_toolchain.Prelude.Result.{ok, bind-eq-ok, ok-injective}
use mathlib.Core.List.{append_assoc}
use security_toolchain.Json.{Json}
use security_toolchain.Str.{starts_with, join}
use security_toolchain.Fetch.{
  Bytes, download_verified, safe_extract, Disk, Outside, text_field, replace_file,
}
use security_toolchain.Fetch.Verified.{IsRead, download_verified_iff}
use security_toolchain.Str.Prefix.{starts_with_self}
use security_toolchain.Fetch.Rules.{marker_of, remove_below, put_below, fetch_rules}

-- The first of two contents that is there.
abbrev pub over : Option Bytes → Option Bytes → Option Bytes
over (some content) below = some content
over none below = below

-- The content of the last of the extracted files that lies at the path, if one does.
unfoldable pub file_at : Text → List (List Text × Bytes) → Text → Option Bytes
unfolding join
file_at target [] p = none
file_at target ((parts, content) ∷ files) p =
    over (file_at target files p)
      (if p == target ++ (text "/" ++ join (text "/") parts) then some content else none)

-- The directory holds the extracted files and the marker with the commit, and nothing else; no path
-- outside it has changed.
pub record IsFilled (target commit : Text) (files : List (List Text × Bytes)) (disk next : Disk)
    : Type 0 where
  pub apart : (p : Text) → starts_with p (target ++ text "/") ≡ false → next p ≡ disk p
  pub inside :
      (p : Text)
      → starts_with p (target ++ text "/") ≡ true
      → (p == marker_of target) ≡ false
      → next p ≡ file_at target files p
  pub marker : next (marker_of target) ≡ some (commit ++ text "\n")

-- The disk after a call: the marker was there and the disk is as it was; or the marker was missing, the
-- archive was read from the address of the lock with the lock's digest, and the directory was filled
-- from that archive.
pub data IsCurrent (outside : Outside) (disk : Disk) (spec : Json) (target commit : Text)
    : Disk → Type 0 where
  cached :
      (content : Bytes)
      → disk (marker_of target) ≡ some content
      → IsCurrent outside disk spec target commit disk
  fetched :
      {next : Disk} (url : Text) (content : Bytes)
      → outside.offline ≡ false
      → disk (marker_of target) ≡ none
      → text_field spec (text "url") ≡ ok url
      → IsRead (outside.get url) content 3 1
      → text_field spec (text "sha256") ≡ ok (outside.sha256 content)
      → IsFilled target commit (safe_extract (outside.members content)) disk next
      → IsCurrent outside disk spec target commit next

replace_file_apart :
    (disk : Disk) (target rest p : Text) (content : Bytes)
    → starts_with p (target ++ text "/") ≡ false
    → replace_file disk (target ++ (text "/" ++ rest)) content p ≡ disk p
unfolding replace_file
replace_file_apart disk target rest p content apart =
    elim (Bool-cases (p == (target ++ (text "/" ++ rest)))) [
      | inr differs ↦ rw (differs) refl
      | inl same ↦
          let e : p ≡ (target ++ text "/") ++ rest =
            (text_beq_iff p (target ++ (text "/" ++ rest))).0 same
            ∙ sym (append_assoc target (text "/") rest) in
          let below : starts_with p (target ++ text "/") ≡ true =
            ap (λ s. starts_with s (target ++ text "/")) e
            ∙ starts_with_self (target ++ text "/") rest in
          absurd (cc)
    ]

put_below_apart :
    (disk : Disk) (target : Text) (files : List (List Text × Bytes)) (p : Text)
    → starts_with p (target ++ text "/") ≡ false
    → put_below disk target files p ≡ disk p
unfolding put_below
put_below_apart disk target [] p apart = refl
put_below_apart disk target ((parts, content) ∷ files) p apart =
    put_below_apart (replace_file disk (target ++ (text "/" ++ join (text "/") parts)) content)
      target files p apart
    ∙ replace_file_apart disk target (join (text "/") parts) p content apart

remove_below_apart :
    (disk : Disk) (target p : Text)
    → starts_with p (target ++ text "/") ≡ false
    → remove_below disk target p ≡ disk p
unfolding remove_below
remove_below_apart disk target p apart = rw (apart) refl

over-if :
    (above below : Option Bytes) (b : Bool) (content : Bytes)
    → over above (if b then some content else below)
      ≡ over (over above (if b then some content else none)) below
over-if (some c) below b content = refl
over-if none below true content = refl
over-if none below false content = refl

put_below_at :
    (disk : Disk) (target : Text) (files : List (List Text × Bytes)) (p : Text)
    → put_below disk target files p ≡ over (file_at target files p) (disk p)
unfolding put_below file_at replace_file
put_below_at disk target [] p = refl
put_below_at disk target ((parts, content) ∷ files) p =
    let path = target ++ (text "/" ++ join (text "/") parts) in
    put_below_at (replace_file disk path content) target files p
    ∙ over-if (file_at target files p) (disk p) (p == path) content

over-none : (above : Option Bytes) → over above none ≡ above
over-none none = refl
over-none (some c) = refl

put_below_inside :
    (disk : Disk) (target : Text) (files : List (List Text × Bytes)) (p : Text)
    → starts_with p (target ++ text "/") ≡ true
    → put_below (remove_below disk target) target files p ≡ file_at target files p
unfolding remove_below
put_below_inside disk target files p inside =
    put_below_at (remove_below disk target) target files p
    ∙ rw (inside) (over-none (file_at target files p))

fresh-IsFilled :
    (disk : Disk) (target commit : Text) (files : List (List Text × Bytes))
    → IsFilled target commit files disk (
        replace_file
          (put_below (remove_below disk target) target files)
          (marker_of target)
          (commit ++ text "\n"))
unfolding replace_file
fresh-IsFilled disk target commit files = record {
  apart = λ p apart.
      replace_file_apart (put_below (remove_below disk target) target files) target
        (text ".complete") p (commit ++ text "\n") apart
      ∙ put_below_apart (remove_below disk target) target files p apart
      ∙ remove_below_apart disk target p apart;
  inside = λ p inside differs. rw (differs) (put_below_inside disk target files p inside);
  marker = rw (text_beq_refl (marker_of target)) refl;
}

pub fetch_rules-IsCurrent :
    (outside : Outside) (disk : Disk) (target commit : Text) (spec : Json) (next : Disk)
    → outside.offline ≡ false
    → disk (marker_of target) ≡ none
    → fetch_rules outside disk target commit spec ≡ ok next
    → IsCurrent outside disk spec target commit next
unfolding fetch_rules
fetch_rules-IsCurrent outside disk target commit spec next online missing h =
    let (url, h1, e1) = bind-eq-ok (text_field spec (text "url")) _ h in
    let (expected, h2, e2) = bind-eq-ok (text_field spec (text "sha256")) _ h1 in
    let (content, h3, e3) =
      bind-eq-ok (download_verified (outside.get url) outside.sha256 expected 3) _ h2 in
    let (read, same) =
      (download_verified_iff (outside.get url) outside.sha256 expected 3 content).0 e3 in
    let files = safe_extract (outside.members content) in
    subst (IsCurrent outside disk spec target commit) (ok-injective h3) (
      fetched url content online missing e1 read (e2 ∙ ap ok (sym same))
        (fresh-IsFilled disk target commit files))
