-- ===== src/Fetch/Extract.antt =====
-- Where the files of a rules archive are written.
use security_toolchain.Prelude.{
  ◌≡◌, refl, ◌∙◌, Bool, true, false, not, ◌||◌, Option, none, some, List, [], ◌∷◌, ◌++◌, Text, text,
  ◌==◌, text_eq, if◌then◌else◌, any, All, length, length-append, sym, ◌<◌, arith,
}
use mathlib.Core.List.{append_assoc}
use security_toolchain.Str.{starts_with}
use security_toolchain.Fetch.{
  Bytes, Member, parts, climbs, extract_parts, extract_member, safe_extract,
}

parent : List Text → List Text
parent [] = []
parent (name ∷ here) = here

-- The directory that a path leads to, from a directory that is given by its parts, innermost first.
unfoldable pub walk : List Text → List Text → List Text
unfolding parent
walk here [] = here
walk here (part ∷ path) =
    let next = if part == text ".." then parent here else part ∷ here in walk next path

-- A path that leads from every directory as many levels down as it has parts, and at least one.
abbrev pub IsBelow : List Text → Type 0
IsBelow path =
    (0 < length path)
    × ((here : List Text)
        → (deeper : List Text) × (walk here path ≡ deeper ++ here) × (length deeper ≡ length path))

walk-part :
    (part : Text) (path here : List Text)
    → (part == text "..") ≡ false
    → walk here (part ∷ path) ≡ walk (part ∷ here) path
unfolding walk
walk-part part path here stays = rw (stays) refl

walk-down :
    (path here : List Text)
    → climbs path ≡ false
    → (deeper : List Text) × (walk here path ≡ deeper ++ here) × (length deeper ≡ length path)
unfolding climbs any walk
walk-down [] here h = ([], refl, refl)
walk-down (part ∷ path) here h =
    let (deeper, e, len) = walk-down path (part ∷ here) (ground arith) in
    (
      deeper ++ (part ∷ []),
      walk-part part path here (ground arith) ∙ e ∙ sym (append_assoc deeper (part ∷ []) here),
      length-append deeper (part ∷ []) ∙ omega (arith, len),
    )

climbs-tail : (top : Text) (rest : List Text) → climbs (top ∷ rest) ≡ false → climbs rest ≡ false
unfolding climbs any
climbs-tail top rest h = ground arith

member-choice :
    (top part : Text) (rest : List Text) (skipped : Bool) (content : Option Bytes)
    → (climbs (top ∷ part ∷ rest) ≡ true → skipped ≡ true)
    → All
        (λ (file : List Text × Bytes). IsBelow file.0)
        (if skipped
          then []
          else elim content [ none ↦ [] | some bytes ↦ (part ∷ rest, bytes) ∷ [] ])
member-choice top part rest true content h = tt
member-choice top part rest false none h = tt
member-choice top part rest false (some bytes) h =
    let level : climbs (top ∷ part ∷ rest) ≡ false = ground (arith, h) in
    ((ground arith, λ here. walk-down (part ∷ rest) here (climbs-tail top (part ∷ rest) level)), tt)

All-append :
    (P : List Text × Bytes → Type 0) (xs ys : List (List Text × Bytes))
    → All P xs
    → All P ys
    → All P (xs ++ ys)
All-append P [] ys h k = k
All-append P (x ∷ xs) ys (h, hs) k = (h, All-append P xs ys hs k)

extract_parts-IsBelow :
    (m : Member) (ps : List Text)
    → All (λ (file : List Text × Bytes). IsBelow file.0) (extract_parts m ps)
unfolding extract_parts
extract_parts-IsBelow m [] = tt
extract_parts-IsBelow m (top ∷ []) = tt
extract_parts-IsBelow m (top ∷ part ∷ rest) =
    member-choice top part rest
      (climbs (top ∷ part ∷ rest) || (starts_with m.name (text "/") || not m.is_file)) m.content
      (λ h. ground (arith, h))

extract_member-IsBelow :
    (m : Member) → All (λ (file : List Text × Bytes). IsBelow file.0) (extract_member m)
unfolding extract_member
extract_member-IsBelow m = extract_parts-IsBelow m (parts m.name)

-- Every file that the extraction of a rules archive writes lies below the destination, one level for
-- each part of its path, whatever names the archive gives its members.
pub safe_extract-IsBelow :
    (ms : List Member) → All (λ (file : List Text × Bytes). IsBelow file.0) (safe_extract ms)
unfolding safe_extract
safe_extract-IsBelow [] = tt
safe_extract-IsBelow (m ∷ ms) =
    All-append (λ (file : List Text × Bytes). IsBelow file.0) (extract_member m) (safe_extract ms)
      (extract_member-IsBelow m) (safe_extract-IsBelow ms)
