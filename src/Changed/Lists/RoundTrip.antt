-- ===== src/Changed/Lists/RoundTrip.antt =====
-- The list files of changed.py, written and read.
use security_toolchain.Prelude.{
  ◌≡◌, refl, ap, Bool, true, false, not, ◌&&◌, List, [], ◌∷◌, ◌++◌, Text, ◌==◌, text_eq, nat_beq,
  text_beq_iff, arith, any, any-append, All,
}
use mathlib.Core.List.{append_assoc}
use security_toolchain.Str.{universal_newlines-same, universal_newlines, join}
use security_toolchain.Str.Space.{is_space}
use security_toolchain.Str.Strip.{strip}
use security_toolchain.Changed.Lists.{
  Changed, everything, files, grow, split_on, stripped_lines, lines, write_list, read_list,
  one_marker,
}

-- A name that a line holds as it is: not blank, without space at its ends, a line feed or a carriage
-- return.
unfoldable pub is_storable : Text → Bool
unfolding any strip
is_storable name =
    not (name == [])
    && (strip name == name
        && (not (any (λ c. nat_beq c 10) name) && not (any (λ c. nat_beq c 13) name)))

abbrev has_feed : Text → Bool
has_feed = any (λ c. nat_beq c 10)

split_on-append :
    (name rest : Text)
    → has_feed name ≡ false
    → split_on 10 (name ++ (10 ∷ rest)) ≡ name ∷ split_on 10 rest
unfolding split_on any grow
split_on-append [] rest h = refl
split_on-append (c ∷ name) rest h =
    let kept : nat_beq c 10 ≡ false = ground arith in
    rw (kept, split_on-append name rest (ground arith)) refl

split_on-end : (name : Text) → has_feed name ≡ false → split_on 10 name ≡ name ∷ []
unfolding split_on any grow
split_on-end [] h = refl
split_on-end (c ∷ name) h =
    let kept : nat_beq c 10 ≡ false = ground arith in
    rw (kept, split_on-end name (ground arith)) refl

storable-parts :
    (name : Text)
    → is_storable name ≡ true
    → ((name == []) ≡ false) × (strip name ≡ name) × (has_feed name ≡ false)
unfolding is_storable
storable-parts name h =
    (ground arith, (text_beq_iff (strip name) name).0 (ground arith), ground arith)

-- The lines of a file with one name on each.
lines-join :
    (name : Text) (fs : List Text)
    → All (λ f. is_storable f ≡ true) (name ∷ fs)
    → lines (join (10 ∷ []) (name ∷ fs) ++ (10 ∷ [])) ≡ name ∷ fs
unfolding lines stripped_lines join split_on
lines-join name [] (h, hs) =
    let (full, stripped, one_line) = storable-parts name h in
    rw (split_on-append name [] one_line, stripped, full) refl
lines-join name (next ∷ fs) (h, hs) =
    let (full, stripped, one_line) = storable-parts name h in
    rw
      (
        append_assoc name (10 ∷ join (10 ∷ []) (next ∷ fs)) (10 ∷ []),
        split_on-append name (join (10 ∷ []) (next ∷ fs) ++ (10 ∷ [])) one_line,
        stripped,
        full,
      )
      (ap (λ ls. name ∷ ls) (lines-join next fs hs))

join-no-return :
    (name : Text) (fs : List Text)
    → All (λ f. is_storable f ≡ true) (name ∷ fs)
    → any (λ c. nat_beq c 13) (join (10 ∷ []) (name ∷ fs) ++ (10 ∷ [])) ≡ false
unfolding join is_storable
join-no-return name [] (h, hs) = rw (any-append (λ c. nat_beq c 13) name (10 ∷ [])) (ground arith)
join-no-return name (next ∷ fs) (h, hs) =
    rw
      (
        append_assoc name (10 ∷ join (10 ∷ []) (next ∷ fs)) (10 ∷ []),
        any-append (λ c. nat_beq c 13) name (10 ∷ join (10 ∷ []) (next ∷ fs) ++ (10 ∷ [])),
        join-no-return next fs hs,
      )
      (ground arith)

-- What a list file can hold: everything, or storable names that are not one name that reads "ALL" in
-- upper case.
abbrev pub CanWrite : Changed → Type 0
CanWrite everything = Unit
CanWrite (files fs) = All (λ f. is_storable f ≡ true) fs × (one_marker fs ≡ false)

-- A list file that is written reads back as the same change, whether it is everything, no file or
-- some files, if every name is not blank, has no line feed and no carriage return, no space at its ends, and the list is
-- not one name that is "all" in any case.
pub read_list-write_list : (c : Changed) → CanWrite c → read_list (write_list c) ≡ c
unfolding write_list read_list is_space universal_newlines
read_list-write_list everything h = refl
read_list-write_list (files []) h = refl
read_list-write_list (files (name ∷ fs)) (hs, several) =
    rw
      (
        universal_newlines-same (join (10 ∷ []) (name ∷ fs) ++ (10 ∷ []))
            (join-no-return name fs hs),
        lines-join name fs hs,
        several,
      )
      refl
