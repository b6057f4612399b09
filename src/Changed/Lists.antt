-- ===== src/Changed/Lists.antt =====
-- `Changed` of changed.py, the list files (`_lines`, `write_list`, `read_list`) and the questions that
-- are asked of a change.
pub mod RoundTrip
use security_toolchain.Prelude.{
  ℕ, Bool, true, false, not, ◌&&◌, ◌||◌, Option, none, some, List, [], ◌∷◌, ◌++◌, Text, text, ◌==◌,
  text_eq, nat_beq, if◌then◌else◌, any, keep,
}
use security_toolchain.Str.{universal_newlines, starts_with, join, upper, lower}
use security_toolchain.Str.Space.{is_space}
use security_toolchain.Str.Strip.{strip}

-- ALL, or a concrete list.
pub data Changed : Type 0 where
  everything : Changed
  files : List Text → Changed

abbrev pub all_marker : Text
all_marker = text "ALL"

-- One more character of a piece: the first piece is the one that it belongs to.
unfoldable pub grow : ℕ → List Text → List Text
grow c [] = (c ∷ []) ∷ []
grow c (piece ∷ pieces) = (c ∷ piece) ∷ pieces

-- s.split(sep) at a single character
unfoldable pub split_on : ℕ → Text → List Text
unfolding grow
split_on sep [] = [] ∷ []
split_on sep (c ∷ s) = let rest = split_on sep s in if nat_beq c sep then [] ∷ rest else grow c rest

-- [ln.strip() for ln in pieces if ln.strip()]
unfoldable pub stripped_lines : List Text → List Text
unfolding strip
stripped_lines [] = []
stripped_lines (piece ∷ pieces) =
    let rest = stripped_lines pieces in if strip piece == [] then rest else strip piece ∷ rest

-- `_lines`
unfoldable pub lines : Text → List Text
unfolding split_on stripped_lines
lines content = stripped_lines (split_on 10 content)

-- `is_all`
unfoldable pub is_all : Changed → Bool
is_all everything = true
is_all (files fs) = false

-- `write_list`: the text that the file holds afterwards.
unfoldable pub write_list : Changed → Text
unfolding join
write_list everything = all_marker ++ (10 ∷ [])
write_list (files fs) = join (10 ∷ []) fs ++ (10 ∷ [])

unfoldable pub one_marker : List Text → Bool
unfolding upper
one_marker (line ∷ []) = upper line == all_marker
one_marker _ = false

-- `read_list`, on the text that the file holds.
unfoldable pub read_list : Text → Changed
unfolding lines one_marker universal_newlines
read_list content =
    let entries = lines (universal_newlines content) in
    if one_marker entries then everything else files entries

-- `any_match`; a pattern is whether it is found in a path.
unfoldable pub any_match : Changed → (Text → Bool) → Bool
unfolding any
any_match everything pattern = true
any_match (files fs) pattern = any pattern fs

unfoldable pub ends_with : Text → Text → Bool
ends_with s [] = true
ends_with [] t = [] == t
ends_with (c ∷ s) t = (c ∷ s) == t || ends_with s t

-- OPENGREP_EXT
opengrep_ext : List Text
opengrep_ext =
    text ".py"
    ∷ text ".pyi"
    ∷ text ".js"
    ∷ text ".jsx"
    ∷ text ".mjs"
    ∷ text ".cjs"
    ∷ text ".ts"
    ∷ text ".tsx"
    ∷ text ".mts"
    ∷ text ".cts"
    ∷ text ".vue"
    ∷ text ".yml"
    ∷ text ".yaml"
    ∷ text ".json"
    ∷ text ".tf"
    ∷ text ".hcl"
    ∷ text ".bicep"
    ∷ text ".sh"
    ∷ text ".bash"
    ∷ text ".html"
    ∷ text ".go"
    ∷ text ".rs"
    ∷ text ".java"
    ∷ text ".kt"
    ∷ text ".rb"
    ∷ text ".php"
    ∷ text ".cs"
    ∷ text ".swift"
    ∷ text ".c"
    ∷ text ".h"
    ∷ text ".cpp"
    ∷ text ".hpp"
    ∷ text ".sol"
    ∷ text ".toml"
    ∷ []

last_or : Text → List Text → Text
last_or d [] = d
last_or d (x ∷ xs) = last_or x xs

-- Path(p).name: the last part of the path that is neither empty nor a dot.
unfoldable pub path_name : Text → Text
unfolding split_on keep last_or
path_name p =
    last_or [] (keep (λ part. not (part == []) && not (part == text ".")) (split_on b'/' p))

unfoldable pub is_target : Text → Bool
unfolding any ends_with opengrep_ext path_name starts_with lower
is_target p =
    any (λ ext. ends_with (lower p) ext) opengrep_ext
    || starts_with (path_name p) (text "Dockerfile")

-- `opengrep_targets`; `is_file` says which paths are regular files below the root.
unfoldable pub opengrep_targets : Changed → (Text → Bool) → Option (List Text)
unfolding is_target keep
opengrep_targets everything is_file = none
opengrep_targets (files fs) is_file = some (keep is_file (keep is_target fs))
