-- ===== src/Changed/Sources.antt =====
-- The two sources of a changed-file list in changed.py: the pull request's files from the API, and
-- `git diff` of two commits. A reply of the API is what its JSON says: the items of a page with
-- their two names, which may be missing.
pub mod Listing
pub mod Revisions
use security_toolchain.Prelude.{
  ℕ, zero, suc, ◌+◌, Bool, true, false, not, ◌&&◌, ◌||◌, Option, none, some, List, [], ◌∷◌, ◌++◌,
  Text, text, ltb, leb, nat_beq, ◌==◌, nat_eq, text_eq, if◌then◌else◌, length, all,
}
use security_toolchain.Prelude.Sorting.{sorted_set}
use security_toolchain.Json.{Json}
use security_toolchain.Str.Lines.{splitlines}
use security_toolchain.Changed.Lists.{stripped_lines}

pub record FileItem : Type 0 where
  pub filename : Option Text
  pub previous_filename : Option Text

pub data Reply : Type 0 where
  -- the request failed, or its answer is no JSON text
  failed : Reply
  -- an answer that is no list
  not_a_list : Reply
  page : List FileItem → Reply

-- `if name: files.append(name)`
name_if_any : Option Text → List Text
name_if_any none = []
name_if_any (some []) = []
name_if_any (some (c ∷ s)) = (c ∷ s) ∷ []

-- The names that a page adds.
unfoldable pub names : List FileItem → List Text
unfolding name_if_any
names [] = []
names (item ∷ items) =
    name_if_any item.filename ++ (name_if_any item.previous_filename ++ names items)

abbrev pub per_page : ℕ
per_page = 100

abbrev pub max_pages : ℕ
max_pages = 30

-- The loop, from the page and the files that it has reached. `none` is the `None` of the source; at
-- most `max_pages` pages are asked for, so the fuel of `api_pr_files` is never used up.
unfoldable pub api_loop : (ℕ → Reply) → ℕ → ℕ → List Text → Option (List Text)
unfolding names
api_loop reply zero number so_far = none
api_loop reply (suc fuel) number so_far = elim (reply number) [
  | failed ↦ none
  | not_a_list ↦ none
  | page items ↦
      let so_far' = so_far ++ names items in
      if ltb (length items) per_page
      then some so_far'
      else if ltb max_pages (number + 1)
      then none
      else api_loop reply fuel (number + 1) so_far'
]

-- `_api_pr_files`, given the reply to each page number.
unfoldable pub api_pr_files : (ℕ → Reply) → Option (List Text)
unfolding api_loop
api_pr_files reply = api_loop reply max_pages 1 []

unfoldable pub is_lower_hex : ℕ → Bool
is_lower_hex c = leb b'0' c && leb c b'9' || leb b'a' c && leb c b'f'

-- `[0-9a-f]{n}$`: the end, or a line feed that ends the text.
unfoldable pub hex_end : ℕ → Text → Bool
unfolding is_lower_hex
hex_end zero [] = true
hex_end zero (c ∷ s) = c == 10 && s == []
hex_end (suc n) [] = false
hex_end (suc n) (c ∷ s) = is_lower_hex c && hex_end n s

-- _SHA_RE.match(s)
unfoldable pub is_sha : Text → Bool
unfolding hex_end
is_sha s = hex_end 40 s

-- `_git_diff`; `git base head` is the output of the command, if it succeeds.
unfoldable pub git_diff : (Text → Text → Option Text) → Text → Text → Option (List Text)
unfolding is_sha splitlines stripped_lines
git_diff git base head =
    if not (is_sha base && is_sha head)
    then none
    else elim (git base head) [ none ↦ none | some out ↦ some (stripped_lines (splitlines out)) ]
