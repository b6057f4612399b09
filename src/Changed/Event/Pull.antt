-- ===== src/Changed/Event/Pull.antt =====
-- The fields of an event, and the changed files of one pull request.
use security_toolchain.Prelude.{
  ℕ, suc, ◌+◌, ◌*◌, ◌-◌, pos, Bool, true, false, not, ◌&&◌, Option, none, some, List, [], ◌∷◌, ◌++◌,
  Text, text, ◌==◌, text_eq, if◌then◌else◌, leb, nat_beq,
}
use security_toolchain.Prelude.Sorting.{sorted_set}
use security_toolchain.Json.{Json, Fields, null, bool, int, str, obj, end, find_field, or_default}
use security_toolchain.Str.{starts_with}
use security_toolchain.Changed.Lists.{Changed, everything, files}
use security_toolchain.Changed.Sources.{Reply, api_pr_files, git_diff, hex_end}

-- What changed.py reads of the environment, the files, the network and git: `loads` is `none` for a
-- text that is no JSON; `pages api repo number token` is the reply to the request for each page.
pub record World : Type 0 where
  pub env : Text → Option Text
  pub is_file : Text → Bool
  pub read_text : Text → Text
  pub loads : Text → Option Json
  pub pages : Text → Text → Json → Text → ℕ → Reply
  pub git : Text → Text → Option Text

-- os.environ.get(k, d)
unfoldable pub env_or : World → Text → Text → Text
env_or w k d = elim (w.env k) [ none ↦ d | some v ↦ v ]

-- x.get(k) of an object
unfoldable pub look : Text → Fields → Json
unfolding find_field or_default
look k fs = or_default (find_field k fs) null

-- `_mapping`
unfoldable pub mapping : Json → Fields
mapping (obj fs) = fs
mapping _ = end

-- `_text`
unfoldable pub text_of : Json → Text
text_of (str s) = s
text_of _ = []

drop_slashes : Text → Text
drop_slashes [] = []
drop_slashes (c ∷ s) =
    let rest = drop_slashes s in if nat_beq c b'/' && rest == [] then [] else c ∷ rest

-- The base of the API's addresses.
unfoldable pub api_base : World → Text → Text
unfolding env_or drop_slashes
api_base w server =
    let given = env_or w (text "GITHUB_API_URL") [] in
    if not (given == [])
    then given
    else if drop_slashes server == text "https://github.com"
    then text "https://api.github.com"
    else drop_slashes server ++ text "/api/v3"

-- isinstance(number, int) and number > 0, where `True` is an int
unfoldable pub is_positive : Json → Bool
is_positive (bool b) = b
is_positive (int (pos (suc n))) = true
is_positive _ = false

-- The token of the requests.
unfoldable pub api_token : World → Text
unfolding env_or
api_token w =
    let github = env_or w (text "GITHUB_TOKEN") [] in
    if github == [] then env_or w (text "GH_TOKEN") [] else github

-- The list from the API, where it is asked.
unfoldable pub from_api : World → Json → Text → Text → Option (List Text)
unfolding is_positive api_token api_base api_pr_files
from_api w number repo server =
    let token = api_token w in
    if is_positive number && (not (token == []) && not (repo == []))
    then api_pr_files (w.pages (api_base w server) repo number token)
    else none

-- The list from git, where both commits are known.
unfoldable pub from_diff : World → Text → Text → Option (List Text)
unfolding git_diff
from_diff w base head =
    if not (base == []) && not (head == []) then git_diff w.git base head else none

-- `_pull_scope`
unfoldable pub pull_scope : World → Json → Text → Text → Text → Text → Changed
unfolding from_api from_diff
pull_scope w number base head repo server = elim (from_api w number repo server) [
  | some fs ↦ files (sorted_set fs)
  | none ↦ (elim (from_diff w base head) [ some fs ↦ files (sorted_set fs) | none ↦ everything ])
]

is_ascii_digit : ℕ → Bool
is_ascii_digit c = leb b'0' c && leb c b'9'

-- `[0-9]*-[0-9a-f]{40}$` after the digits that are read as n: the digits end at the first dash.
digits_then_sha : ℕ → Text → Option ℕ
unfolding is_ascii_digit hex_end
digits_then_sha n [] = none
digits_then_sha n (c ∷ s) =
    let rest = digits_then_sha (n * 10 + (c - b'0')) s in
    if is_ascii_digit c then rest else if nat_beq c b'-' && hex_end 40 s then some n else none

-- `[1-9]` and the rest
number_then_sha : Text → Option ℕ
unfolding is_ascii_digit digits_then_sha
number_then_sha [] = none
number_then_sha (c ∷ s) =
    if is_ascii_digit c && not (nat_beq c b'0') then digits_then_sha (c - b'0') s else none

drop_four : Text → Text
drop_four (a ∷ b ∷ c ∷ d ∷ s) = s
drop_four _ = []

-- `_MERGE_GROUP_REF_RE.match(s)`
ref_here : Text → Option ℕ
unfolding starts_with number_then_sha drop_four
ref_here s = if starts_with s (text "/pr-") then number_then_sha (drop_four s) else none

-- `merge_group_pull_number`: the first match, for a number that `int` converts (of no more than 4300
-- digits).
unfoldable pub merge_group_pull_number : Text → Option ℕ
unfolding ref_here
merge_group_pull_number [] = none
merge_group_pull_number (c ∷ s) = elim (ref_here (c ∷ s)) [
  | some n ↦ some n
  | none ↦ merge_group_pull_number s
]

-- A number, or `None`.
unfoldable pub number_json : Option ℕ → Json
number_json none = null
number_json (some n) = int (pos n)
