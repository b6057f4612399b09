-- ===== src/Changed/Event/Origin.antt =====
-- The sources of a list of changed files in changed.py, told from the environment, the event, the
-- replies of the API and the output of git.
use security_toolchain.Prelude.{
  ◌≡◌, ◌⊎◌, true, false, some, none, List, [], Text, text, ◌==◌, text_eq,
}
use security_toolchain.Prelude.Sorting.{sorted_set}
use security_toolchain.Json.{Json, Fields, obj, or_else}
use security_toolchain.Str.{universal_newlines, upper}
use security_toolchain.Str.Strip.{strip}
use security_toolchain.Str.Lines.{splitlines}
use security_toolchain.Changed.Lists.{lines, stripped_lines, all_marker}
use security_toolchain.Changed.Sources.{is_sha}
use security_toolchain.Changed.Sources.Listing.{IsListing}
use security_toolchain.Changed.Event.Pull.{
  World, env_or, look, mapping, text_of, is_positive, api_token, api_base, from_api,
  merge_group_pull_number, number_json,
}
use security_toolchain.Changed.Event.{zero_sha, pushed_default_branch}

-- The variable that overrides the event is unset or empty.
abbrev pub IsEventUsed : World → Type 0
IsEventUsed w = env_or w (text "THYN_SEC_CHANGED_FILES") [] ≡ []

-- The run was started by an event of this name, and its file holds this object.
abbrev pub IsEvent : World → Text → Fields → Type 0
IsEvent w name event =
    let path = env_or w (text "GITHUB_EVENT_PATH") [] in
    (env_or w (text "GITHUB_EVENT_NAME") [] ≡ name)
    × (w.is_file path ≡ true)
    × (w.loads (universal_newlines (w.read_text path)) ≡ some (obj event))

abbrev pub repository_of : World → Text
repository_of w = env_or w (text "GITHUB_REPOSITORY") []

abbrev pub server_of : World → Text
server_of w = env_or w (text "GITHUB_SERVER_URL") (text "https://github.com")

-- The events of a pull request: its number, and the commits at its base and at its head.
pub data IsPull (event : Fields) : Text → Json → Text → Text → Type 0 where
  request :
      {name : Text}
      → (name ≡ text "pull_request") ⊎ (name ≡ text "pull_request_target")
      → IsPull event name
          (or_else
            (look (text "number") (mapping (look (text "pull_request") event)))
            (look (text "number") event))
          (text_of (
            look
              (text "sha")
              (mapping (look (text "base") (mapping (look (text "pull_request") event))))))
          (text_of (
            look
              (text "sha")
              (mapping (look (text "head") (mapping (look (text "pull_request") event))))))
  group :
      {name : Text}
      → name ≡ text "merge_group"
      → IsPull event name
          (number_json (
            merge_group_pull_number
              (text_of (look (text "head_ref") (mapping (look (text "merge_group") event))))))
          (text_of (look (text "base_sha") (mapping (look (text "merge_group") event))))
          (text_of (look (text "head_sha") (mapping (look (text "merge_group") event))))

-- Git printed this difference of two commits, each given by its hash.
abbrev pub IsDiff : World → (base head out : Text) → Type 0
IsDiff w base head out = (is_sha base ≡ true) × (is_sha head ≡ true) × (w.git base head ≡ some out)

-- The ways to a concrete list.
pub data IsDerived (w : World) : List Text → Type 0 where
  -- the file that THYN_SEC_CHANGED_FILES names
  overridden :
      (path : Text)
      → w.env (text "THYN_SEC_CHANGED_FILES") ≡ some path
      → (upper (strip path) == all_marker) ≡ false
      → w.is_file path ≡ true
      → IsDerived w (lines (universal_newlines (w.read_text path)))
  -- the whole listing of the event's pull request in the run's repository
  listed :
      {name base head : Text} {event : Fields} {number : Json} {fs : List Text}
      → IsEventUsed w
      → IsEvent w name event
      → IsPull event name number base head
      → is_positive number ≡ true
      → (api_token w == []) ≡ false
      → (repository_of w == []) ≡ false
      → IsListing (w.pages (api_base w (server_of w)) (repository_of w) number (api_token w)) 1 fs
      → IsDerived w (sorted_set fs)
  -- the difference of the pull request's commits, where the API gives no listing
  pull_diffed :
      {name base head out : Text} {event : Fields} {number : Json}
      → IsEventUsed w
      → IsEvent w name event
      → IsPull event name number base head
      → from_api w number (repository_of w) (server_of w) ≡ none
      → IsDiff w base head out
      → IsDerived w (sorted_set (stripped_lines (splitlines out)))
  -- the difference that a push to another branch than the default one made
  push_diffed :
      {name out : Text} {event : Fields}
      → IsEventUsed w
      → IsEvent w name event
      → name ≡ text "push"
      → pushed_default_branch w event ≡ false
      → (text_of (look (text "before") event) == zero_sha) ≡ false
      → IsDiff w (text_of (look (text "before") event)) (text_of (look (text "after") event)) out
      → IsDerived w (sorted_set (stripped_lines (splitlines out)))
