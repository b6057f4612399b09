-- ===== src/Changed/Event.antt =====
-- Where changed.py takes the changed files from: the override in the environment, then the GitHub
-- event. What it reads of the outside is a `World`; `none` is the `None` of a source that does
-- not apply. The log lines are left out.
pub mod Pull
pub mod Origin
pub mod Scoped
pub mod Derived
use security_toolchain.Prelude.{
  ℕ, Bool, true, false, not, ◌&&◌, ◌||◌, Option, none, some, List, [], ◌∷◌, ◌++◌, Text, text, ◌==◌,
  text_eq, if◌then◌else◌,
}
use security_toolchain.Prelude.Sorting.{sorted_set}
use security_toolchain.Json.{Json, Fields, null, int, obj, or_else}
use security_toolchain.Str.{upper, universal_newlines}
use security_toolchain.Str.Strip.{strip}
use security_toolchain.Changed.Lists.{Changed, everything, files, lines, all_marker}
use security_toolchain.Changed.Sources.{git_diff}
use security_toolchain.Changed.Event.Pull.{
  World, env_or, look, mapping, text_of, pull_scope, merge_group_pull_number, number_json,
}

-- `from_env`
unfoldable pub from_env : World → Option Changed
unfolding env_or strip upper lines universal_newlines
from_env w =
    let spec = env_or w (text "THYN_SEC_CHANGED_FILES") [] in
    if spec == []
    then none
    else if upper (strip spec) == all_marker
    then some everything
    else if not (w.is_file spec)
    then some everything
    else some (files (lines (universal_newlines (w.read_text spec))))

-- `_pushed_default_branch`; the default branch that it returns has a name.
unfoldable pub pushed_default_branch : World → Fields → Bool
unfolding env_or look mapping text_of strip
pushed_default_branch w event =
    let default =
      strip (text_of (look (text "default_branch") (mapping (look (text "repository") event)))) in
    let env_ref = env_or w (text "GITHUB_REF") [] in
    let ref = if env_ref == [] then text_of (look (text "ref") event) else env_ref in
    if default == []
    then false
    else if ref == text "refs/heads/" ++ default
    then true
    else if not (ref == [])
    then false
    else env_or w (text "GITHUB_REF_NAME") [] == default
      && not (env_or w (text "GITHUB_REF_TYPE") (text "branch") == text "tag")

abbrev pub zero_sha : Text
zero_sha = text "0000000000000000000000000000000000000000"

unfoldable pub diff_or_all : Option (List Text) → Changed
diff_or_all none = everything
diff_or_all (some fs) = files (sorted_set fs)

-- The branch of `from_github_event` for a push.
unfoldable pub push_scope : World → Fields → Changed
unfolding pushed_default_branch look text_of diff_or_all git_diff
push_scope w event =
    let before = text_of (look (text "before") event) in
    let after = text_of (look (text "after") event) in
    if pushed_default_branch w event
    then everything
    else if before == [] || (before == zero_sha || after == [])
    then everything
    else diff_or_all (git_diff w.git before after)

-- The branch for a pull request.
unfoldable pub request_scope : World → Fields → Changed
unfolding pull_scope look mapping text_of env_or
request_scope w event =
    let pull = mapping (look (text "pull_request") event) in
    pull_scope w (or_else (look (text "number") pull) (look (text "number") event))
      (text_of (look (text "sha") (mapping (look (text "base") pull))))
      (text_of (look (text "sha") (mapping (look (text "head") pull))))
      (env_or w (text "GITHUB_REPOSITORY") [])
      (env_or w (text "GITHUB_SERVER_URL") (text "https://github.com"))

-- The branch for a merge group.
unfoldable pub group_scope : World → Fields → Changed
unfolding pull_scope look mapping text_of env_or merge_group_pull_number number_json
group_scope w event =
    let group = mapping (look (text "merge_group") event) in
    pull_scope w (number_json (merge_group_pull_number (text_of (look (text "head_ref") group))))
      (text_of (look (text "base_sha") group)) (text_of (look (text "head_sha") group))
      (env_or w (text "GITHUB_REPOSITORY") [])
      (env_or w (text "GITHUB_SERVER_URL") (text "https://github.com"))

-- The scope of an event by its name.
unfoldable pub event_scope : World → Text → Json → Changed
unfolding request_scope group_scope push_scope
event_scope w name (obj event) =
    if name == text "pull_request" || name == text "pull_request_target"
    then request_scope w event
    else if name == text "merge_group"
    then group_scope w event
    else if name == text "push"
    then push_scope w event
    else everything
event_scope w name _ = everything

unfoldable pub loaded_scope : World → Text → Option Json → Changed
unfolding event_scope
loaded_scope w name none = everything
loaded_scope w name (some event) = event_scope w name event

-- `from_github_event`
unfoldable pub from_github_event : World → Option Changed
unfolding env_or loaded_scope universal_newlines
from_github_event w =
    let name = env_or w (text "GITHUB_EVENT_NAME") [] in
    let path = env_or w (text "GITHUB_EVENT_PATH") [] in
    if name == [] || (path == [] || not (w.is_file path))
    then none
    else some (loaded_scope w name (w.loads (universal_newlines (w.read_text path))))

unfoldable pub first_found : Option Changed → Option Changed → Changed
first_found (some c) other = c
first_found none (some c) = c
first_found none none = everything

-- `changed_files`
unfoldable pub changed_files : World → Changed
unfolding from_env from_github_event first_found
changed_files w = first_found (from_env w) (from_github_event w)
