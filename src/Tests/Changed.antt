-- ===== src/Tests/Changed.antt =====
-- Runs of the definitions of changed.py, and its theorems at concrete inputs.
use security_toolchain.Prelude.{
  ℕ, ◌≡◌, refl, false, Option, none, some, List, [], ◌∷◌, Text, text, ◌==◌, text_eq, nat_eq,
  if◌then◌else◌,
}
use security_toolchain.Str.{starts_with}
use security_toolchain.Str.Space.{is_space}
use security_toolchain.Json.{Json, str, obj, field, end}
use security_toolchain.Changed.Lists.{files, write_list, read_list, one_marker}
use security_toolchain.Changed.Lists.RoundTrip.{is_storable, CanWrite, read_list-write_list}
use security_toolchain.Changed.Sources.{FileItem, Reply, failed, page, api_pr_files, git_diff}
use security_toolchain.Changed.Sources.Listing.{IsListing, api_pr_files-IsListing}
use security_toolchain.Changed.Sources.Revisions.{git_diff_ext}
use security_toolchain.Changed.Event.Pull.{World}

abbrev two_files : List Text
two_files = text "src/a b.py" ∷ text "Dockerfile" ∷ []

two_files-storable : CanWrite (files two_files)
unfolding is_storable one_marker is_space
two_files-storable = ((refl, (refl, tt)), refl)

read_list-write_list_example : read_list (write_list (files two_files)) ≡ files two_files
read_list-write_list_example = read_list-write_list (files two_files) two_files-storable

renamed : FileItem
renamed = record { filename = some (text "new.py"); previous_filename = some (text "old.py") }

replies : ℕ → Reply
unfolding renamed
replies number = if number == 1 then page (renamed ∷ []) else failed

replies-one_page : api_pr_files replies ≡ some (text "new.py" ∷ text "old.py" ∷ [])
unfolding api_pr_files replies
replies-one_page = refl

api_pr_files-IsListing_example : IsListing replies 1 (text "new.py" ∷ text "old.py" ∷ [])
api_pr_files-IsListing_example = api_pr_files-IsListing replies replies-one_page

sha : Text
sha = text "0123456789abcdef0123456789abcdef01234567"

diff_output : Text → Text → Option Text
diff_output base head = some (text "b.py\na.py\n")

refusing_options : Text → Text → Option Text
unfolding starts_with
refusing_options base head =
    if starts_with base (text "-")
    then none
    else if starts_with head (text "-")
    then none
    else some (text "b.py\na.py\n")

outputs-agree :
    (base head : Text)
    → starts_with base (text "-") ≡ false
    → starts_with head (text "-") ≡ false
    → diff_output base head ≡ refusing_options base head
unfolding diff_output refusing_options
outputs-agree base head h k = rw (h, k) refl

git_diff_ext_example : git_diff diff_output sha sha ≡ git_diff refusing_options sha sha
git_diff_ext_example = git_diff_ext diff_output refusing_options outputs-agree sha sha

variable_of : Text → Option Text
unfolding sha
variable_of name =
    if name == text "GITHUB_EVENT_NAME"
    then some (text "pull_request")
    else if name == text "GITHUB_EVENT_PATH"
    then some (text "/event.json")
    else none

commit : Text → Json
commit s = obj (field (text "sha") (str s) end)

event : Json
unfolding commit sha
event = obj (
    field (text "pull_request")
      (obj (field (text "base") (commit sha) (field (text "head") (commit sha) end))) end)

world : World
unfolding variable_of event diff_output
world = record {
  env = variable_of;
  is_file = λ path. path == text "/event.json";
  read_text = λ path. text "{}";
  loads = λ content. some event;
  pages = λ api repo number token page. failed;
  git = diff_output;
}
