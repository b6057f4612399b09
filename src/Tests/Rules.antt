-- ===== src/Tests/Rules.antt =====
-- A first fetch of the rules.
use security_toolchain.Prelude.{
  ◌≡◌, refl, true, false, none, some, List, [], ◌∷◌, Text, text, text_eq, ◌==◌, nat_eq,
  if◌then◌else◌,
}
use security_toolchain.Prelude.Result.{ok}
use security_toolchain.Json.{Json, str, obj, field, end}
use security_toolchain.Lock.{rules_spec}
use security_toolchain.Fetch.{Bytes, Disk, Member, Outside, text_field, replace_file}
use security_toolchain.Fetch.Rules.{rules_path, rules_target, marker_of, put_below, remove_below}
use security_toolchain.Fetch.Rules.Filled.{IsCurrent}
use security_toolchain.Fetch.Rules.Kept.{cut_off, rules_path-IsCurrent}
use security_toolchain.Tests.Lock.{shown_text}

abbrev rules_lock : Json
rules_lock = obj (
    field (text "rules")
      (obj (
        field (text "r")
          (obj (
            field (text "url") (str (text "u")) (
              field (text "sha256") (str (text "d"))
                (field (text "commit") (str (text "0123456789abcdef")) end))))
          end))
      end)

abbrev members : Bytes → List Member
members content =
    record { name = text "repo/go/a.yaml"; is_file = true; content = some (text "rule") } ∷ []

abbrev outside : Outside
outside = record {
  get = λ url attempt. some (text "tarball");
  sha256 = λ content. text "d";
  members = members;
  offline = false;
  cache = text "/c";
  show = shown_text;
}

-- An older rule lies in the directory.
abbrev disk : Disk
disk = λ p. if p == text "/c/rules/r-0123456789ab/old.yaml" then some [] else none

abbrev target : Text
target = text "/c/rules/r-0123456789ab"

after : Disk
unfolding put_below
after =
    replace_file
      (put_below (remove_below disk target) target
        ((text "go" ∷ text "a.yaml" ∷ [], text "rule") ∷ []))
      (marker_of target) (text "0123456789abcdef\n")

fetched_rules : rules_path outside disk rules_lock (text "r") ≡ ok (target, after)
unfolding rules_path after
fetched_rules = refl

old_is_gone : after (text "/c/rules/r-0123456789ab/old.yaml") ≡ none
unfolding after replace_file remove_below
old_is_gone = refl

rules_path-IsCurrent_example :
    (spec : Json) × (commit : Text) × (rules_spec rules_lock (text "r") ≡ ok spec)
    × (text_field spec (text "commit") ≡ ok commit)
    × (target ≡ rules_target outside.cache (text "r") commit)
    × IsCurrent outside disk spec target commit after
    × (rules_path (cut_off outside) after rules_lock (text "r") ≡ ok (target, after))
rules_path-IsCurrent_example =
    rules_path-IsCurrent outside disk rules_lock (text "r") target after fetched_rules
