-- ===== src/Changed/Event/Scoped.antt =====
-- The list that an event narrows a run to.
use security_toolchain.Prelude.{
  ◌≡◌, refl, ap, subst, inl, inr, Bool, true, false, not, ◌&&◌, ◌||◌, Option, none, some, List, [],
  Text, text, ◌==◌, text_eq, text_beq_iff, arith, ◌∙◌, Bool-cases, Option-cases, if◌then◌else◌, ◌⊎◌,
}
use security_toolchain.Prelude.Sorting.{sorted_set}
use security_toolchain.Json.{Json, Fields, null, bool, int, frac, str, arr, obj}
use security_toolchain.Str.Lines.{splitlines}
use security_toolchain.Changed.Lists.{Changed, everything, files, stripped_lines}
use security_toolchain.Changed.Sources.{git_diff, is_sha}
use security_toolchain.Changed.Sources.Listing.{api_pr_files-IsListing}
use security_toolchain.Changed.Event.Origin.{
  IsEventUsed, IsEvent, repository_of, server_of, IsPull, request, group, IsDiff, IsDerived, listed,
  pull_diffed, push_diffed,
}
use security_toolchain.Changed.Event.Pull.{
  is_positive, api_token, World, text_of, look, from_api, from_diff, pull_scope,
}
use security_toolchain.Changed.Event.{
  zero_sha, push_scope, diff_or_all, request_scope, group_scope, event_scope, loaded_scope,
  pushed_default_branch,
}

Changed-list : Changed → List Text
Changed-list everything = []
Changed-list (files fs) = fs

pub files-injective : {fs gs : List Text} → files fs ≡ files gs → fs ≡ gs
unfolding Changed-list
files-injective e = ap Changed-list e

then-of-some :
    {A : Type 0} (b : Bool) (o : Option A) {x : A} → (if b then o else none) ≡ some x → o ≡ some x
then-of-some true o h = h
then-of-some false o h = absurd (cc)

git_diff-IsDiff :
    (w : World) (base head : Text) {raw : List Text}
    → git_diff w.git base head ≡ some raw
    → (out : Text) × IsDiff w base head out × (stripped_lines (splitlines out) ≡ raw)
unfolding git_diff
git_diff-IsDiff w base head {raw} h = elim (Bool-cases (is_sha base && is_sha head)) [
  | inr bad ↦ absurd (cc (rw (bad) at h))
  | inl good ↦ elim (Option-cases (w.git base head)) [
    | inl none_out ↦ absurd (cc (rw (good, none_out) at h))
    | inr found ↦
        let (out, e) = found in (out, (ground arith, ground arith, e), cc (rw (good, e) at h))
  ]
]

api-choice :
    (positive no_token no_repo : Bool) (o : Option (List Text)) {fs : List Text}
    → (if positive && (not no_token && not no_repo) then o else none) ≡ some fs
    → (positive ≡ true) × (no_token ≡ false) × (no_repo ≡ false) × (o ≡ some fs)
api-choice true false false o h = (refl, refl, refl, h)
api-choice true false true o h = absurd (cc)
api-choice true true no_repo o h = absurd (cc)
api-choice false no_token no_repo o h = absurd (cc)

module _ (w : World) (used : IsEventUsed w) {name : Text} {event : Fields}
    (given : IsEvent w name event) where
  from_api-IsDerived :
      {number : Json} {base head : Text} {raw : List Text}
      → IsPull event name number base head
      → from_api w number (repository_of w) (server_of w) ≡ some raw
      → IsDerived w (sorted_set raw)
  unfolding from_api
  from_api-IsDerived {number} {base} {head} {raw} pull h =
      let (positive, token, repo, listing) =
        api-choice (is_positive number) (api_token w == []) (repository_of w == []) _ h in
      listed used given pull positive token repo (api_pr_files-IsListing _ listing)

  from_diff-IsDerived :
      {number : Json} {base head : Text} {raw : List Text}
      → IsPull event name number base head
      → from_api w number (repository_of w) (server_of w) ≡ none
      → from_diff w base head ≡ some raw
      → IsDerived w (sorted_set raw)
  unfolding from_diff
  from_diff-IsDerived {number} {base} {head} {raw} pull unlisted h =
      let (out, made, same) = git_diff-IsDiff w base head (then-of-some _ _ h) in
      subst (λ fs. IsDerived w (sorted_set fs)) same (pull_diffed used given pull unlisted made)

  pull_scope-IsDerived :
      {number : Json} {base head : Text} {fs : List Text}
      → IsPull event name number base head
      → pull_scope w number base head (repository_of w) (server_of w) ≡ files fs
      → IsDerived w fs
  unfolding pull_scope
  pull_scope-IsDerived {number} {base} {head} {fs} pull h =
      elim (Option-cases (from_api w number (repository_of w) (server_of w))) [
        | inr found ↦
            let (raw, e) = found in
            subst (IsDerived w) (files-injective (rw (e, pull_scope) at h))
              (from_api-IsDerived pull e)
        | inl unknown ↦ elim (Option-cases (from_diff w base head)) [
          | inr found ↦
              let (raw, e) = found in
              subst (IsDerived w) (files-injective (rw (unknown, e, pull_scope) at h))
                (from_diff-IsDerived pull unknown e)
          | inl undecided ↦ absurd (cc (rw (unknown, undecided, pull_scope) at h))
        ]
      ]

push-choice :
    (default unset zero unnamed : Bool) (o : Option (List Text)) {fs : List Text}
    → (if default
        then everything
        else if unset || (zero || unnamed)
        then everything
        else diff_or_all o)
      ≡ files fs
    → (default ≡ false)
      × (zero ≡ false)
      × (raw : List Text) × (o ≡ some raw)
      × (sorted_set raw ≡ fs)
unfolding diff_or_all
push-choice false false false false (some raw) h = (refl, refl, raw, refl, files-injective h)
push-choice false false false false none h = absurd (cc)
push-choice true unset zero unnamed o h = absurd (cc)
push-choice false true zero unnamed o h = absurd (cc)
push-choice false false true unnamed o h = absurd (cc)
push-choice false false false true o h = absurd (cc)

push_scope-IsDerived :
    (w : World) {name : Text} {event : Fields} {fs : List Text}
    → IsEventUsed w
    → IsEvent w name event
    → name ≡ text "push"
    → push_scope w event ≡ files fs
    → IsDerived w fs
unfolding push_scope
push_scope-IsDerived w {name} {event} {fs} used given pushed h =
    let before = text_of (look (text "before") event) in
    let after = text_of (look (text "after") event) in
    let (other, old, raw, e, same) =
      push-choice (pushed_default_branch w event) (before == []) (before == zero_sha) (after == [])
        (git_diff w.git before after) h in
    let (out, made, read) = git_diff-IsDiff w before after e in
    subst (IsDerived w) (ap sorted_set read ∙ same) (push_diffed used given pushed other old made)

-- Which scope an event has.
name-choice :
    (pull queue push : Bool) (r g p : Changed) {fs : List Text} {P : Type 0}
    → (pull ≡ true → r ≡ files fs → P)
    → (queue ≡ true → g ≡ files fs → P)
    → (push ≡ true → p ≡ files fs → P)
    → (if pull then r else if queue then g else if push then p else everything) ≡ files fs
    → P
name-choice true queue push r g p hr hg hp h = hr refl h
name-choice false true push r g p hr hg hp h = hg refl h
name-choice false false true r g p hr hg hp h = hp refl h
name-choice false false false r g p hr hg hp h = absurd (cc)

either-name : (name s t : Text) → (name == s || name == t) ≡ true → (name ≡ s) ⊎ (name ≡ t)
either-name name s t h = elim (Bool-cases (name == s)) [
  | inl same ↦ inl ((text_beq_iff name s).0 same)
  | inr differs ↦ inr ((text_beq_iff name t).0 (rw (differs) at h))
]

pub object-IsDerived :
    (w : World) (name : Text) (event : Fields) {fs : List Text}
    → IsEventUsed w
    → IsEvent w name event
    → event_scope w name (obj event) ≡ files fs
    → IsDerived w fs
unfolding event_scope request_scope group_scope
object-IsDerived w name event used given h =
    name-choice (name == text "pull_request" || name == text "pull_request_target")
      (name == text "merge_group") (name == text "push") _ _ _
      (λ e k.
        pull_scope-IsDerived w used given
          (request (either-name name (text "pull_request") (text "pull_request_target") e)) k)
      (λ e k. pull_scope-IsDerived w used given (group ((text_beq_iff name _).0 e)) k)
      (λ e k. push_scope-IsDerived w used given ((text_beq_iff name _).0 e) k) h

pub loaded-object :
    (w : World) (name : Text) (event : Option Json) {fs : List Text}
    → loaded_scope w name event ≡ files fs
    → (object : Fields) × (event ≡ some (obj object)) × (event_scope w name (obj object) ≡ files fs)
unfolding loaded_scope event_scope
loaded-object w name none h = absurd (cc)
loaded-object w name (some (obj event)) h = (event, refl, h)
loaded-object w name (some null) h = absurd (cc)
loaded-object w name (some (bool b)) h = absurd (cc)
loaded-object w name (some (int n)) h = absurd (cc)
loaded-object w name (some (frac s)) h = absurd (cc)
loaded-object w name (some (str s)) h = absurd (cc)
loaded-object w name (some (arr xs)) h = absurd (cc)
