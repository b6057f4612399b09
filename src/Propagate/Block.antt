-- ===== src/Propagate/Block.antt =====
-- `upsert_block`: the block between two markers in a repository's pre-commit configuration.
use security_toolchain.Prelude.{
  ℕ, suc, Bool, false, not, ◌&&◌, ◌||◌, Option, none, some, [], ◌∷◌, ◌++◌, Text, text, ◌==◌,
  text_eq, nat_eq, if◌then◌else◌, leb,
}
use security_toolchain.Str.{starts_with, has_substring}

-- BEGIN
abbrev pub begin_mark : Text
begin_mark = text "# thyn-security-toolchain:begin"

-- END
abbrev pub end_mark : Text
end_mark = text "# thyn-security-toolchain:end"

-- What `.format` makes of the files of templates/.
pub record Templates : Type 0 where
  pub pre_commit_block : (rev overlay : Text) → Text
  pub extra_hooks_python : (ruff_rev : Text) → Text
  pub pre_commit_config : (extra_hooks block : Text) → Text
  pub security : (full : Bool) → (sha tag overlay mode : Text) → Text
  pub dependabot_auto_merge : (sha tag auto_merge_majors : Text) → Text

-- s.rstrip("\n")
unfoldable pub strip_newlines : Text → Text
strip_newlines [] = []
strip_newlines (c ∷ s) =
    let rest = strip_newlines s in if c == b'\n' && rest == [] then [] else c ∷ rest

-- re.sub(r"\n{3,}", "\n\n", s), after a number of line feeds.
unfoldable pub squeeze : ℕ → Text → Text
squeeze n [] = []
squeeze n (c ∷ s) =
    let is_feed = c == b'\n' in
    let rest = squeeze (if is_feed then suc n else 0) s in
    if is_feed && leb 2 n then rest else c ∷ rest

-- A line after the first one starts with the text.
unfoldable pub later_line : Text → Text → Bool
unfolding starts_with
later_line start [] = false
later_line start (c ∷ s) =
    let rest = later_line start s in (c == b'\n' && starts_with s start) || rest

-- re.search(r"(?m)^start", s)
unfoldable pub has_line : Text → Text → Bool
unfolding starts_with later_line
has_line start s = starts_with s start || later_line start s

-- s[: s.index(mark)]
unfoldable pub before_mark : Text → Text → Text
unfolding starts_with
before_mark mark [] = []
before_mark mark (c ∷ s) =
    let rest = before_mark mark s in if starts_with (c ∷ s) mark then [] else c ∷ rest

-- s[len(mark):]
unfoldable pub skip : Text → Text → Text
skip [] s = s
skip (m ∷ mark) [] = []
skip (m ∷ mark) (c ∷ s) = skip mark s

-- s[s.index(mark) + len(mark):]
unfoldable pub after_mark : Text → Text → Text
unfolding starts_with skip
after_mark mark [] = []
after_mark mark (c ∷ s) =
    let rest = after_mark mark s in if starts_with (c ∷ s) mark then skip mark (c ∷ s) else rest

-- s[: s.rfind("\n") + 1]
unfoldable pub whole_lines : Text → Text
whole_lines [] = []
whole_lines (c ∷ s) =
    let rest = whole_lines s in if c == b'\n' || not (rest == []) then c ∷ rest else []

-- What follows the first line feed, if there is one.
unfoldable pub next_lines : Text → Text
next_lines [] = []
next_lines (c ∷ s) = let rest = next_lines s in if c == b'\n' then s else rest

-- A new configuration.
unfoldable pub new_config : Templates → Text → Bool → Text → Text
unfolding strip_newlines squeeze
new_config templates block python ruff_rev =
    let extra = if python then templates.extra_hooks_python ruff_rev else [] in
    let rendered = templates.pre_commit_config (strip_newlines extra) (strip_newlines block) in
    strip_newlines (squeeze 0 rendered) ++ text "\n"

unfoldable pub with_hook_types : Text → Text
unfolding has_line
with_hook_types s =
    if has_line (text "default_install_hook_types:") s
    then s
    else text "default_install_hook_types: [pre-commit, pre-push]\n" ++ s

unfoldable pub with_repos : Text → Text
unfolding has_line strip_newlines
with_repos s = if has_line (text "repos:") s then s else strip_newlines s ++ text "\nrepos:\n"

-- A configuration that has no block yet.
unfoldable pub append_block : Text → Text → Text
unfolding with_hook_types with_repos strip_newlines
append_block s block = strip_newlines (with_repos (with_hook_types s)) ++ (text "\n" ++ block)

-- A configuration that has both markers.
unfoldable pub replace_block : Text → Text → Text
unfolding before_mark after_mark whole_lines next_lines
replace_block s block =
    whole_lines (before_mark begin_mark s) ++ (block ++ next_lines (after_mark end_mark s))

unfoldable pub upsert_block : Templates → Option Text → Text → Bool → Text → Text
unfolding new_config append_block replace_block has_substring
upsert_block templates none block python ruff_rev = new_config templates block python ruff_rev
upsert_block templates (some s) block python ruff_rev =
    if has_substring s begin_mark && has_substring s end_mark
    then replace_block s block
    else append_block s block
