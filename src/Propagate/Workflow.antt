-- ===== src/Propagate/Workflow.antt =====
-- The callers of the toolchain's workflows: `upsert_workflow`, `upsert_auto_merge_workflow`,
-- `add_merge_group_trigger` and `_carry_forward_permissions`, over what `re` finds in a caller.
use security_toolchain.Prelude.{
  ℕ, suc, ◌+◌, ◌-◌, Bool, not, Option, none, some, List, [], ◌∷◌, ◌++◌, Text, text, ◌==◌, text_eq,
  nat_eq, if◌then◌else◌, take, keep, contains, length,
}
use security_toolchain.Prelude.Result.{Result, ok, err, ◌>>=◌}
use security_toolchain.Str.Strip.{strip, lstrip}
use security_toolchain.Str.Lines.{splitlines}
use security_toolchain.Propagate.Block.{Templates}

-- What ends a run for one repository (SystemExit), and what ends the program.
pub data FleetError : Type 0 where
  system_exit key_error index_error : FleetError

-- s[n:]
unfoldable pub drop : ℕ → Text → Text
drop (suc n) (c ∷ s) = drop n s
drop _ s = s

-- A match of _PERMISSIONS_BLOCK_RE: where it ends, and its groups.
pub record PermissionsMatch : Type 0 where
  pub end_at : ℕ
  pub indent : Text
  pub body : Text

-- The searches and the substitution of `re` in a caller.
pub record Patterns : Type 0 where
  -- _USES_RE.search and _USES_RE.sub with a commit and a tag
  pub has_uses : Text → Bool
  pub with_uses : (sha tag s : Text) → Text
  -- _AUTO_MERGE_USES_RE.search, and the group of _AUTO_MERGE_MAJORS_RE.search
  pub has_auto_merge_uses : Text → Bool
  pub auto_merge_majors : Text → Option Text
  -- _ON_BLOCK_RE.search: where the body starts, and the body
  pub on_block : Text → Option (ℕ × Text)
  -- the indent of the first entry of the body
  pub first_indent : Text → Option Text
  pub has_merge_group : (indent body : Text) → Bool
  -- the entry of pull_request: where it ends in the body, and what is nested in it
  pub pull_request : (indent body : Text) → Option (ℕ × Text)
  pub branches : (indent nested : Text) → Option Text
  -- _PERMISSIONS_BLOCK_RE.search
  pub permissions_block : Text → Option PermissionsMatch

-- s.split(":")[0]
unfoldable pub scope_of : Text → Text
scope_of [] = []
scope_of (c ∷ s) = let rest = scope_of s in if c == b':' then [] else c ∷ rest

-- _REQUIRED_CALLER_PERMISSIONS[kind]
unfoldable pub required_permissions : Text → Result FleetError (List Text)
required_permissions kind =
    if kind == text "full"
    then ok (
        text "contents: read"
        ∷ text "security-events: write"
        ∷ text "pull-requests: read"
        ∷ text "actions: read # SARIF upload needs it while this repository is private"
        ∷ [])
    else if kind == text "smoke"
    then ok (text "contents: read" ∷ [])
    else err key_error

-- The scopes that a block lists.
unfoldable pub present_in : List Text → List Text
unfolding strip scope_of
present_in [] = []
present_in (line ∷ lines) =
    let rest = present_in lines in if strip line == [] then rest else scope_of (strip line) ∷ rest

unfoldable pub missing_from : List Text → List Text → List Text
unfolding scope_of
missing_from present required = keep (λ p. not (contains present (scope_of p))) required

-- The lines for the missing permissions, indented as the first line of the block.
unfoldable pub permission_lines : Text → Text → List Text → Text
permission_lines indent inner_indent [] = []
permission_lines indent inner_indent (p ∷ missing) =
    indent ++ (inner_indent ++ (p ++ (b'\n' ∷ permission_lines indent inner_indent missing)))

-- body.splitlines()[0][len(indent):] up to what is no white space
unfoldable pub inner_indent_of : Text → List Text → Result FleetError Text
unfolding drop lstrip
inner_indent_of indent [] = err index_error
inner_indent_of indent (line ∷ lines) =
    let inner = drop (length indent) line in ok (take (length inner - length (lstrip inner)) inner)

unfoldable pub add_permissions : Text → PermissionsMatch → List Text → Result FleetError Text
unfolding inner_indent_of splitlines permission_lines drop
add_permissions s m [] = ok s
add_permissions s m (p ∷ missing) = do
  inner_indent ← inner_indent_of m.indent (splitlines m.body)
  ok (take m.end_at s ++ (permission_lines m.indent inner_indent (p ∷ missing) ++ drop m.end_at s))

unfoldable pub carry_forward_found : Text → Text → Option PermissionsMatch → Result FleetError Text
unfolding splitlines present_in required_permissions missing_from add_permissions
carry_forward_found s kind none = ok s
carry_forward_found s kind (some m) = do
  required ← required_permissions kind
  add_permissions s m (missing_from (present_in (splitlines m.body)) required)

-- `_carry_forward_permissions`
unfoldable pub carry_forward_permissions : Patterns → Text → Text → Result FleetError Text
unfolding carry_forward_found
carry_forward_permissions patterns s kind =
    carry_forward_found s kind (patterns.permissions_block s)

abbrev pub or_empty : Option Text → Text
or_empty none = []
or_empty (some s) = s

-- `add_merge_group_trigger`
unfoldable pub add_merge_group_trigger : Patterns → Text → Text
unfolding drop
add_merge_group_trigger patterns s = elim (patterns.on_block s) [
  | none ↦ s
  | some (start, body) ↦ elim (patterns.first_indent body) [
    | none ↦ s
    | some indent ↦
        if patterns.has_merge_group indent body
        then s
        else elim (patterns.pull_request indent body) [
          | none ↦ s
          | some (pull_end, nested) ↦
              let entry =
                indent ++ (text "merge_group:\n" ++ or_empty (patterns.branches indent nested)) in
              let at = start + pull_end in take at s ++ (entry ++ drop at s)
        ]
  ]
]

unfoldable pub new_workflow : Templates → Text → (sha tag overlay mode : Text) → Text
new_workflow templates kind sha tag overlay mode =
    templates.security (kind == text "full") sha tag overlay mode

-- `upsert_workflow`
unfoldable pub upsert_workflow :
    Templates → Patterns → Option Text → (kind sha tag overlay mode : Text) → Result FleetError Text
unfolding new_workflow carry_forward_permissions add_merge_group_trigger
upsert_workflow templates patterns none kind sha tag overlay mode =
    ok (new_workflow templates kind sha tag overlay mode)
upsert_workflow templates patterns (some existing) kind sha tag overlay mode =
    if patterns.has_uses existing
    then (do
      carried ← carry_forward_permissions patterns (patterns.with_uses sha tag existing) kind
      ok (add_merge_group_trigger patterns carried))
    else ok (new_workflow templates kind sha tag overlay mode)

-- The choice of an existing caller, if it has made one.
unfoldable pub chosen_majors : Patterns → Option Text → Bool → Bool
chosen_majors patterns none majors = majors
chosen_majors patterns (some existing) majors =
    if patterns.has_auto_merge_uses existing
    then elim (patterns.auto_merge_majors existing) [
      | none ↦ majors
      | some chosen ↦ chosen == text "true"
    ]
    else majors

-- `upsert_auto_merge_workflow`
unfoldable pub upsert_auto_merge_workflow :
    Templates → Patterns → Option Text → (sha tag : Text) → Bool → Text
unfolding chosen_majors
upsert_auto_merge_workflow templates patterns existing sha tag majors =
    let flag = if chosen_majors patterns existing majors then text "true" else text "false" in
    templates.dependabot_auto_merge sha tag flag
