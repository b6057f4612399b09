-- ===== src/Verify/Complete.antt =====
-- What it means that `verify_repo` of verify.py finds no problem.
use security_toolchain.Prelude.{
  ◌≡◌, refl, ◌∙◌, inl, inr, Bool, true, false, not, ◌&&◌, ◌||◌, Option, none, some, List, [], ◌∷◌,
  ◌++◌, Text, text, ◌==◌, text_eq, text_beq_iff, if◌then◌else◌, any, all, contains, arith,
  Bool-cases, Option-cases,
}
use security_toolchain.Changed.Sources.{is_sha}
use security_toolchain.Verify.{
  Call, Config, Checkout, Problem, not_a_sha, no_hooks, no_gate, is_there, has_rev, report,
  rev_problems, comment_problems, has_other_comment, expect_problems, call_problems, calls_problems,
  is_gate, calls_of, config_problems, verify_repo,
}

unfoldable pub no_problem : List Problem → Bool
no_problem [] = true
no_problem (p ∷ ps) = false

no_problem-append :
    (ps qs : List Problem) → no_problem (ps ++ qs) ≡ (no_problem ps && no_problem qs)
unfolding no_problem
no_problem-append [] qs = refl
no_problem-append (p ∷ ps) qs = refl

no_problem-report : (test : Bool) (p : Problem) → no_problem (report test p) ≡ not test
unfolding no_problem report
no_problem-report true p = refl
no_problem-report false p = refl

abbrev pub comment_is : Option Text → Text → Bool
comment_is none tag = false
comment_is (some comment) tag = comment == tag

-- A call that is pinned as it should be: to a commit hash that is the expected one if that is a hash,
-- with the installed tag in its comment, which is the expected ref if that is another.
abbrev pub is_pinned : Text → Text → Call → Bool
is_pinned tag expected call =
    is_sha call.ref
    && (comment_is call.comment tag
        && (expected == []
            || (if is_sha expected then call.ref == expected else tag == [] || tag == expected)))

comment-pinned :
    (tag expected : Text) (call : Call) (comment : Option Text)
    → (comment_is comment tag && not (has_other_comment comment expected))
      ≡ (comment_is comment tag && (tag == [] || tag == expected))
unfolding has_other_comment
comment-pinned tag expected call none = refl
comment-pinned tag expected call (some comment) = elim (Bool-cases (comment == tag)) [
  | inr differ ↦ rw (differ) refl
  | inl same ↦ let e = (text_beq_iff comment tag).0 same in rw (e) (ground arith)
]

no_problem-comment :
    (tag : Text) (call : Call)
    → no_problem (comment_problems tag call) ≡ comment_is call.comment tag
unfolding no_problem comment_problems
no_problem-comment tag call = elim (Option-cases call.comment) [
  | inl e ↦ rw (e, comment_problems) refl
  | inr found ↦
      let (comment, e) = found in
      rw (e, comment_problems) (no_problem-report (not (comment == tag)) _ ∙ ground arith)
]

no_problem-expect :
    (tag expected : Text) (call : Call)
    → no_problem (expect_problems expected call) ≡ (
        expected == []
        || (if is_sha expected
            then call.ref == expected
            else not (has_other_comment call.comment expected)))
unfolding no_problem expect_problems report
no_problem-expect tag expected call = ground arith

pinned-parts :
    (sha tagged unset exact same other other' : Bool)
    → (tagged && not other) ≡ (tagged && other')
    → (not (not sha) && (tagged && (unset || (if exact then same else not other))))
      ≡ (sha && (tagged && (unset || (if exact then same else other'))))
pinned-parts sha tagged unset exact same other other' h = ground arith

no_problem-call :
    (tag expected : Text) (call : Call)
    → no_problem (call_problems tag expected call) ≡ is_pinned tag expected call
unfolding call_problems
no_problem-call tag expected call =
    rw
      (
        no_problem-append (report (not (is_sha call.ref)) (not_a_sha call))
            (comment_problems tag call ++ expect_problems expected call),
        no_problem-append (comment_problems tag call) (expect_problems expected call),
        no_problem-report (not (is_sha call.ref)) (not_a_sha call),
        no_problem-comment tag call,
        no_problem-expect tag expected call,
      )
      (pinned-parts (is_sha call.ref) (comment_is call.comment tag) (expected == [])
        (is_sha expected) (call.ref == expected) (has_other_comment call.comment expected)
        (tag == [] || tag == expected) (comment-pinned tag expected call call.comment))

no_problem-calls :
    (tag expected : Text) (calls : List Call)
    → no_problem (calls_problems tag expected calls) ≡ all (is_pinned tag expected) calls
unfolding calls_problems all no_problem
no_problem-calls tag expected [] = refl
no_problem-calls tag expected (call ∷ calls) =
    no_problem-append (call_problems tag expected call) (calls_problems tag expected calls)
    ∙ ground (arith, no_problem-call tag expected call, no_problem-calls tag expected calls)

-- A configuration whose rev is the installed tag and which installs the pre-push hook, or one without
-- the toolchain.
abbrev pub is_configured : Text → Option Config → Bool
is_configured tag none = true
is_configured tag (some config) = elim config.rev [
  | none ↦ true
  | some rev ↦ rev == tag && contains config.types (text "pre-push")
]

no_problem-config :
    (tag : Text) (config : Option Config)
    → no_problem (config_problems tag config) ≡ is_configured tag config
unfolding no_problem config_problems rev_problems report
no_problem-config tag none = refl
no_problem-config tag (some config) = elim (Option-cases config.rev) [
  | inl e ↦ rw (e, rev_problems) refl
  | inr found ↦ let (rev, e) = found in rw (e, rev_problems) (ground arith)
]

-- Where there is a configuration and a workflow directory, the hooks come with a gate and the gate with
-- the hooks.
abbrev pub is_matched : Checkout → Bool
is_matched checkout =
    not (is_there checkout.config && is_there checkout.workflows)
    || (if has_rev checkout
        then any is_gate (calls_of checkout)
        else not (any is_gate (calls_of checkout)))

gated-workflows :
    (checkout : Checkout)
    → any is_gate (calls_of checkout) ≡ true
    → is_there checkout.workflows ≡ true
unfolding calls_of is_there any
gated-workflows checkout h = elim (Option-cases checkout.workflows) [
  | inl e ↦ absurd (cc (rw (e, calls_of) at h))
  | inr found ↦ let (calls, e) = found in rw (e) refl
]

rev-config : (checkout : Checkout) → has_rev checkout ≡ true → is_there checkout.config ≡ true
unfolding has_rev is_there
rev-config checkout h = elim (Option-cases checkout.config) [
  | inl e ↦ absurd (cc (rw (e, has_rev) at h))
  | inr found ↦ let (config, e) = found in rw (e) refl
]

-- verify_repo finds no problem exactly in a checkout whose configuration, if it has the toolchain, has it at the
-- installed tag with the pre-push hook, whose calls are all pinned as they should be, and in which hooks
-- and gate come together where a configuration and a workflow directory are there.
pub verify_repo_complete :
    (tag expected : Text) (checkout : Checkout)
    → no_problem (verify_repo tag expected checkout) ≡ (
        is_configured tag checkout.config
        && (all (is_pinned tag expected) (calls_of checkout) && is_matched checkout))
unfolding verify_repo
verify_repo_complete tag expected checkout =
    let gated = any is_gate (calls_of checkout) in
    let hooks = gated && (not (has_rev checkout) && is_there checkout.config) in
    let gate = has_rev checkout && (not gated && is_there checkout.workflows) in
    rw
      (
        no_problem-append (config_problems tag checkout.config) (
            calls_problems tag expected (calls_of checkout)
            ++ (report hooks no_hooks ++ report gate no_gate)),
        no_problem-append (calls_problems tag expected (calls_of checkout))
            (report hooks no_hooks ++ report gate no_gate),
        no_problem-append (report hooks no_hooks) (report gate no_gate),
        no_problem-report hooks no_hooks,
        no_problem-report gate no_gate,
        no_problem-config tag checkout.config,
        no_problem-calls tag expected (calls_of checkout),
      )
      (ground (arith, gated-workflows checkout, rev-config checkout))
