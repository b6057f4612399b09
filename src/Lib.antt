-- ===== src/Lib.antt =====
-- The verification library of the thyn-ai security toolchain, the Python package
-- thyn_security_toolchain/. The program runs pinned scanners over a repository, reads their reports,
-- and judges the findings against baselines that are committed with the code.
--
-- How the parts interact. lock.py validates the lock of tool versions and digests; fetch.py downloads a
-- tool that the lock names and keeps it only with the lock's digest; changed.py decides which files a
-- run scans, from an override, a GitHub event or nothing; hooks.py runs a scanner, with overlays that
-- say which rules it uses, and hands its report to a reader of gate.py; gate.py turns a report
-- into findings and evaluates them against a baseline; ci.py composes all that into one exit code.
--
-- Which file models which part:
--   Prelude, Str, Json     the shared base: Boolean tests on native numbers, lists with a decidable
--                          equality, results with do blocks, sorted sets; Python's str as a list of
--                          code points (strip, splitlines, split, upper, lower, newlines on reading); the
--                          values of json.loads with the exceptions that Python's operations raise
--   Gate/Finding, Gate/Evaluate        Finding, GateResult and evaluate of thyn_security_toolchain/gate.py
--   Gate/Whitespace, Gate/Fields       _norm_ws, _severity_from_score, _line, _identifier, _rel
--   Gate/Baseline          read_baseline, render_baseline and write_baseline; its children hold the
--                          round trip and what measuring a baseline leads to
--   Gate/Reports           parse_opengrep_sarif, parse_trivy_sarif, parse_osv_json, parse_gitleaks_json
--                          and the decorator _report_shape, on a decoded JSON value; Gate/Host is what
--                          they take from Python's runtime (digits, float, path resolution)
--   Gate/Annotate          _gh_escape and the workflow commands of annotate
--   Gate/Sarif             demote_low_confidence_levels and drop_audit_results
--   Ci/Scans               the calls of the scanners in run_ci
--   Ci/Gate, Ci/Run        gate_findings and run_ci of thyn_security_toolchain/ci.py, with
--                          baseline_path of thyn_security_toolchain/repo.py
--   Changed/Lists          the list files and questions of thyn_security_toolchain/changed.py
--   Changed/Patterns       MANIFEST_RE and IAC_RE, as terms of Str/Regex, whose matcher goes by derivatives;
--                          its children name the same paths without a regular expression
--   Changed/Sources        _api_pr_files and _git_diff
--   Changed/Event          from_env, from_github_event, _pull_scope and changed_files; its child
--                          Origin says where a list of changed files comes from
--   Lock                   validate_lock, asset_for, rules_spec of thyn_security_toolchain/lock.py,
--                          and platform_key of thyn_security_toolchain/_platform.py
--   Overlay                _overlay_field and resolve_overlay of thyn_security_toolchain/hooks.py; its
--                          children are about their termination and what they collect
--   Hooks                  _run, gitleaks, opengrep, osv, trivy and actionlint of
--                          thyn_security_toolchain/hooks.py, with gitleaks_config of
--                          thyn_security_toolchain/repo.py; the machine that runs a command is a record
--                          of functions, its processes given by their code and report
--   Fetch                  download_verified, tool_path, rules_path and the two extractions of
--                          thyn_security_toolchain/fetch.py
--   Verify                 verify_repo of thyn_security_toolchain/verify.py, on the pins that it reads
--   Cli                    _local_gate, the hook commands and main of thyn_security_toolchain/cli.py, with
--                          existing_files of thyn_security_toolchain/repo.py
--   Propagate              upsert_block, upsert_workflow, upsert_auto_merge_workflow, plan, propagate and
--                          main of scripts/propagate.py, from its resolved tag on; Propagate/Trace holds what an
--                          update does to the world, as the sequence of its commands and files
--   Tests                  runs at concrete data, and the theorems applied to it
--
-- State and errors. A Python function that raises is a function into Result; the exceptions are
-- constructors (PyError, LockError, ScanError, HookError, CiError, FetchError, FleetError, Raised). What
-- a function mutates is passed and returned: the lists of evaluate's loop are a Split, the variables that
-- visit shares with resolve_overlay a State, the files of a repository and of the cache a function from
-- paths to contents, and what propagate.py has done to the world the list of its actions, by which the
-- world answers its next command. The environment, the network, git, the hash function, the tar reader
-- and the processes of the scanners are arguments.
--
-- Bounds and fuel. Python's integers have no bound, and sizes are natural numbers. Loops over lists are
-- structural. _api_pr_files stops by itself after 30 pages and its loop is on that many pages;
-- download_verified is on its number of attempts; visit of resolve_overlay is on fuel, and gets as much
-- as there are overlays, which is enough as every call that goes on sees a new overlay. Python's limit
-- of the recursion depth is not modelled for visit, nor is the limit of int on the digits of a number of
-- a merge group.
--
-- What is not modelled: log lines, summaries, plain-text annotations and step outputs, which are
-- presentation; the regular expressions of verify.py; in Hooks the path of the rules, which is rules_path
-- of Fetch, and the listing of the local rules, which are fields of the machine; the other commands of
-- cli.py; of scripts/propagate.py the regular expressions, whose matches are a record, resolve_tag, the
-- templates and the reading of the command line; the fuzz harnesses and the tests, which drive the
-- functions modelled here.
pub mod Prelude
pub mod Str
pub mod Json
pub mod Gate
pub mod Ci
pub mod Changed
pub mod Lock
pub mod Overlay
pub mod Fetch
pub mod Verify
pub mod Cli
pub mod Hooks
pub mod Propagate
mod Tests
