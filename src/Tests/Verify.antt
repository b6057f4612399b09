-- ===== src/Tests/Verify.antt =====
-- A checkout whose workflow pins no hash, and the theorem about it.
use security_toolchain.Prelude.{◌≡◌, some, [], ◌∷◌, text, all, ◌&&◌}
use security_toolchain.Verify.{Call, Checkout, verify_repo, calls_of}
use security_toolchain.Verify.Complete.{
  no_problem, is_configured, is_pinned, is_matched, verify_repo_complete,
}

abbrev unpinned : Call
unpinned = record {
  name = text "security-full.yml";
  ref = text "main";
  comment = some (text "v0.1.17");
}

abbrev checkout : Checkout
checkout = record {
  config =
      some
        (record { rev = some (text "v0.1.17"); types = text "pre-commit" ∷ text "pre-push" ∷ [] });
  workflows = some (unpinned ∷ []);
}

verify_repo_complete_example : no_problem (verify_repo (text "v0.1.17") [] checkout) ≡ (
    is_configured (text "v0.1.17") checkout.config
    && (all (is_pinned (text "v0.1.17") []) (calls_of checkout) && is_matched checkout))
verify_repo_complete_example = verify_repo_complete (text "v0.1.17") [] checkout
