-- ===== src/Changed/Sources/Revisions.antt =====
-- What reaches git's command line.
use security_toolchain.Prelude.{
  ℕ, suc, nat_beq, and-eq-true, ◌≡◌, refl, inl, inr, false, true, ◌&&◌, Option, [], ◌∷◌, Text, text,
  arith, Bool-cases,
}
use security_toolchain.Str.{starts_with}
use security_toolchain.Changed.Sources.{git_diff, is_sha, hex_end, is_lower_hex}

hex-no-dash : (c : ℕ) → is_lower_hex c ≡ true → nat_beq c b'-' ≡ false
unfolding is_lower_hex
hex-no-dash c h = ground arith

hex_end-first : (n c : ℕ) (s : Text) → hex_end (suc n) (c ∷ s) ≡ true → is_lower_hex c ≡ true
unfolding hex_end
hex_end-first n c s h = (and-eq-true (is_lower_hex c) (hex_end n s) h).0

is_sha-no-option : (s : Text) → is_sha s ≡ true → starts_with s (text "-") ≡ false
unfolding is_sha starts_with hex_end
is_sha-no-option [] h = absurd (cc)
is_sha-no-option (c ∷ s) h = rw (hex-no-dash c (hex_end-first 39 c s h)) refl

-- What git does with a revision that begins like an option never matters: the diffs of two gits that
-- agree on all other revisions are the same for every base and head, so no text of an event reaches
-- git as an option.
pub git_diff_ext :
    (git git' : Text → Text → Option Text)
    → ((base head : Text)
        → starts_with base (text "-") ≡ false
        → starts_with head (text "-") ≡ false
        → git base head ≡ git' base head)
    → (base head : Text) → git_diff git base head ≡ git_diff git' base head
unfolding git_diff
git_diff_ext git git' agree base head = elim (Bool-cases (is_sha base && is_sha head)) [
  | inr bad ↦ rw (bad) refl
  | inl good ↦
      rw
        (
          good,
          agree base head (is_sha-no-option base (ground arith))
              (is_sha-no-option head (ground arith)),
        )
        refl
]
