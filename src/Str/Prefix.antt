-- ===== src/Str/Prefix.antt =====
-- Prefixes of a text.
use security_toolchain.Prelude.{◌≡◌, refl, true, [], ◌∷◌, ◌++◌, Text, nat_beq, nat_beq_iff}
use security_toolchain.Str.{starts_with}

pub starts_with_self : (m rest : Text) → starts_with (m ++ rest) m ≡ true
unfolding starts_with
starts_with_self [] rest = refl
starts_with_self (p ∷ m) rest =
    let same : nat_beq p p ≡ true = (nat_beq_iff p p).1 refl in rw (same) (starts_with_self m rest)
