-- ===== src/Propagate/Replaced.antt =====
-- What `upsert_block` replaces.
use security_toolchain.Prelude.{◌≡◌, false, ◌∷◌, ◌++◌, Text, text, text_eq, nat_eq, contains}
use security_toolchain.Str.{has_substring}
use security_toolchain.Propagate.Block.{begin_mark, end_mark, whole_lines}

-- A block as it stands in a configuration, after a text: the markers' lines end, nothing before the
-- block's first marker looks like it, and the first marker that ends a block is the block's own.
pub record IsBlock (before block : Text) : Type 0 where
  pub lead : Text
  pub inside : Text
  pub tail : Text
  pub parts : block ≡ lead ++ (begin_mark ++ (inside ++ (end_mark ++ (tail ++ text "\n"))))
  pub at_line : whole_lines before ≡ before
  pub lead_line : contains lead b'\n' ≡ false
  pub tail_line : contains tail b'\n' ≡ false
  pub first_begin : has_substring (before ++ lead) begin_mark ≡ false
  pub first_end : has_substring (before ++ (lead ++ (begin_mark ++ inside))) end_mark ≡ false

module _ (before lead inside tail after : Text) where
  configuration : Text
  configuration =
      before ++ (lead ++ (begin_mark ++ (inside ++ (end_mark ++ (tail ++ (b'\n' ∷ after))))))
