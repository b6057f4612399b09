-- ===== src/Str/Space.antt =====
-- `str.isspace` and the line boundaries of `str.splitlines`, by code point.
use security_toolchain.Prelude.{ℕ, ◌≡◌, Bool, true, ◌&&◌, ◌||◌, leb, nat_beq, arith}

unfoldable pub is_space : ℕ → Bool
is_space c =
    leb 9 c && leb c 13
    || leb 28 c && leb c 32
    || nat_beq c 0x85
    || nat_beq c 0xA0
    || nat_beq c 0x1680
    || leb 0x2000 c && leb c 0x200A
    || leb 0x2028 c && leb c 0x2029
    || nat_beq c 0x202F
    || nat_beq c 0x205F
    || nat_beq c 0x3000

unfoldable pub is_break : ℕ → Bool
is_break c =
    leb 10 c && leb c 13 || leb 28 c && leb c 30 || nat_beq c 0x85 || leb 0x2028 c && leb c 0x2029

pub is_break-is_space : (c : ℕ) → is_break c ≡ true → is_space c ≡ true
unfolding is_break is_space
is_break-is_space c h = ground arith
