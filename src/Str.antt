-- ===== src/Str.antt =====
-- Python's `str` as the sources use it: a text is the list of its code points.
pub mod Space
pub mod Strip
pub mod Lines
pub mod Prefix
pub mod Regex
use security_toolchain.Prelude.{
  ◌≡◌, refl, arith, ℕ, ◌+◌, ◌-◌, Bool, true, false, ◌&&◌, ◌||◌, List, [], ◌∷◌, ◌++◌, Text, text,
  leb, nat_beq, if◌then◌else◌, any,
}

-- s.startswith(t)
unfoldable pub starts_with : Text → Text → Bool
starts_with s [] = true
starts_with [] (b ∷ t) = false
starts_with (a ∷ s) (b ∷ t) = nat_beq a b && starts_with s t

-- t in s
unfoldable pub has_substring : Text → Text → Bool
unfolding starts_with
has_substring [] t = starts_with [] t
has_substring (a ∷ s) t = starts_with (a ∷ s) t || has_substring s t

-- sep.join(xs)
unfoldable pub join : Text → List Text → Text
join sep [] = []
join sep (x ∷ []) = x
join sep (x ∷ y ∷ ys) = x ++ (sep ++ join sep (y ∷ ys))

-- s.upper(), as far as a comparison with an ASCII constant can tell: the code points whose upper
-- case is ASCII are mapped (ß, ı, ſ and the Latin ligatures among them), any other stays.
unfoldable pub upper_char : ℕ → Text
upper_char c =
    if leb b'a' c && leb c b'z'
    then (c - 32) ∷ []
    else if nat_beq c 0xDF
    then text "SS"
    else if nat_beq c 0x131
    then text "I"
    else if nat_beq c 0x17F
    then text "S"
    else if nat_beq c 0xFB00
    then text "FF"
    else if nat_beq c 0xFB01
    then text "FI"
    else if nat_beq c 0xFB02
    then text "FL"
    else if nat_beq c 0xFB03
    then text "FFI"
    else if nat_beq c 0xFB04
    then text "FFL"
    else if nat_beq c 0xFB05 || nat_beq c 0xFB06
    then text "ST"
    else c ∷ []

unfoldable pub upper : Text → Text
unfolding upper_char
upper [] = []
upper (c ∷ s) = upper_char c ++ upper s

-- s.lower(), likewise: U+212A is the one other code point whose lower case is an ASCII letter.
unfoldable pub lower_char : ℕ → ℕ
lower_char c = if leb b'A' c && leb c b'Z' then c + 32 else if nat_beq c 0x212A then b'k' else c

unfoldable pub lower : Text → Text
unfolding lower_char
lower [] = []
lower (c ∷ s) = lower_char c ∷ lower s

after_feed : Bool → Text → Text
after_feed after [] = []
after_feed after (c ∷ s) =
    let rest = after_feed (nat_beq c 13) s in
    if nat_beq c 13 then 10 ∷ rest else if after && nat_beq c 10 then rest else c ∷ rest

-- What `read_text` returns for a decoded file: a carriage return, with a line feed after it or not,
-- is read as a line feed.
unfoldable pub universal_newlines : Text → Text
unfolding after_feed
universal_newlines s = after_feed false s

pub universal_newlines-same :
    (s : Text) → any (λ c. nat_beq c 13) s ≡ false → universal_newlines s ≡ s
unfolding universal_newlines after_feed any
universal_newlines-same [] h = refl
universal_newlines-same (c ∷ s) h =
    let other : nat_beq c 13 ≡ false = ground arith in
    rw (other, universal_newlines-same s (ground arith)) refl
