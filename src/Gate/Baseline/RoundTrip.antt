-- ===== src/Gate/Baseline/RoundTrip.antt =====
-- Baselines written and read, and the keys that a baseline can hold.
use security_toolchain.Prelude.{
  All-append, ◌≡◌, refl, ◌∙◌, ap, Bool, true, false, not, ◌&&◌, Option, some, List, [], ◌∷◌, ◌++◌,
  Text, ◌==◌, text_eq, text_beq_iff, arith, any, any-append, contains, All, Bool-cases, inl, inr,
  All-contains,
}
use mathlib.Core.Option.{some-injective}
use mathlib.Core.List.{append_assoc}
use security_toolchain.Prelude.Sorting.{sorted_set, sorted_set-All}
use security_toolchain.Str.{starts_with, join}
use security_toolchain.Str.Space.{is_break, is_space}
use security_toolchain.Str.Strip.{rstrip, rstrip_idem, trim_cons, rstrip-any}
use security_toolchain.Str.Lines.{
  splitlines, unlines, IsLine, splitlines-unlines, splitlines-IsLine,
}
use security_toolchain.Gate.Baseline.{is_comment, keys_of, read_baseline, header, render_baseline}

-- A key that a line of the file can hold: trimmed at its end, not blank, no comment, and without a
-- line boundary.
abbrev pub can_store : Text → Bool
can_store k = rstrip k == k && not (is_comment k) && not (any is_break k)

abbrev pub CanStore : Text → Type 0
CanStore k = can_store k ≡ true

join-unlines : (x : Text) (xs : List Text) → join (10 ∷ []) (x ∷ xs) ++ 10 ∷ [] ≡ unlines (x ∷ xs)
unfolding join unlines
join-unlines x [] = refl
join-unlines x (y ∷ ys) =
    append_assoc x (10 ∷ join (10 ∷ []) (y ∷ ys)) (10 ∷ [])
    ∙ ap (λ t. x ++ 10 ∷ t) (join-unlines y ys)

is_comment-trim_cons : (s : Text) → is_comment (trim_cons 35 s) ≡ true
unfolding is_comment trim_cons starts_with is_space
is_comment-trim_cons [] = refl
is_comment-trim_cons (c ∷ s) = ground arith

keys_of-comment : (s : Text) (rest : List Text) → keys_of ((35 ∷ s) ∷ rest) ≡ keys_of rest
unfolding keys_of starts_with
keys_of-comment s rest = rw is_comment-trim_cons

keys_of-stored : (ks : List Text) → All CanStore ks → keys_of ks ≡ ks
unfolding keys_of
keys_of-stored [] h = refl
keys_of-stored (k ∷ ks) (h, hs) = ground (arith, text_beq_iff (rstrip k) k, keys_of-stored ks hs)

rstrip-CanStore :
    (raw : Text) → IsLine raw → is_comment (rstrip raw) ≡ false → CanStore (rstrip raw)
rstrip-CanStore raw h k = ground (
  arith,
  text_beq_iff (rstrip (rstrip raw)) (rstrip raw),
  rstrip_idem raw,
  rstrip-any is_break raw h,
)

keys_of-CanStore : (raws : List Text) → All IsLine raws → All CanStore (keys_of raws)
unfolding keys_of
keys_of-CanStore [] h = tt
keys_of-CanStore (raw ∷ raws) (h, hs) = elim (Bool-cases (is_comment (rstrip raw))) [
  | inl comment ↦ rw comment (keys_of-CanStore raws hs)
  | inr key ↦ rw key (rstrip-CanStore raw h key, keys_of-CanStore raws hs)
]

-- Every key that is read from a file, whatever its text, can be stored: a key with a line boundary
-- in it, with space at its end, or that looks like a comment is in no baseline.
pub read_baseline-CanStore :
    (content : Text) {keys : List Text}
    → read_baseline (some content) ≡ some keys
    → (k : Text) → contains keys k ≡ true
    → can_store k ≡ true
unfolding read_baseline
read_baseline-CanStore content {keys} h k m =
    let raws = splitlines content in
    All-contains can_store (keys_of raws) k (keys_of-CanStore raws (splitlines-IsLine content))
      (rw (some-injective (keys_of raws) keys h) m)

keys_of-append_comments :
    (tool version commit run_url : Text) (keys : List Text)
    → keys_of (header tool version commit run_url ++ keys) ≡ keys_of keys
unfolding header
keys_of-append_comments tool version commit run_url keys =
    rw
      (
        keys_of-comment, keys_of-comment, keys_of-comment, keys_of-comment, keys_of-comment,
        keys_of-comment, keys_of-comment, keys_of-comment,
      )
      (unfold keys_of in refl)

header-IsLine :
    (tool version commit run_url : Text)
    → IsLine tool
    → IsLine version
    → IsLine commit
    → IsLine run_url
    → All IsLine (header tool version commit run_url)
unfolding header any is_break
header-IsLine tool version commit run_url a b c d =
    simp (any-append, a, b, c, d)
      (refl, (refl, (refl, (refl, (refl, (refl, (refl, (refl, (refl, tt)))))))))

All-imp : (P Q : Text → Type 0) → ((x : Text) → P x → Q x) → (xs : List Text) → All P xs → All Q xs
All-imp P Q f [] h = tt
All-imp P Q f (x ∷ xs) (h, hs) = (f x h, All-imp P Q f xs hs)

CanStore-IsLine : (k : Text) → CanStore k → IsLine k
CanStore-IsLine k h = ground arith

render-unlines :
    (tool version commit run_url : Text) (keys : List Text)
    → render_baseline tool version commit run_url keys
      ≡ unlines (header tool version commit run_url ++ sorted_set keys)
unfolding render_baseline
render-unlines tool version commit run_url keys = join-unlines _ _

-- A rendered baseline reads back as its keys, each once and in ascending order, if every key can be
-- stored (it is not empty, has no line boundary, no space at its end and no # at its start) and the
-- tool, its version, the commit and the run's url hold no line boundary.
pub read_baseline-render_baseline :
    (tool version commit run_url : Text) (keys : List Text)
    → IsLine tool
    → IsLine version
    → IsLine commit
    → IsLine run_url
    → All CanStore keys
    → read_baseline (some (render_baseline tool version commit run_url keys))
      ≡ some (sorted_set keys)
unfolding read_baseline
read_baseline-render_baseline tool version commit run_url keys a b c d h =
    let stored = sorted_set-All CanStore keys h in
    let lines =
      All-append IsLine (header tool version commit run_url) (sorted_set keys)
        (header-IsLine tool version commit run_url a b c d)
        (All-imp CanStore IsLine CanStore-IsLine (sorted_set keys) stored) in
    rw (render-unlines, splitlines-unlines _ lines, keys_of-append_comments)
      (ap {B = Option (List Text)} some (keys_of-stored (sorted_set keys) stored))
