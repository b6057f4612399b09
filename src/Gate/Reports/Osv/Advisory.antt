-- ===== src/Gate/Reports/Osv/Advisory.antt =====
-- The choice of one advisory id among the aliases of a finding, which its baseline key depends on.
use security_toolchain.Prelude.{
  ◌≡◌, ◌∙◌, ap, true, false, ◌&&◌, none, some, List, [], ◌∷◌, Text, text, text_eq, arith, contains,
  contains-keep, text_beq_refl, contains-cons, sym, text_beq_iff, contains-nil, Option-cases, inl,
  inr,
}
use mathlib.Core.Path.{ap₂}
use security_toolchain.Prelude.Sorting.{sorted_set, contains-sorted_set}
use security_toolchain.Prelude.Sorting.Unique.{SameMembers, sorted_set_ext}
use security_toolchain.Str.{starts_with}
use security_toolchain.Json.{Json}
use security_toolchain.Gate.Reports.Osv.{
  stripped_ids, head, prefer, least, starting, pick, pick_advisory_id,
}

starting-SameMembers :
    (prefix : Text) (xs ys : List Text)
    → SameMembers xs ys
    → SameMembers (starting prefix xs) (starting prefix ys)
unfolding starting
starting-SameMembers prefix xs ys same k =
    let p = λ (i : Text). starts_with i prefix in
    rw (contains-keep p xs k, contains-keep p ys k, same k)

least_ext : (xs ys : List Text) → SameMembers xs ys → least xs ≡ least ys
unfolding least
least_ext xs ys same = ap head (sorted_set_ext xs ys same)

pick_ext : (xs ys : List Text) → SameMembers xs ys → pick xs ≡ pick ys
unfolding pick
pick_ext xs ys same =
    let ghsa =
      least_ext (starting (text "GHSA-") xs) (starting (text "GHSA-") ys)
        (starting-SameMembers (text "GHSA-") xs ys same) in
    let cve =
      least_ext (starting (text "CVE-") xs) (starting (text "CVE-") ys)
        (starting-SameMembers (text "CVE-") xs ys same) in
    cc (ghsa, cve, least_ext xs ys same)

-- The advisory that is chosen depends only on which identifiers occur: their order and how often
-- each is repeated, among the ids or the aliases, change nothing.
pub pick_advisory_id_ext :
    (ids others : List Json)
    → SameMembers (stripped_ids ids) (stripped_ids others)
    → pick_advisory_id ids ≡ pick_advisory_id others
unfolding pick_advisory_id
pick_advisory_id_ext ids others same = pick_ext (stripped_ids ids) (stripped_ids others) same

head-contains : (l : List Text) {i : Text} → head l ≡ some i → contains l i ≡ true
unfolding head
head-contains [] h = cc
head-contains (x ∷ l) {i} h = ground (arith, contains-cons x l i, text_beq_refl x, text_beq_iff x i)

least-contains : (xs : List Text) {i : Text} → least xs ≡ some i → contains xs i ≡ true
unfolding least
least-contains xs {i} h = sym (contains-sorted_set xs i) ∙ head-contains (sorted_set xs) h

head-none : (l : List Text) (k : Text) → head l ≡ none → contains l k ≡ false
unfolding head
head-none [] k h = contains-nil k
head-none (x ∷ l) k h = cc

least-none : (xs : List Text) (k : Text) → least xs ≡ none → contains xs k ≡ false
unfolding least
least-none xs k h = sym (contains-sorted_set xs k) ∙ head-none (sorted_set xs) k h

contains-starting :
    (prefix : Text) (xs : List Text) (k : Text)
    → contains (starting prefix xs) k ≡ (contains xs k && starts_with k prefix)
unfolding starting
contains-starting prefix xs k = contains-keep (λ i. starts_with i prefix) xs k

pick-ghsa : (xs : List Text) {i : Text} → least (starting (text "GHSA-") xs) ≡ some i → pick xs ≡ i
unfolding pick
pick-ghsa xs h = rw (h, prefer)

-- Where some identifier is a GHSA id, the one that is chosen is a GHSA id among the identifiers.
pub pick_advisory_id_ghsa :
    (ids : List Json) (k : Text)
    → contains (stripped_ids ids) k ≡ true
    → starts_with k (text "GHSA-") ≡ true
    → (contains (stripped_ids ids) (pick_advisory_id ids) ≡ true)
      × (starts_with (pick_advisory_id ids) (text "GHSA-") ≡ true)
unfolding pick_advisory_id
pick_advisory_id_ghsa ids k m p =
    let xs = stripped_ids ids in
    let ghsa = text "GHSA-" in
    elim (Option-cases (least (starting ghsa xs))) [
      | inl absent ↦
          cc (least-none (starting ghsa xs) k absent, contains-starting ghsa xs k ∙ ap₂ ◌&&◌ m p)
      | inr (i, found) ↦
          rw (pick-ghsa xs found)
            (ground (arith, least-contains (starting ghsa xs) found, contains-starting ghsa xs i))
    ]
