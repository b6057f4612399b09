-- ===== src/Changed/Sources/Listing.antt =====
-- The listings behind the lists that `_api_pr_files` returns.
use security_toolchain.Prelude.{
  ℕ, zero, suc, ◌+◌, ◌≤◌, ◌<◌, ◌≡◌, refl, ◌∙◌, inl, inr, ◌⊎◌, true, false, none, some, List, [],
  ◌++◌, Text, ltb, if◌then◌else◌, length, arith, Bool-cases, sym, subst,
}
use mathlib.Core.List.{append_assoc}
use security_toolchain.Changed.Sources.{
  FileItem, Reply, failed, not_a_list, page, names, per_page, max_pages, api_loop, api_pr_files,
}

-- The pages from one on are full up to a short one, and these are all their names.
pub data IsListing (reply : ℕ → Reply) : ℕ → List Text → Type 0 where
  last :
      {number : ℕ} (items : List FileItem)
      → reply number ≡ page items
      → length items < per_page
      → IsListing reply number (names items)
  more :
      {number : ℕ} {rest : List Text} (items : List FileItem)
      → reply number ≡ page items
      → per_page ≤ length items
      → IsListing reply (number + 1) rest
      → IsListing reply number (names items ++ rest)

Reply-cases :
    (r : Reply) → ((items : List FileItem) × (r ≡ page items)) ⊎ (r ≡ failed) ⊎ (r ≡ not_a_list)
Reply-cases failed = inr (inl refl)
Reply-cases not_a_list = inr (inr refl)
Reply-cases (page items) = inl (items, refl)

short_page : (items : List FileItem) → ltb (length items) per_page ≡ true → length items < per_page
short_page items h = ground arith

full_page : (items : List FileItem) → ltb (length items) per_page ≡ false → per_page ≤ length items
full_page items h = ground arith

-- One page of the loop.
api_loop-page :
    (reply : ℕ → Reply) (fuel number : ℕ) (so_far : List Text) {items : List FileItem}
    → reply number ≡ page items
    → api_loop reply (suc fuel) number so_far ≡ (
        if ltb (length items) per_page
        then some (so_far ++ names items)
        else if ltb max_pages (number + 1)
        then none
        else api_loop reply fuel (number + 1) (so_far ++ names items))
unfolding api_loop
api_loop-page reply fuel number so_far e = rw (e, api_loop) refl

-- What the loop adds to the files it has is a listing from its page on.
pub api_loop-IsListing :
    (reply : ℕ → Reply) (fuel number : ℕ) (so_far : List Text) {fs : List Text}
    → api_loop reply fuel number so_far ≡ some fs
    → (rest : List Text) × IsListing reply number rest × (fs ≡ so_far ++ rest)
unfolding api_loop
api_loop-IsListing reply zero number so_far h = absurd (cc)
api_loop-IsListing reply (suc fuel) number so_far {fs} h = elim (Reply-cases (reply number)) [
  | inr (inl e) ↦ absurd (cc (rw (e, api_loop) at h))
  | inr (inr e) ↦ absurd (cc (rw (e, api_loop) at h))
  | inl (items, e) ↦
      let step = api_loop-page reply fuel number so_far e in
      elim (Bool-cases (ltb (length items) per_page)) [
        | inl short ↦ (names items, last items e (short_page items short), cc (rw (short) at step))
        | inr full ↦ elim (Bool-cases (ltb max_pages (number + 1))) [
          | inl over ↦ absurd (cc (rw (full, over) at step))
          | inr under ↦
              let (rest, listing, e') =
                api_loop-IsListing reply fuel (number + 1) (so_far ++ names items)
                  (cc (rw (full, under) at step)) in
              (
                names items ++ rest,
                more items e (full_page items full) listing,
                e' ∙ append_assoc so_far (names items) rest,
              )
        ]
      ]
]

-- A list of changed files is taken from the pull-request API only where every page before a short one
-- was full and read without error, and then it is all the names of those pages, in order.
pub api_pr_files-IsListing :
    (reply : ℕ → Reply) {fs : List Text} → api_pr_files reply ≡ some fs → IsListing reply 1 fs
unfolding api_pr_files
api_pr_files-IsListing reply h =
    let (rest, listing, e) = api_loop-IsListing reply max_pages 1 [] h in
    subst (IsListing reply 1) (sym e) listing
