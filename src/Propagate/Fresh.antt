-- ===== src/Propagate/Fresh.antt =====
-- The line feeds of a configuration that `upsert_block` makes anew.
use security_toolchain.Prelude.{
  ℕ, suc, ◌<◌, ◌≡◌, refl, subst, inl, inr, Bool, ◌&&◌, none, [], ◌∷◌, ◌++◌, Text, text, ◌==◌,
  nat_eq, text_eq, if◌then◌else◌, leb, Bool-cases, arith,
}
use security_toolchain.Propagate.Block.{
  Templates, strip_newlines, squeeze, new_config, upsert_block,
}

-- After n line feeds, no more than two follow each other.
unfoldable pub IsCalm : ℕ → Text → Type 0
IsCalm n [] = Unit
IsCalm n (c ∷ s) = if c == b'\n' then (n < 2) × IsCalm (suc n) s else IsCalm 0 s

-- The number of line feeds that squeeze has kept of a run.
abbrev kept : ℕ → ℕ
kept n = if leb 2 n then 2 else n

squeeze-IsCalm : (n : ℕ) (s : Text) → IsCalm (kept n) (squeeze n s)
unfolding IsCalm squeeze
squeeze-IsCalm n [] = tt
squeeze-IsCalm n (c ∷ s) = elim (Bool-cases (c == b'\n')) [
  | inr other_char ↦ rw (other_char) (rw (other_char) (squeeze-IsCalm 0 s))
  | inl feed ↦ elim (Bool-cases (leb 2 n)) [
    | inl full ↦
        let same : kept (suc n) ≡ 2 = ground (arith) in
        rw (feed, full) (subst (λ k. IsCalm k (squeeze (suc n) s)) same (squeeze-IsCalm (suc n) s))
    | inr room ↦
        let same : kept (suc n) ≡ suc n = ground (arith) in
        let few : n < 2 = ground (arith) in
        rw (feed, room)
          (rw (feed)
            (few, subst (λ k. IsCalm k (squeeze (suc n) s)) same (squeeze-IsCalm (suc n) s)))
  ]
]

strip_newlines-IsCalm : (n : ℕ) (s : Text) → IsCalm n s → IsCalm n (strip_newlines s)
unfolding IsCalm strip_newlines
strip_newlines-IsCalm n [] h = tt
strip_newlines-IsCalm n (c ∷ s) h = elim (Bool-cases (c == b'\n')) [
  | inr other_char ↦
      rw (other_char) (rw (other_char) (strip_newlines-IsCalm 0 s (rw (other_char) at h)))
  | inl feed ↦
      let (few, rest) = rw (feed) at h in
      elim (Bool-cases (strip_newlines s == [])) [
        | inl nothing ↦ rw (feed, nothing) tt
        | inr something ↦
            rw (feed, something) (rw (feed) (few, strip_newlines-IsCalm (suc n) s rest))
      ]
]

strip_newlines_idem : (s : Text) → strip_newlines (strip_newlines s) ≡ strip_newlines s
unfolding strip_newlines
strip_newlines_idem [] = refl
strip_newlines_idem (c ∷ s) = elim (Bool-cases (c == b'\n' && strip_newlines s == [])) [
  | inl gone ↦ rw (gone) refl
  | inr stays ↦ rw (stays) (rw (strip_newlines_idem s, stays) refl)
]

-- A text that ends in no line feed takes one more.
one_feed-IsCalm :
    (n : ℕ) (c : ℕ) (s : Text)
    → strip_newlines (c ∷ s) ≡ c ∷ s
    → IsCalm n (c ∷ s)
    → IsCalm n ((c ∷ s) ++ text "\n")
unfolding IsCalm strip_newlines
one_feed-IsCalm n c [] stripped h = elim (Bool-cases (c == b'\n')) [
  | inl feed ↦ absurd (cc (rw (feed) at stripped))
  | inr other_char ↦ rw (other_char) (ground (arith), tt)
]
one_feed-IsCalm n c (d ∷ s) stripped h =
    elim (Bool-cases (c == b'\n' && strip_newlines (d ∷ s) == [])) [
      | inl gone ↦ absurd (cc (rw (gone) at stripped))
      | inr stays ↦
          let inner : strip_newlines (d ∷ s) ≡ d ∷ s = cc (rw (stays) at stripped) in
          elim (Bool-cases (c == b'\n')) [
            | inl feed ↦
                let (few, rest) = rw (feed) at h in
                rw (feed) (few, one_feed-IsCalm (suc n) d s inner rest)
            | inr other_char ↦ rw (other_char) (one_feed-IsCalm 0 d s inner (rw (other_char) at h))
          ]
    ]

ended-IsCalm : (s : Text) → strip_newlines s ≡ s → IsCalm 0 s → IsCalm 0 (s ++ text "\n")
unfolding IsCalm
ended-IsCalm [] stripped h = (ground (arith), tt)
ended-IsCalm (c ∷ s) stripped h = one_feed-IsCalm 0 c s stripped h

-- A configuration that upsert_block makes anew has at most two line feeds in a row, whatever the
-- templates hold, and ends in exactly one.
pub upsert_block-IsCalm :
    (templates : Templates) (block : Text) (python : Bool) (ruff_rev : Text)
    → let made = upsert_block templates none block python ruff_rev in
      IsCalm 0 made × (body : Text) × (made ≡ body ++ text "\n") × (strip_newlines body ≡ body)
unfolding upsert_block new_config
upsert_block-IsCalm templates block python ruff_rev =
    let extra = if python then templates.extra_hooks_python ruff_rev else [] in
    let rendered = templates.pre_commit_config (strip_newlines extra) (strip_newlines block) in
    let body = strip_newlines (squeeze 0 rendered) in
    let stripped = strip_newlines_idem (squeeze 0 rendered) in
    let calm = strip_newlines-IsCalm 0 (squeeze 0 rendered) (squeeze-IsCalm 0 rendered) in
    (ended-IsCalm body stripped calm, body, refl, stripped)
