-- ===== src/Gate/Reports/Trivy/Dedupe.antt =====
-- One finding for each key: what the last loop of `parse_trivy_sarif` leaves.
use security_toolchain.Prelude.{
  ◌≡◌, inl, inr, true, false, not, ◌&&◌, List, [], ◌∷◌, Text, text_eq, text_beq, text_beq_iff,
  arith, Bool-cases, contains, contains-cons, contains-nil, text_beq_refl, ap,
}
use security_toolchain.Gate.Finding.{Finding, keys}
use security_toolchain.Gate.Host.{Host}
use security_toolchain.Json.{Json}
use security_toolchain.Prelude.Result.{ok}
use security_toolchain.Gate.Reports.Trivy.{dedupe, trivy_results, parse_trivy_sarif}

-- No key stands twice.
abbrev pub IsDistinct : List Text → Type 0
IsDistinct [] = Unit
IsDistinct (k ∷ ks) = (contains ks k ≡ false) × IsDistinct ks

contains-eq : (xs : List Text) (a b : Text) → text_beq a b ≡ true → contains xs a ≡ contains xs b
contains-eq xs a b h = ap (contains xs) ((text_beq_iff a b).0 h)

contains-dedupe :
    (seen : List Text) (fs : List Finding) (k : Text)
    → contains (keys (dedupe seen fs)) k ≡ (contains (keys fs) k && not (contains seen k))
unfolding dedupe
contains-dedupe seen [] k = ground (arith, contains-nil k)
contains-dedupe seen (f ∷ fs) k = elim (Bool-cases (contains seen f.key)) [
  | inl old ↦
      rw (old, dedupe)
        (ground (
          arith,
          contains-dedupe seen fs k,
          contains-cons f.key (keys fs) k,
          contains-eq seen f.key k,
        ))
  | inr fresh ↦
      rw (fresh, dedupe)
        (ground (
          arith,
          contains-dedupe (f.key ∷ seen) fs k,
          contains-cons f.key (keys (dedupe (f.key ∷ seen) fs)) k,
          contains-cons f.key seen k,
          contains-cons f.key (keys fs) k,
          contains-eq seen f.key k,
        ))
]

dedupe-IsDistinct : (seen : List Text) (fs : List Finding) → IsDistinct (keys (dedupe seen fs))
unfolding dedupe
dedupe-IsDistinct seen [] = tt
dedupe-IsDistinct seen (f ∷ fs) = elim (Bool-cases (contains seen f.key)) [
  | inl old ↦ rw (old, dedupe) (dedupe-IsDistinct seen fs)
  | inr fresh ↦
      rw (fresh, dedupe)
        (
          ground (
            arith,
            contains-dedupe (f.key ∷ seen) fs f.key,
            contains-cons f.key seen f.key,
            text_beq_refl f.key,
          ),
          dedupe-IsDistinct (f.key ∷ seen) fs,
        )
]

-- From the results of a trivy report, one finding each, the reader returns findings with distinct
-- keys, and with exactly the keys of the results.
pub parse_trivy_sarif-keys :
    (host : Host) (report : Json) {out : List Finding}
    → trivy_results host report ≡ ok out
    → (fs : List Finding) × (parse_trivy_sarif host report ≡ ok fs)
      × IsDistinct (keys fs)
      × ((k : Text) → contains (keys fs) k ≡ contains (keys out) k)
unfolding parse_trivy_sarif
parse_trivy_sarif-keys host report {out} h = (
  dedupe [] out,
  rw h,
  dedupe-IsDistinct [] out,
  λ k. ground (arith, contains-dedupe [] out k, contains-nil k),
)
