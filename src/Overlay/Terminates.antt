-- ===== src/Overlay/Terminates.antt =====
-- The termination of `resolve_overlay`: its measure is the number of overlays that are not yet seen.
use security_toolchain.Prelude.{
  sym, subst, ℕ, zero, suc, ◌≡◌, ◌≤◌, ◌<◌, refl, inl, inr, Bool, true, false, some, List, [], ◌∷◌,
  Text, text, text_eq, text_beq, text_beq_iff, text_beq_refl, ◌==◌, if◌then◌else◌, contains,
  contains-nil, contains-append, ◌++◌, contains-cons, arith, Bool-cases, Bool-ext,
}
use security_toolchain.Prelude.Result.{Result, ok, err, ◌>>=◌, require}
use security_toolchain.Json.{
  Json, Items, Fields, null, bool, int, frac, str, arr, nil, cons, obj, end, field, or_else,
  find_field, or_default,
}
use security_toolchain.Gate.Reports.Trivy.Dedupe.{IsDistinct}
use security_toolchain.Overlay.{
  own_fields, ScanError, no_key, no_fuel, has_field, count_fields, strings, list_of_strings,
  spec_field, overlay_field, add_new, State, visit_parents, visit, resolve_overlay,
}

-- An error that the source raises as a `ScanError`.
abbrev pub is_reported : ScanError → Bool
is_reported no_key = false
is_reported no_fuel = false
is_reported _ = true

-- It returns what has a property, or raises a `ScanError`.
abbrev pub Ends : {A : Type 0} → (A → Type 0) → Result ScanError A → Type 0
Ends P (ok a) = P a
Ends P (err e) = is_reported e ≡ true

bind-Ends :
    {A B : Type 0} (P : A → Type 0) (Q : B → Type 0) (step : Result ScanError A)
    (next : A → Result ScanError B)
    → Ends P step
    → ((a : A) → P a → Ends Q (next a))
    → Ends Q (step >>= next)
bind-Ends P Q (ok a) next h k = k a h
bind-Ends P Q (err e) next h k = h

abbrev Anything : {A : Type 0} → A → Type 0
Anything a = Unit

strings-Ends : (xs : Items) → Ends Anything (strings xs)
unfolding strings
strings-Ends nil = tt
strings-Ends (cons (str s) xs) =
    bind-Ends Anything Anything (strings xs) _ (strings-Ends xs) (λ rest _. tt)
strings-Ends (cons null xs) = refl
strings-Ends (cons (bool b) xs) = refl
strings-Ends (cons (int n) xs) = refl
strings-Ends (cons (frac s) xs) = refl
strings-Ends (cons (arr ys) xs) = refl
strings-Ends (cons (obj fs) xs) = refl

list_of_strings-Ends : (v : Json) → Ends Anything (list_of_strings v)
unfolding list_of_strings
list_of_strings-Ends (arr xs) = strings-Ends xs
list_of_strings-Ends null = refl
list_of_strings-Ends (bool b) = refl
list_of_strings-Ends (int n) = refl
list_of_strings-Ends (frac s) = refl
list_of_strings-Ends (str s) = refl
list_of_strings-Ends (obj fs) = refl

spec_field-Ends : (v : Json) (key : Text) → Ends Anything (spec_field (some v) key)
unfolding spec_field
spec_field-Ends (obj fs) key =
    list_of_strings-Ends (or_else (or_default (find_field key fs) null) (arr nil))
spec_field-Ends null key = refl
spec_field-Ends (bool b) key = refl
spec_field-Ends (int n) key = refl
spec_field-Ends (frac s) key = refl
spec_field-Ends (str s) key = refl
spec_field-Ends (arr xs) key = refl

find_field-has :
    (k : Text) (fs : Fields) → has_field k fs ≡ true → (v : Json) × (find_field k fs ≡ some v)
unfolding has_field find_field
find_field-has k end h = absurd (cc)
find_field-has k (field j v fs) h = elim (Bool-cases (j == k)) [
  | inl same ↦ (v, rw (same) refl)
  | inr differ ↦ rw (differ) (find_field-has k fs (ground arith))
]

overlay_field-Ends :
    (overlays : Fields) (n key : Text)
    → has_field n overlays ≡ true
    → Ends Anything (overlay_field overlays n key)
unfolding overlay_field
overlay_field-Ends overlays n key h =
    let (v, e) = find_field-has n overlays h in rw (e) (spec_field-Ends v key)

-- How many of the overlays have not been seen.
unseen : Fields → List Text → ℕ
unseen end seen = 0
unseen (field k v fs) seen = let rest = unseen fs seen in if contains seen k then rest else suc rest

unseen-nil : (fs : Fields) → unseen fs [] ≡ count_fields fs
unfolding unseen count_fields
unseen-nil end = refl
unseen-nil (field k v fs) = rw (contains-nil k, unseen-nil fs) refl

-- Everything that was seen before is seen after.
abbrev pub Grows : List Text → State → Type 0
Grows seen st = (k : Text) → contains seen k ≡ true → contains st.seen k ≡ true

unseen_mono :
    (fs : Fields) (seen seen' : List Text)
    → ((k : Text) → contains seen k ≡ true → contains seen' k ≡ true)
    → unseen fs seen' ≤ unseen fs seen
unfolding unseen
unseen_mono end seen seen' h = ground arith
unseen_mono (field k v fs) seen seen' h = elim (Bool-cases (contains seen k)) [
  | inl old ↦ rw (old, h k old) (unseen_mono fs seen seen' h)
  | inr new ↦ ground (arith, unseen_mono fs seen seen' h)
]

contains-more :
    (n : Text) (seen : List Text) (k : Text) → contains seen k ≡ true → contains (n ∷ seen) k ≡ true
contains-more n seen k h = ground (arith, contains-cons n seen k)

unseen_less :
    (fs : Fields) (seen : List Text) (n : Text)
    → has_field n fs ≡ true
    → contains seen n ≡ false
    → unseen fs (n ∷ seen) < unseen fs seen
unfolding unseen has_field
unseen_less end seen n h fresh = absurd (cc)
unseen_less (field k v fs) seen n h fresh =
    let fewer = unseen_mono fs seen (n ∷ seen) (contains-more n seen) in
    elim (Bool-cases (k == n)) [
      | inl same ↦
          let e : k ≡ n = (text_beq_iff k n).0 same in
          let now : contains (n ∷ seen) k ≡ true = ground (
            arith,
            contains-cons n seen k,
            text_beq_refl n,
            subst (λ x. text_beq x k ≡ true) e (text_beq_refl k),
          ) in
          let before : contains seen k ≡ false =
            subst (λ x. contains seen x ≡ false) (sym e) fresh in
          rw (now, before) (ground (arith, fewer))
      | inr differ ↦
          let less = unseen_less fs seen n (ground arith) fresh in
          ground (arith, fewer, less, contains-cons n seen k)
    ]

require-Ends :
    (b : Bool) (e : ScanError) → is_reported e ≡ true → Ends Anything (require {E = ScanError} b e)
require-Ends true e h = tt
require-Ends false e h = h

text_beq_comm : (a b : Text) → text_beq a b ≡ text_beq b a
text_beq_comm a b =
    Bool-ext (text_beq a b) (text_beq b a)
      (λ h. (text_beq_iff b a).1 (sym ((text_beq_iff a b).0 h)))
      (λ h. (text_beq_iff a b).1 (sym ((text_beq_iff b a).0 h)))

snoc-IsDistinct :
    (old : List Text) (p : Text)
    → IsDistinct old
    → contains old p ≡ false
    → IsDistinct (old ++ (p ∷ []))
snoc-IsDistinct [] p h fresh = (contains-nil p, tt)
snoc-IsDistinct (x ∷ old) p (h, hs) fresh = (
  ground (
    arith,
    contains-append old (p ∷ []) x,
    contains-cons p [] x,
    contains-nil x,
    contains-cons x old p,
    text_beq_comm p x,
    h,
  ),
  snoc-IsDistinct old p hs (ground (arith, contains-cons x old p)),
)

add_new-IsDistinct : (old new : List Text) → IsDistinct old → IsDistinct (add_new old new)
unfolding add_new
add_new-IsDistinct old [] h = h
add_new-IsDistinct old (p ∷ new) h = elim (Bool-cases (contains old p)) [
  | inl there ↦ rw (there) (add_new-IsDistinct old new h)
  | inr fresh ↦
      rw (fresh) (add_new-IsDistinct (old ++ (p ∷ [])) new (snoc-IsDistinct old p h fresh))
]

-- What a state holds after a visit from one in which `seen` was seen.
abbrev pub IsAfter : List Text → State → Type 0
IsAfter seen st = Grows seen st × (IsDistinct st.packs × IsDistinct st.excludes)

visit_parents-Ends :
    (overlays : Fields) (go : Text → State → Result ScanError State) (seen : List Text)
    → ((n : Text) (st : State)
        → has_field n overlays ≡ true
        → IsAfter seen st
        → Ends (IsAfter st.seen) (go n st))
    → (parents : List Text) (st : State) → IsAfter seen st
    → Ends (IsAfter seen) (visit_parents overlays go parents st)
unfolding visit_parents
visit_parents-Ends overlays go seen h [] st after = after
visit_parents-Ends overlays go seen h (parent ∷ parents) st (grown, once) =
    elim (Bool-cases (has_field parent overlays)) [
      | inr missing ↦ rw (missing) refl
      | inl there ↦ rw (there) (
          bind-Ends (IsAfter st.seen) (IsAfter seen) (go parent st) _
            (h parent st there (grown, once))
            (λ next after.
              visit_parents-Ends overlays go seen h parents next
                ((λ k m. after.0 k (grown k m)), after.1)))
    ]

-- The end of `visit`: the overlay's own packs and rules.
own_fields-Ends :
    (overlays : Fields) (n : Text) (seen : List Text) (done : State)
    → has_field n overlays ≡ true
    → IsAfter seen done
    → Ends (IsAfter seen) (own_fields overlays n done)
unfolding own_fields
own_fields-Ends overlays n seen done there (grown, (packs_once, rules_once)) =
    bind-Ends Anything (IsAfter seen) (overlay_field overlays n (text "packs")) _
      (overlay_field-Ends overlays n (text "packs") there)
      (λ packs _.
        bind-Ends Anything (IsAfter seen) (overlay_field overlays n (text "exclude_rules")) _
          (overlay_field-Ends overlays n (text "exclude_rules") there)
          (λ rules _. (
            grown,
            (
              add_new-IsDistinct done.packs packs packs_once,
              add_new-IsDistinct done.excludes rules rules_once,
            ),
          )))

visit-Ends :
    (overlays : Fields) (fuel : ℕ) (n : Text) (st : State)
    → has_field n overlays ≡ true
    → unseen overlays st.seen ≤ fuel
    → IsDistinct st.packs
    → IsDistinct st.excludes
    → Ends (IsAfter st.seen) (visit overlays fuel n st)
unfolding visit
visit-Ends overlays zero n st there enough p r = elim (Bool-cases (contains st.seen n)) [
  | inl old ↦ rw (old) ((λ k m. m), (p, r))
  | inr new ↦ absurd (ground (arith, unseen_less overlays st.seen n there new))
]
visit-Ends overlays (suc fuel) n st there enough p r = elim (Bool-cases (contains st.seen n)) [
  | inl old ↦ rw (old) ((λ k m. m), (p, r))
  | inr new ↦ rw (new) (
      bind-Ends Anything (IsAfter st.seen) (overlay_field overlays n (text "extends")) _
        (overlay_field-Ends overlays n (text "extends") there)
        (λ parents _.
          bind-Ends (IsAfter (n ∷ st.seen)) (IsAfter st.seen) _ _
            (visit_parents-Ends overlays (visit overlays fuel) (n ∷ st.seen)
              (λ parent next exists after.
                visit-Ends overlays fuel parent next exists
                  (ground (
                    arith,
                    unseen_mono overlays (n ∷ st.seen) next.seen after.0,
                    unseen_less overlays st.seen n there new,
                  ))
                  after.1.0 after.1.1)
              parents _ ((λ k m. m), (p, r)))
            (λ done after.
              own_fields-Ends overlays n st.seen done there
                ((λ k m. after.0 k (contains-more n st.seen k m)), after.1))))
]

-- Whatever the overlays are, cycles and malformed ones included, the resolution of a name ends: it
-- raises a ScanError or returns packs and rules in which nothing stands twice.
pub resolve_overlay-Ends :
    (overlays : Fields) (name : Text)
    → Ends (λ found. IsDistinct found.0 × IsDistinct found.1) (resolve_overlay overlays name)
unfolding resolve_overlay
resolve_overlay-Ends overlays name = elim (Bool-cases (has_field name overlays)) [
  | inr missing ↦ rw (missing) refl
  | inl there ↦ rw (there) (
      bind-Ends (IsAfter []) (λ found. IsDistinct found.0 × IsDistinct found.1) _ _
        (visit-Ends overlays (count_fields overlays) name _ there
          (ground (arith, unseen-nil overlays)) tt tt)
        (λ st after. after.1))
]
