-- ===== src/Gate/Sarif/Settles.antt =====
-- Changes of a JSON value that a second run leaves as they are.
use security_toolchain.Prelude.{
  ◌≡◌, refl, ◌∙◌, ap, subst, inl, inr, some, List, [], ◌∷◌, Text, ◌==◌, text_eq, text_beq_iff,
  text_beq_refl, if◌then◌else◌, arith, Bool-cases, Option-cases,
}
use security_toolchain.Prelude.Result.{ok, err, bind-eq-ok, ok-injective}
use security_toolchain.Json.{
  Json, Items, Fields, null, bool, int, frac, str, arr, obj, end, field, Py, PyError, iterate,
  chars, key_list, find_field, of_list, to_list,
}
use security_toolchain.Gate.Sarif.Low.{
  set_field, with_items, rewrite_each, rewrite_items, rewrite_found, rewrite_field,
}

-- What f returns for a value that it has changed is that value, and R relates what it hands on.
abbrev pub Settles : {A : Type 0} → (A → A → Type 0) → (Json → Py (Json × A)) → Type 0
Settles {A} R f =
    (v v' : Json) (a : A) → f v ≡ ok (v', a) → (a' : A) × (f v' ≡ ok (v', a')) × R a a'

abbrev pub Each : {A : Type 0} → (A → A → Type 0) → List A → List A → Type 0
Each R [] [] = Unit
Each R (a ∷ as') (b ∷ bs) = R a b × Each R as' bs
Each R _ _ = ⊥

-- The loop, on the list that it has gone through.
abbrev pub EachAgain :
    {A : Type 0} → (A → A → Type 0) → (Json → Py (Json × A)) → List Json × List A → Type 0
EachAgain {A} R f p = (cs : List A) × (rewrite_each f p.0 ≡ ok (p.0, cs)) × Each R p.1 cs

rewrite_each-Settles :
    {A : Type 0} (R : A → A → Type 0) (f : Json → Py (Json × A))
    → Settles R f
    → (xs : List Json) (p : List Json × List A) → rewrite_each f xs ≡ ok p
    → EachAgain R f p
unfolding rewrite_each
rewrite_each-Settles R f h [] p e = subst (EachAgain R f) (ok-injective e) ([], refl, tt)
rewrite_each-Settles R f h (x ∷ xs) p e =
    let ((y, a), e1, d1) = bind-eq-ok (f x) _ e in
    let ((ys, bs), e2, d2) = bind-eq-ok (rewrite_each f xs) _ e1 in
    let (a', again, r) = h x y a d1 in
    let (cs, agains, rs) = rewrite_each-Settles R f h xs (ys, bs) d2 in
    subst (EachAgain R f) (ok-injective e2) (a' ∷ cs, rw (again, agains) refl, (r, rs))

-- A text raises, so a list of texts is not gone through.
abbrev pub RaisesOnText : {A : Type 0} → (Json → Py (Json × A)) → Type 0
RaisesOnText f = (s : Text) → (e : PyError) × (f (str s) ≡ err e)

pub to_list-of_list : (xs : List Json) → to_list (of_list xs) ≡ xs
to_list-of_list [] = refl
to_list-of_list (x ∷ xs) = ap (λ l. x ∷ l) (to_list-of_list xs)

abbrev pub ItemsAgain :
    {A : Type 0} → (A → A → Type 0) → (Json → Py (Json × A)) → Json × List A → Type 0
ItemsAgain {A} R f p = (cs : List A) × (rewrite_items f p.0 ≡ ok (p.0, cs)) × Each R p.1 cs

arr-Settles :
    {A : Type 0} (R : A → A → Type 0) (f : Json → Py (Json × A))
    → Settles R f
    → (xs : Items) (p : Json × List A) → rewrite_items f (arr xs) ≡ ok p
    → ItemsAgain R f p
unfolding rewrite_items with_items iterate
arr-Settles R f h xs p e =
    let ((ys, bs), e1, d1) = bind-eq-ok (rewrite_each f (to_list xs)) _ e in
    let (cs, again, rs) = rewrite_each-Settles R f h (to_list xs) (ys, bs) d1 in
    subst (ItemsAgain R f) (ok-injective e1) (cs, rw (to_list-of_list ys, again) refl, rs)

text_stops :
    {A : Type 0} (f : Json → Py (Json × A)) (s : Text) (xs : List Json) (p : List Json × List A)
    → RaisesOnText f
    → rewrite_each f (str s ∷ xs) ≡ ok p
    → ⊥
unfolding rewrite_each
text_stops f s xs p h e = let (why, raised) = h s in absurd (cc (rw (raised) at e))

-- What has no item, or texts for items, is left as it is.
pub rewrite_items-Settles :
    {A : Type 0} (R : A → A → Type 0) (f : Json → Py (Json × A))
    → Settles R f
    → RaisesOnText f
    → (v : Json) (p : Json × List A) → rewrite_items f v ≡ ok p
    → ItemsAgain R f p
unfolding rewrite_items iterate with_items rewrite_each
rewrite_items-Settles R f h t (arr xs) p e = arr-Settles R f h xs p e
rewrite_items-Settles R f h t (str []) p e = subst (ItemsAgain R f) (ok-injective e) ([], refl, tt)
rewrite_items-Settles R f h t (str (c ∷ s)) p e =
    let (q, _, d) = bind-eq-ok (rewrite_each f (str (c ∷ []) ∷ chars s)) _ e in
    absurd (text_stops f (c ∷ []) (chars s) q t d)
rewrite_items-Settles R f h t (obj end) p e = subst (ItemsAgain R f) (ok-injective e) ([], refl, tt)
rewrite_items-Settles R f h t (obj (field k v fs)) p e =
    let (q, _, d) = bind-eq-ok (rewrite_each f (str k ∷ key_list fs)) _ e in
    absurd (text_stops f k (key_list fs) q t d)
rewrite_items-Settles R f h t null p e = absurd (cc)
rewrite_items-Settles R f h t (bool b) p e = absurd (cc)
rewrite_items-Settles R f h t (int n) p e = absurd (cc)
rewrite_items-Settles R f h t (frac s) p e = absurd (cc)

pub find_field-set_field :
    (k : Text) (v : Json) (fs : Fields) (j : Text)
    → find_field j (set_field k v fs) ≡ (if k == j then some v else find_field j fs)
unfolding find_field set_field
find_field-set_field k v end j = refl
find_field-set_field k v (field i w fs) j =
    ground
      (arith, text_beq_iff i k, text_beq_iff i j, text_beq_iff k j, find_field-set_field k v fs j)

set_field_twice :
    (k : Text) (v : Json) (fs : Fields) → set_field k v (set_field k v fs) ≡ set_field k v fs
unfolding set_field
set_field_twice k v end = rw (text_beq_refl k) refl
set_field_twice k v (field i w fs) = elim (Bool-cases (i == k)) [
  | inl same ↦ rw (same) (rw (same) refl)
  | inr differ ↦ rw (differ) (rw (differ) (ap (λ rest. field i w rest) (set_field_twice k v fs)))
]

abbrev pub FieldAgain : {A : Type 0} → (A → A → Type 0) → (Json → Py (Json × A)) → Json × A → Type 0
FieldAgain {A} R f p = (b : A) × (f p.0 ≡ ok (p.0, b)) × R p.1 b

-- A field, where the change of the value that stands for a missing one hands on what is settled.
pub rewrite_field-settles :
    {A : Type 0} (R : A → A → Type 0) (k : Text) (d : Json) (f : Json → Py (Json × A))
    → ((v : Json) (p : Json × A) → f v ≡ ok p → FieldAgain R f p)
    → ((p : Json × A) → f d ≡ ok p → R p.1 p.1)
    → (v : Json) (p : Json × A) → rewrite_field k d f v ≡ ok p
    → FieldAgain R (rewrite_field k d f) p
unfolding rewrite_field rewrite_found
rewrite_field-settles R k d f h quiet (obj fs) p e = elim (Option-cases (find_field k fs)) [
  | inl missing ↦
      let (q, e1, d1) = bind-eq-ok (f d) _ (rw (missing, rewrite_found) at e) in
      subst (FieldAgain R (rewrite_field k d f)) (ok-injective e1)
        (q.1, rw (missing, d1) refl, quiet q d1)
  | inr found ↦
      let (v, there) = found in
      let (q, e1, d1) = bind-eq-ok (f v) _ (rw (there, rewrite_found) at e) in
      let (b, again, r) = h v q d1 in
      let back : find_field k (set_field k q.0 fs) ≡ some q.0 =
        find_field-set_field k q.0 fs k ∙ rw (text_beq_refl k) refl in
      subst (FieldAgain R (rewrite_field k d f)) (ok-injective e1)
        (b, rw (back, again, set_field_twice k q.0 fs) refl, r)
]
rewrite_field-settles R k d f h quiet null p e = absurd (cc)
rewrite_field-settles R k d f h quiet (bool b) p e = absurd (cc)
rewrite_field-settles R k d f h quiet (int n) p e = absurd (cc)
rewrite_field-settles R k d f h quiet (frac s) p e = absurd (cc)
rewrite_field-settles R k d f h quiet (str s) p e = absurd (cc)
rewrite_field-settles R k d f h quiet (arr xs) p e = absurd (cc)
