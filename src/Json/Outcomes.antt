-- ===== src/Json/Outcomes.antt =====
-- What an evaluation returns and what it raises, one rule for each way to build one.
use security_toolchain.Prelude.{
  ◌≡◌, refl, Bool, true, false, List, [], ◌∷◌, ◌++◌, All, Text, if◌then◌else◌, subst, text,
  Bool-cases, inl, inr,
}
use security_toolchain.Prelude.Result.{ok, err, ◌>>=◌, bind-eq-ok}
use security_toolchain.Json.{
  Json, PyError, Py, attribute_error, type_error, key_error, value_error, runtime_error,
  recursion_error, get, iterate, first, or_else, dict_get, Dict, map_each, flat_each, index_by_id,
  index_from, hashable, put, null, str, arr, obj, nil, cons, truthy,
}

-- Whatever the evaluation returns satisfies `P`.
pub record Returns {A : Type 0} (P : A → Type 0) (m : Py A) : Type 0 where
  pub at : (a : A) → m ≡ ok a → P a

-- Whatever the evaluation raises satisfies `E`.
pub record Raises {A : Type 0} (E : PyError → Type 0) (m : Py A) : Type 0 where
  pub at : (e : PyError) → m ≡ err e → E e

module _ {A : Type 0} {P : A → Type 0} where
  pub Returns-ok : (a : A) → P a → Returns P (ok a)
  Returns-ok a h = record { at = λ b e. subst P (cc) h }

  pub Returns-err : (e : PyError) → Returns P (err e)
  Returns-err e = record { at = λ b h. cc }

module _ {A B : Type 0} {P : B → Type 0} where
  pub Returns-bind : (m : Py A) (f : A → Py B) → ((a : A) → Returns P (f a)) → Returns P (m >>= f)
  Returns-bind (ok a) f h = h a
  Returns-bind (err e) f h = Returns-err e

  pub Returns-map_each :
      (f : A → Py B) (xs : List A) → ((a : A) → Returns P (f a)) → Returns (All P) (map_each f xs)
  unfolding map_each
  Returns-map_each f [] h = Returns-ok [] tt
  Returns-map_each f (x ∷ xs) h = record {
    at = λ l e.
        let (y, rest, made) = bind-eq-ok (f x) _ e in
        let (ys, shape, mades) = bind-eq-ok (map_each f xs) _ rest in
        subst (All P) {x = y ∷ ys} (cc) ((h x).at y made, (Returns-map_each f xs h).at ys mades);
  }

module _ {A : Type 0} {E : PyError → Type 0} where
  pub Raises-ok : (a : A) → Raises E (ok a)
  Raises-ok a = record { at = λ e h. cc }

  pub Raises-err : (e : PyError) → E e → Raises {A = A} E (err e)
  Raises-err e h = record { at = λ d k. subst E (cc) h }

  pub Raises-if :
      (b : Bool) (m n : Py A)
      → (b ≡ true → Raises E m)
      → (b ≡ false → Raises E n)
      → Raises E (if b then m else n)
  Raises-if true m n hm hn = hm refl
  Raises-if false m n hm hn = hn refl

module _ {A B : Type 0} {E : PyError → Type 0} where
  pub Raises-bind :
      (m : Py A) (f : A → Py B) → Raises E m → ((a : A) → Raises E (f a)) → Raises E (m >>= f)
  Raises-bind (ok a) f hm hf = hf a
  Raises-bind (err e) f hm hf = record { at = λ d h. hm.at d (cc) }

module _ {A B : Type 0} {E : PyError → Type 0} where
  pub Raises-map_each :
      (f : A → Py B) (xs : List A) → ((a : A) → Raises E (f a)) → Raises E (map_each f xs)
  unfolding map_each
  Raises-map_each f [] h = Raises-ok []
  Raises-map_each f (x ∷ xs) h =
      Raises-bind (f x) _ (h x)
        λ y. Raises-bind (map_each f xs) _ (Raises-map_each f xs h) λ ys. Raises-ok (y ∷ ys)

  pub Raises-flat_each :
      (f : A → Py (List B)) (xs : List A) → ((a : A) → Raises E (f a)) → Raises E (flat_each f xs)
  unfolding flat_each
  Raises-flat_each f [] h = Raises-ok []
  Raises-flat_each f (x ∷ xs) h =
      Raises-bind (f x) _ (h x)
        λ ys. Raises-bind (flat_each f xs) _ (Raises-flat_each f xs h) λ zs. Raises-ok (ys ++ zs)

-- The errors of a value of the wrong shape, as `_report_shape` lists them.
abbrev pub IsShape : PyError → Type 0
IsShape attribute_error = Unit
IsShape type_error = Unit
IsShape key_error = Unit
IsShape recursion_error = Unit
IsShape _ = ⊥

-- Those, a text that is no number, and a loop of symbolic links where there is one.
abbrev pub IsShapeOr : Type 0 → PyError → Type 0
IsShapeOr Loop value_error = Unit
IsShapeOr Loop runtime_error = Loop
IsShapeOr Loop e = IsShape e

pub Raises-get :
    {Loop : Type 0} (x : Json) (k : Text) (d : Json) → Raises (IsShapeOr Loop) (get x k d)
unfolding get
Raises-get (obj fs) k d = Raises-ok _
Raises-get null k d = Raises-err attribute_error tt
Raises-get _ k d = Raises-err attribute_error tt

pub Raises-iterate : {Loop : Type 0} (x : Json) → Raises (IsShapeOr Loop) (iterate x)
unfolding iterate
Raises-iterate (arr xs) = Raises-ok _
Raises-iterate (obj fs) = Raises-ok _
Raises-iterate (str s) = Raises-ok _
Raises-iterate null = Raises-err type_error tt
Raises-iterate _ = Raises-err type_error tt

pub Raises-dict_get :
    {Loop : Type 0} (d : Dict) (k v : Json) → Raises (IsShapeOr Loop) (dict_get d k v)
unfolding dict_get
Raises-dict_get d k v =
    Raises-if (hashable k) _ _ (λ _. Raises-ok _) (λ _. Raises-err type_error tt)

Raises-index_from :
    {Loop : Type 0} (d : Dict) (xs : List Json) → Raises (IsShapeOr Loop) (index_from d xs)
unfolding index_from
Raises-index_from d [] = Raises-ok d
Raises-index_from d (x ∷ xs) =
    Raises-bind (get x (text "id") null) _ (Raises-get x (text "id") null) λ k.
      Raises-if (hashable k) _ _ (λ _. Raises-index_from (put k x d) xs)
        λ _. Raises-err type_error tt

pub Raises-index_by_id : {Loop : Type 0} (xs : List Json) → Raises (IsShapeOr Loop) (index_by_id xs)
unfolding index_by_id
Raises-index_by_id xs = Raises-index_from [] xs

-- `x or y` is not empty where y is not.
or_else-truthy : (x y : Json) → truthy y ≡ true → truthy (or_else x y) ≡ true
unfolding or_else
or_else-truthy x y h = elim (Bool-cases (truthy x)) [ inl t ↦ rw t t | inr f ↦ rw f h ]

first-truthy : {Loop : Type 0} (x : Json) → truthy x ≡ true → Raises (IsShapeOr Loop) (first x)
unfolding first truthy
first-truthy (arr nil) h = absurd (cc)
first-truthy (arr (cons x xs)) h = Raises-ok x
first-truthy (str []) h = absurd (cc)
first-truthy (str (c ∷ s)) h = Raises-ok (str (c ∷ []))
first-truthy (obj fs) h = Raises-err key_error tt
first-truthy null h = Raises-err type_error tt
first-truthy _ h = Raises-err type_error tt

pub Raises-first :
    {Loop : Type 0} (x y : Json) → truthy y ≡ true → Raises (IsShapeOr Loop) (first (or_else x y))
Raises-first x y h = first-truthy (or_else x y) (or_else-truthy x y h)

pub ruleset raises_rules = (
  Raises-ok, Raises-bind, Raises-map_each, Raises-flat_each, Raises-if, Raises-get, Raises-iterate,
  Raises-dict_get, Raises-index_by_id,
)
