-- ===== src/Json.antt =====
-- The values that `json.loads` returns, and the operations of Python that the sources apply to
-- them without knowing their type. An object's keys are its fields in order; of two equal keys
-- `json.loads` keeps one, so a lookup finds the only one.
pub mod Outcomes
use security_toolchain.Prelude.{
  ℕ, ℤ, pos, negsuc, Bool, true, false, not, ◌&&◌, ◌||◌, Option, none, some, List, [], ◌∷◌, Text,
  ◌==◌, text_eq, nat_eq, if◌then◌else◌, map, text, ◌++◌,
}
use security_toolchain.Prelude.Result.{Result, ok, err, ◌>>=◌}

mutual
  pub data Json : Type 0 where
    null : Json
    bool : Bool → Json
    int : ℤ → Json
    -- a float that is no integer, by its `repr`
    frac : Text → Json
    str : Text → Json
    arr : Items → Json
    obj : Fields → Json

  pub data Items : Type 0 where
    nil : Items
    cons : Json → Items → Items

  pub data Fields : Type 0 where
    end : Fields
    field : Text → Json → Fields → Fields

-- What evaluating an expression may raise.
pub data PyError : Type 0 where
  attribute_error type_error key_error index_error : PyError
  value_error overflow_error recursion_error runtime_error : PyError

abbrev pub Py : Type 0 → Type 0
Py A = Result PyError A

abbrev pub to_list : Items → List Json
to_list nil = []
to_list (cons x xs) = x ∷ to_list xs

abbrev pub of_list : List Json → Items
of_list [] = nil
of_list (x ∷ xs) = cons x (of_list xs)

abbrev pub key_list : Fields → List Json
key_list end = []
key_list (field k v fs) = str k ∷ key_list fs

-- bool(x)
unfoldable pub truthy : Json → Bool
truthy null = false
truthy (bool b) = b
truthy (int (pos n)) = not (n == 0)
truthy (int (negsuc n)) = true
truthy (frac s) = true
truthy (str s) = not (s == [])
truthy (arr nil) = false
truthy (arr (cons x xs)) = true
truthy (obj end) = false
truthy (obj (field k v fs)) = true

-- x or y
unfoldable pub or_else : Json → Json → Json
unfolding truthy
or_else x y = if truthy x then x else y

unfoldable pub find_field : Text → Fields → Option Json
find_field k end = none
find_field k (field j v fs) = if j == k then some v else find_field k fs

unfoldable pub or_default : Option Json → Json → Json
or_default none d = d
or_default (some v) d = v

-- x.get(k, d)
unfoldable pub get : Json → Text → Json → Py Json
unfolding find_field or_default
get (obj fs) k d = ok (or_default (find_field k fs) d)
get _ k d = err attribute_error

abbrev pub chars : Text → List Json
chars [] = []
chars (c ∷ s) = str (c ∷ []) ∷ chars s

-- The values that `for v in x` goes through.
unfoldable pub iterate : Json → Py (List Json)
iterate (arr xs) = ok (to_list xs)
iterate (obj fs) = ok (key_list fs)
iterate (str s) = ok (chars s)
iterate _ = err type_error

-- x[0]
unfoldable pub first : Json → Py Json
first (arr nil) = err index_error
first (arr (cons x xs)) = ok x
first (str []) = err index_error
first (str (c ∷ s)) = ok (str (c ∷ []))
first (obj fs) = err key_error
first _ = err type_error

-- Lists and dicts are not hashable, so they are no keys of a dict and are looked up in none.
unfoldable pub hashable : Json → Bool
hashable (arr xs) = false
hashable (obj fs) = false
hashable _ = true

-- What a boolean or an integer is worth as a key: `True` is 1 and `False` is 0.
abbrev number : Bool → ℤ
number true = pos 1
number false = pos 0

abbrev pub int_beq : ℤ → ℤ → Bool
int_beq (pos a) (pos b) = a == b
int_beq (negsuc a) (negsuc b) = a == b
int_beq _ _ = false

-- x == y, for hashable values.
unfoldable pub same_key : Json → Json → Bool
same_key null null = true
same_key (bool a) (bool b) = int_beq (number a) (number b)
same_key (bool a) (int b) = int_beq (number a) b
same_key (int a) (bool b) = int_beq a (number b)
same_key (int a) (int b) = int_beq a b
same_key (frac a) (frac b) = a == b
same_key (str a) (str b) = a == b
same_key _ _ = false

abbrev pub empty_obj : Json
empty_obj = obj end

abbrev pub empty_arr : Json
empty_arr = arr nil

-- A dict with keys of any hashable type, in the order of insertion.
abbrev pub Dict : Type 0
Dict = List (Json × Json)

unfoldable pub put : Json → Json → Dict → Dict
unfolding same_key
put k v [] = (k, v) ∷ []
put k v ((j, w) ∷ d) = let rest = put k v d in if same_key j k then (j, v) ∷ d else (j, w) ∷ rest

find_key : Json → Dict → Option Json
find_key k [] = none
find_key k ((j, w) ∷ d) = if same_key j k then some w else find_key k d

-- d.get(k, default)
unfoldable pub dict_get : Dict → Json → Json → Py Json
unfolding hashable find_key or_default same_key
dict_get d k default = if hashable k then ok (or_default (find_key k d) default) else err type_error

-- [f(x) for x in xs]
unfoldable pub map_each : {A B : Type 0} → (A → Py B) → List A → Py (List B)
map_each f [] = ok []
map_each f (x ∷ xs) = do y ← f x; ys ← map_each f xs; ok (y ∷ ys)

-- [y for x in xs for y in f(x)]
unfoldable pub flat_each : {A B : Type 0} → (A → Py (List B)) → List A → Py (List B)
flat_each f [] = ok []
flat_each f (x ∷ xs) = do ys ← f x; zs ← flat_each f xs; ok (ys ++ zs)

-- {x.get("id"): x for x in xs}, into the dict that is built so far.
unfoldable pub index_from : Dict → List Json → Py Dict
unfolding get hashable put
index_from d [] = ok d
index_from d (x ∷ xs) = do
  k ← get x (text "id") null
  if hashable k then index_from (put k x d) xs else err type_error

unfoldable pub index_by_id : List Json → Py Dict
unfolding index_from
index_by_id xs = index_from [] xs
