-- ===== src/Overlay.antt =====
-- The Opengrep overlays of hooks.py: `_overlay_field` and `resolve_overlay`, on the object of overlays.
-- The nested function `visit` is explicit here: what it shares with its caller is a `State`, and its
-- recursion is on fuel, of which `resolve_overlay` gives as much as there are overlays. `no_fuel`
-- and `no_key` (the `KeyError` of a subscript) stand for what the source never reports as a `ScanError`.
pub mod Terminates
pub mod Reached
pub mod Gathered
pub mod Visited
pub mod Exact
use security_toolchain.Prelude.{
  ℕ, zero, suc, Bool, true, false, not, ◌&&◌, ◌||◌, Option, none, some, List, [], ◌∷◌, ◌++◌, Text,
  text, ◌==◌, text_eq, if◌then◌else◌, length, contains,
}
use security_toolchain.Prelude.Result.{Result, ok, err, ◌>>=◌, require}
use security_toolchain.Json.{
  Json, Items, Fields, null, str, arr, nil, cons, obj, end, field, truthy, or_else, find_field,
  or_default,
}

pub data ScanError : Type 0 where
  unknown_overlay unknown_parent not_an_object not_strings : ScanError
  no_key no_fuel : ScanError

-- `n in overlays`
unfoldable pub has_field : Text → Fields → Bool
has_field k end = false
has_field k (field j v fs) = j == k || has_field k fs

unfoldable pub count_fields : Fields → ℕ
count_fields end = 0
count_fields (field k v fs) = suc (count_fields fs)

-- The strings of a list, if all its values are strings.
unfoldable pub strings : Items → Result ScanError (List Text)
strings nil = ok []
strings (cons (str s) xs) = do rest ← strings xs; ok (s ∷ rest)
strings (cons _ xs) = err not_strings

unfoldable pub list_of_strings : Json → Result ScanError (List Text)
unfolding strings
list_of_strings (arr xs) = strings xs
list_of_strings _ = err not_strings

unfoldable pub spec_field : Option Json → Text → Result ScanError (List Text)
unfolding find_field or_default or_else list_of_strings
spec_field none name = err no_key
spec_field (some (obj fs)) name =
    list_of_strings (or_else (or_default (find_field name fs) null) (arr nil))
spec_field (some _) name = err not_an_object

-- `_overlay_field`
unfoldable pub overlay_field : Fields → Text → Text → Result ScanError (List Text)
unfolding spec_field find_field
overlay_field overlays name key = spec_field (find_field name overlays) key

-- `for p in new: if p not in old: old.append(p)`
unfoldable pub add_new : List Text → List Text → List Text
unfolding contains
add_new old [] = old
add_new old (p ∷ new) =
    let with_p = old ++ (p ∷ []) in if contains old p then add_new old new else add_new with_p new

pub record State : Type 0 where
  pub seen : List Text
  pub packs : List Text
  pub excludes : List Text

-- The loop of `visit` over the parents of an overlay, with `go` for the recursive call.
unfoldable pub visit_parents :
    Fields → (Text → State → Result ScanError State) → List Text → State → Result ScanError State
unfolding has_field
visit_parents overlays go [] st = ok st
visit_parents overlays go (parent ∷ parents) st = do
  _ ← require (has_field parent overlays) unknown_parent
  next ← go parent st
  visit_parents overlays go parents next

-- The end of `visit`, once the parents are done.
unfoldable pub own_fields : Fields → Text → State → Result ScanError State
unfolding overlay_field add_new
own_fields overlays n done = do
  packs ← overlay_field overlays n (text "packs")
  rules ← overlay_field overlays n (text "exclude_rules")
  ok (record {
    seen = done.seen;
    packs = add_new done.packs packs;
    excludes = add_new done.excludes rules;
  })

-- `visit`
unfoldable pub visit : Fields → ℕ → Text → State → Result ScanError State
unfolding contains overlay_field visit_parents own_fields
visit overlays zero n st = if contains st.seen n then ok st else err no_fuel
visit overlays (suc fuel) n st = if contains st.seen n then ok st else do
  parents ← overlay_field overlays n (text "extends")
  done ← visit_parents overlays (visit overlays fuel) parents (record st { seen = n ∷ st.seen })
  own_fields overlays n done

-- `resolve_overlay`: the packs and the excluded rules.
unfoldable pub resolve_overlay : Fields → Text → Result ScanError (List Text × List Text)
unfolding has_field visit count_fields
resolve_overlay overlays name = do
  _ ← require (has_field name overlays) unknown_overlay
  st ← visit overlays (count_fields overlays) name (record { seen = []; packs = []; excludes = [] })
  ok (st.packs, st.excludes)
