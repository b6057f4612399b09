-- ===== src/Gate/Sarif/Low.antt =====
-- Which rules of a SARIF are of low confidence, and the changes of a JSON value in place.
use security_toolchain.Prelude.{
  Bool, true, ◌||◌, Option, none, some, List, [], ◌∷◌, Text, text, ◌==◌, text_eq, if◌then◌else◌,
  any,
}
use security_toolchain.Prelude.Result.{ok, err, ◌>>=◌}
use security_toolchain.Json.{
  Json, Fields, null, arr, obj, end, field, Py, attribute_error, empty_obj, empty_arr, truthy,
  or_else, get, iterate, find_field, of_list,
}
use security_toolchain.Str.{starts_with, has_substring}
use security_toolchain.Changed.Lists.{ends_with}
use security_toolchain.Gate.Host.{Host}
use security_toolchain.Gate.Reports.Opengrep.{normalize_opengrep_rule_id, is_low_confidence_tag}

-- `_AUDIT_RULE_ID.search(s)`; the `$` also stands before a line feed that ends the text.
unfoldable pub is_audit_id : Text → Bool
unfolding starts_with has_substring ends_with
is_audit_id s =
    starts_with s (text "audit.")
    || (has_substring s (text ".audit.")
        || (ends_with s (text "-audit") || ends_with s (text "-audit\n")))

-- `_is_low_confidence_rule`
unfoldable pub is_low_confidence_rule : Host → Json → Json → Py Bool
unfolding get or_else iterate is_low_confidence_tag any normalize_opengrep_rule_id is_audit_id
is_low_confidence_rule host rule_id meta = do
  properties ← get meta (text "properties") null
  tags ← get (or_else properties empty_obj) (text "tags") null
  listed ← iterate (or_else tags empty_arr)
  if any (is_low_confidence_tag host) listed
      then ok true
      else (do id ← normalize_opengrep_rule_id rule_id; ok (is_audit_id id))

-- x[k] = v on the fields of a dict: in its place, or at the end.
unfoldable pub set_field : Text → Json → Fields → Fields
set_field k v end = field k v end
set_field k v (field j w fs) =
    let rest = set_field k v fs in if j == k then field j v fs else field j w rest

-- The items of a list that is rewritten; a text or a dict yields texts, which nothing changes.
unfoldable pub with_items : Json → List Json → Json
with_items (arr xs) ys = arr (of_list ys)
with_items v ys = v

-- The loop `for v in x`, whose body may change v and hands something on.
unfoldable pub rewrite_each :
    {A : Type 0} → (Json → Py (Json × A)) → List Json → Py (List Json × List A)
rewrite_each f [] = ok ([], [])
rewrite_each f (x ∷ xs) = do (y, a) ← f x; (ys, bs) ← rewrite_each f xs; ok (y ∷ ys, a ∷ bs)

unfoldable pub rewrite_items : {A : Type 0} → (Json → Py (Json × A)) → Json → Py (Json × List A)
unfolding iterate rewrite_each with_items
rewrite_items f x = do xs ← iterate x; (ys, bs) ← rewrite_each f xs; ok (with_items x ys, bs)

-- What happens to x.get(k, d) also happens to the field of x, if there is one.
unfoldable pub rewrite_found :
    {A : Type 0} → Option Json → Text → Json → Fields → (Json → Py (Json × A)) → Py (Json × A)
unfolding set_field
rewrite_found none k d fs f = do (v, a) ← f d; ok (obj fs, a)
rewrite_found (some v) k d fs f = do (w, a) ← f v; ok (obj (set_field k w fs), a)

unfoldable pub rewrite_field :
    {A : Type 0} → Text → Json → (Json → Py (Json × A)) → Json → Py (Json × A)
unfolding rewrite_found find_field
rewrite_field k d f (obj fs) = rewrite_found (find_field k fs) k d fs f
rewrite_field k d f _ = err attribute_error

-- What happens to `x or d` also happens to x, where x is taken.
unfoldable pub rewrite_or : {A : Type 0} → Json → (Json → Py (Json × A)) → Json → Py (Json × A)
unfolding truthy
rewrite_or d f x = if truthy x then f x else (do (v, a) ← f d; ok (x, a))
