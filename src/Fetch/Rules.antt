-- ===== src/Fetch/Rules.antt =====
-- `rules_path` of fetch.py: the rules in the cache, which a marker file completes.
pub mod Filled
pub mod Kept
use security_toolchain.Prelude.{
  ℕ, ◌≡◌, refl, sym, ap, ◌∙◌, subst, inl, inr, ◌⊎◌, Bool, true, false, Option, none, some, List, [],
  ◌∷◌, ◌++◌, Text, text, ◌==◌, text_eq, text_beq, text_beq_refl, if◌then◌else◌, take, Bool-cases,
  Option-cases,
}
use security_toolchain.Prelude.Result.{Result, ok, err, ◌>>=◌, bind-eq-ok, ok-injective}
use security_toolchain.Json.{Json}
use security_toolchain.Str.{starts_with, join}
use security_toolchain.Lock.{Failure, rules_spec}
use security_toolchain.Fetch.{
  Bytes, FetchError, lock_failure, not_cached, download_verified, safe_extract, Disk, Outside,
  text_field, replace_file,
}

unfoldable pub spec_or : Result Failure Json → Result FetchError Json
spec_or (ok spec) = ok spec
spec_or (err e) = err (lock_failure e)

-- cache_dir() / "rules" / f"{bundle}-{commit[:12]}"
unfoldable pub rules_target : Text → Text → Text → Text
unfolding take
rules_target cache bundle commit =
    cache ++ (text "/rules/" ++ (bundle ++ (text "-" ++ take 12 commit)))

abbrev pub marker_of : Text → Text
marker_of target = target ++ text "/.complete"

-- shutil.rmtree(target)
unfoldable pub remove_below : Disk → Text → Disk
unfolding starts_with
remove_below disk target = λ p. if starts_with p (target ++ text "/") then none else disk p

-- What os.replace moves to the target: the files that were extracted, in their order.
unfoldable pub put_below : Disk → Text → List (List Text × Bytes) → Disk
unfolding replace_file join
put_below disk target [] = disk
put_below disk target ((parts, content) ∷ files) =
    put_below (replace_file disk (target ++ (text "/" ++ join (text "/") parts)) content) target
      files

-- The part that fetches.
unfoldable pub fetch_rules : Outside → Disk → Text → Text → Json → Result FetchError Disk
unfolding text_field download_verified safe_extract remove_below put_below replace_file
fetch_rules outside disk target commit spec = do
  url ← text_field spec (text "url")
  expected ← text_field spec (text "sha256")
  content ← download_verified (outside.get url) outside.sha256 expected 3
  let fresh = put_below (remove_below disk target) target (safe_extract (outside.members content))
  ok (replace_file fresh (marker_of target) (commit ++ text "\n"))

-- The rest of `rules_path`, from what the disk holds as the marker.
unfoldable pub rules_from_cache :
    Outside → Disk → Text → Text → Json → Option Bytes → Result FetchError (Text × Disk)
unfolding fetch_rules
rules_from_cache outside disk target commit spec (some content) = ok (target, disk)
rules_from_cache outside disk target commit spec none =
    if outside.offline
    then err not_cached
    else (do next ← fetch_rules outside disk target commit spec; ok (target, next))

-- `rules_path`: the directory, and the disk afterwards.
unfoldable pub rules_path : Outside → Disk → Json → Text → Result FetchError (Text × Disk)
unfolding spec_or rules_spec text_field rules_target rules_from_cache
rules_path outside disk lock bundle = do
  spec ← spec_or (rules_spec lock bundle)
  commit ← text_field spec (text "commit")
  let target = rules_target outside.cache bundle commit
  rules_from_cache outside disk target commit spec (disk (marker_of target))
