-- ===== src/Fetch/Rules/Kept.antt =====
-- What `rules_path` leaves on the disk.
use security_toolchain.Prelude.{
  ◌≡◌, refl, sym, ap, subst, inl, inr, true, Option, none, some, ◌++◌, Text, text, text_eq,
  Bool-cases,
}
use security_toolchain.Prelude.Result.{Result, ok, err, bind-eq-ok, ok-injective}
use security_toolchain.Json.{Json}
use security_toolchain.Lock.{Failure, rules_spec}
use security_toolchain.Fetch.{Bytes, Disk, Outside, text_field}
use security_toolchain.Fetch.Rules.{
  spec_or, rules_target, marker_of, fetch_rules, rules_from_cache, rules_path,
}
use security_toolchain.Fetch.Rules.Filled.{IsCurrent, cached, fetched, fetch_rules-IsCurrent}

-- A machine without the network, with the same cache.
abbrev pub cut_off : Outside → Outside
cut_off outside = record {
  get = λ url attempt. none;
  sha256 = outside.sha256;
  members = outside.members;
  offline = true;
  cache = outside.cache;
  show = outside.show;
}

IsCurrent-marker :
    {outside : Outside} {disk next : Disk} {spec : Json} {target commit : Text}
    → IsCurrent outside disk spec target commit next
    → (content : Bytes) × (next (marker_of target) ≡ some content)
IsCurrent-marker (cached content e) = (content, e)
IsCurrent-marker {commit = commit} (fetched url content on missing e read same filled) =
    (commit ++ text "\n", filled.marker)

abbrev HasMarker : Outside → Disk → Json → (target commit : Text) → Text × Disk → Type 0
HasMarker outside disk spec target commit found =
    (found.0 ≡ target)
    × IsCurrent outside disk spec found.0 commit found.1
    × (content : Bytes) × (found.1 (marker_of target) ≡ some content)

rules_from_cache-HasMarker :
    (outside : Outside) (disk : Disk) (target commit : Text) (spec : Json) (held : Option Bytes)
    (found : Text × Disk)
    → disk (marker_of target) ≡ held
    → rules_from_cache outside disk target commit spec held ≡ ok found
    → HasMarker outside disk spec target commit found
unfolding rules_from_cache
rules_from_cache-HasMarker outside disk target commit spec (some content) found e h =
    subst (HasMarker outside disk spec target commit) (ok-injective h)
      (refl, cached content e, content, e)
rules_from_cache-HasMarker outside disk target commit spec none found e h =
    elim (Bool-cases outside.offline) [
      | inl off ↦ absurd (cc (rw (off) at h))
      | inr on ↦
          let h0 = rw (on) at h in
          let (next, h1, got_rules) =
            bind-eq-ok (fetch_rules outside disk target commit spec) _ h0 in
          let current = fetch_rules-IsCurrent outside disk target commit spec next on e got_rules in
          let (content, marked) = IsCurrent-marker current in
          subst (HasMarker outside disk spec target commit) (ok-injective h1)
            (refl, current, content, marked)
    ]

spec_or-ok : (r : Result Failure Json) {spec : Json} → spec_or r ≡ ok spec → r ≡ ok spec
unfolding spec_or
spec_or-ok (ok v) h = ap ok (ok-injective h)
spec_or-ok (err e) h = absurd (cc)

-- Where rules_path returns a directory, it is that of the commit that the lock names for the bundle.
-- Either its marker was there and the disk is as it was, or the marker was missing, the run is online,
-- the archive was read, in one of three attempts, from the lock's url and has the lock's sha256, and the
-- directory then holds the files that are extracted from that archive and the marker with the commit,
-- nothing else below it is left, and no path outside it has changed. A later call then returns the same
-- directory and leaves the disk as it is, also on a machine that is offline.
pub rules_path-IsCurrent :
    (outside : Outside) (disk : Disk) (lock : Json) (bundle target : Text) (next : Disk)
    → rules_path outside disk lock bundle ≡ ok (target, next)
    → (spec : Json) × (commit : Text) × (rules_spec lock bundle ≡ ok spec)
      × (text_field spec (text "commit") ≡ ok commit)
      × (target ≡ rules_target outside.cache bundle commit)
      × IsCurrent outside disk spec target commit next
      × (rules_path (cut_off outside) next lock bundle ≡ ok (target, next))
unfolding rules_path
rules_path-IsCurrent outside disk lock bundle target next h =
    let (spec, h1, e1) = bind-eq-ok (spec_or (rules_spec lock bundle)) _ h in
    let (commit, h2, e2) = bind-eq-ok (text_field spec (text "commit")) _ h1 in
    let path = rules_target outside.cache bundle commit in
    let (same, current, content, marked) =
      rules_from_cache-HasMarker outside disk path commit spec (disk (marker_of path))
        (target, next) refl h2 in
    (
      spec,
      commit,
      spec_or-ok (rules_spec lock bundle) e1,
      e2,
      same,
      current,
      rw (e1, e2, marked) (ap (λ t. ok (t, next)) (sym same)),
    )
