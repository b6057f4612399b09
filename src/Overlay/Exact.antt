-- ===== src/Overlay/Exact.antt =====
-- What `resolve_overlay` collects.
use security_toolchain.Prelude.{
  ◌≡◌, sym, ◌∙◌, subst, inl, inr, ◌↔◌, true, List, [], Text, text_eq, text_beq_refl, contains,
  contains-nil, contains-cons, arith,
}
use security_toolchain.Prelude.Result.{ok, require, bind-eq-ok, ok-injective}
use security_toolchain.Json.{Fields}
use security_toolchain.Overlay.{
  unknown_overlay, has_field, count_fields, State, visit, resolve_overlay,
}
use security_toolchain.Overlay.Reached.{
  Reaches, here, through, Kind, packs_kind, rules_kind, got, IsOffered, IsFinished, IsExact,
}
use security_toolchain.Overlay.Visited.{visit-IsVisited}

module _ (overlays : Fields) (root : Text) (st : State) (exact : IsExact overlays root [] st)
    (root_seen : contains st.seen root ≡ true) where
  finished : (k : Text) → contains st.seen k ≡ true → IsFinished overlays root st k
  finished k seen = elim (exact.closed k seen) [
    | inl pending ↦ absurd (ground (arith, contains-nil k))
    | inr done ↦ done
  ]

  reached-seen : {k : Text} → Reaches overlays root k → contains st.seen k ≡ true
  reached-seen here = root_seen
  reached-seen (through {n = n} {parent = parent} before e among) =
      let done = finished n (reached-seen before) in
      done.parents-seen parent (
        subst (λ listed. contains listed parent ≡ true) (ok-injective (sym e ∙ done.k-parents))
          among)

  offered-got :
      (kind : Kind) (x : Text) → IsOffered overlays root kind x → contains (got kind st) x ≡ true
  offered-got kind x offer =
      let done = finished offer.owner (reached-seen offer.reached) in
      let (listed, e, all_in) = done.collected kind in
      all_in x (
        subst (λ found. contains found x ≡ true) (ok-injective (sym offer.owner-listed ∙ e))
          offer.listed-x)

start_empty :
    (kind : Kind) (x : Text)
    → contains (got kind (record { seen = []; packs = []; excludes = [] })) x ≡ true
    → ⊥
start_empty packs_kind x h = ground (arith, contains-nil x)
start_empty rules_kind x h = ground (arith, contains-nil x)

start-IsExact :
    (overlays : Fields) (root : Text)
    → IsExact overlays root [] (record { seen = []; packs = []; excludes = [] })
start-IsExact overlays root = record {
  sound = λ kind x h. absurd (start_empty kind x h);
  closed = λ k h. absurd (ground (arith, contains-nil k));
}

-- Where the resolution of a name returns, its packs are exactly those that the overlays list which the
-- name reaches through extends, itself included, and its excluded rules are exactly theirs: nothing else
-- is collected, and no overlay that is reached is left out, cycles included.
pub resolve_overlay-IsOffered :
    (overlays : Fields) (name : Text) (packs rules : List Text)
    → resolve_overlay overlays name ≡ ok (packs, rules)
    → (x : Text)
    → ((contains packs x ≡ true) ↔ IsOffered overlays name packs_kind x)
      × ((contains rules x ≡ true) ↔ IsOffered overlays name rules_kind x)
unfolding resolve_overlay
resolve_overlay-IsOffered overlays name packs rules h x =
    let (_, h1, known) = bind-eq-ok (require (has_field name overlays) unknown_overlay) _ h in
    let start : State = record { seen = []; packs = []; excludes = [] } in
    let (st, h2, e) = bind-eq-ok (visit overlays (count_fields overlays) name start) _ h1 in
    let visited =
      visit-IsVisited overlays name [] (count_fields overlays) name start st here
        (start-IsExact overlays name) e in
    let root_seen =
      visited.all_seen name (ground (arith, contains-cons name [] name, text_beq_refl name)) in
    let found : (st.packs, st.excludes) ≡ (packs, rules) = ok-injective h2 in
    subst
      (λ (pair : List Text × List Text).
        ((contains pair.0 x ≡ true) ↔ IsOffered overlays name packs_kind x)
        × ((contains pair.1 x ≡ true) ↔ IsOffered overlays name rules_kind x))
      found
      (
        (
          visited.exact.sound packs_kind x,
          offered-got overlays name st visited.exact root_seen packs_kind x,
        ),
        (
          visited.exact.sound rules_kind x,
          offered-got overlays name st visited.exact root_seen rules_kind x,
        ),
      )
