-- ===== src/Overlay/Visited.antt =====
-- What a visit leads to, by the recursion of `visit`.
use security_toolchain.Prelude.{
  ℕ, zero, suc, ◌≡◌, subst, inl, inr, true, List, [], ◌∷◌, Text, text, text_eq, text_beq_refl,
  contains, contains-nil, contains-cons, arith, Bool-cases,
}
use security_toolchain.Prelude.Result.{Result, ok, require, bind-eq-ok, ok-injective}
use security_toolchain.Json.{Fields}
use security_toolchain.Overlay.{
  ScanError, unknown_parent, has_field, overlay_field, State, visit_parents, own_fields, visit,
}
use security_toolchain.Overlay.Reached.{
  Reaches, through, Kind, packs_kind, rules_kind, key_of, got, IsOffered, IsExact, IsLater,
}
use security_toolchain.Overlay.Gathered.{
  IsLater-trans, IsLater-refl, of_kind, gathered-IsLater, begun-IsLater, only_one, IsFinished-later,
  gathered-IsExact,
}

module _ (overlays : Fields) (root : Text) where
  -- What a visit of some overlays leads to.
  pub record IsVisited (visited names : List Text) (st st' : State) : Type 0 where
    pub exact : IsExact overlays root visited st'
    pub later : IsLater st st'
    pub all_seen : (name : Text) → contains names name ≡ true → contains st'.seen name ≡ true

  both_listed :
      (n : Text) (packs rules : List Text)
      → overlay_field overlays n (text "packs") ≡ ok packs
      → overlay_field overlays n (text "exclude_rules") ≡ ok rules
      → (kind : Kind) → overlay_field overlays n (key_of kind) ≡ ok (of_kind kind packs rules)
  both_listed n packs rules e1 e2 packs_kind = e1
  both_listed n packs rules e1 e2 rules_kind = e2

  own_fields-IsVisited :
      (n : Text) (visited parents : List Text) (done st' : State)
      → Reaches overlays root n
      → contains done.seen n ≡ true
      → overlay_field overlays n (text "extends") ≡ ok parents
      → ((parent : Text) → contains parents parent ≡ true → contains done.seen parent ≡ true)
      → IsExact overlays root (n ∷ visited) done
      → own_fields overlays n done ≡ ok st'
      → IsExact overlays root visited st' × IsLater done st'
  unfolding own_fields
  own_fields-IsVisited n visited parents done st' is_reached seen e all_seen exact h =
      let (packs, h1, e1) = bind-eq-ok (overlay_field overlays n (text "packs")) _ h in
      let (rules, h2, e2) = bind-eq-ok (overlay_field overlays n (text "exclude_rules")) _ h1 in
      subst (λ s. IsExact overlays root visited s × IsLater done s) (ok-injective h2)
        (
          gathered-IsExact overlays root n visited parents packs rules done is_reached
              (both_listed n packs rules e1 e2) exact e all_seen,
          gathered-IsLater done packs rules,
        )

  visit_parents-IsVisited :
      (go : Text → State → Result ScanError State) (visited : List Text)
      → ((n : Text) (st st' : State)
          → Reaches overlays root n
          → IsExact overlays root visited st
          → go n st ≡ ok st'
          → IsVisited visited (n ∷ []) st st')
      → (parents : List Text) (st st' : State)
      → ((parent : Text) → contains parents parent ≡ true → Reaches overlays root parent)
      → IsExact overlays root visited st
      → visit_parents overlays go parents st ≡ ok st'
      → IsVisited visited parents st st'
  unfolding visit_parents
  visit_parents-IsVisited go visited step [] st st' reached exact h =
      subst (IsVisited visited [] st) (ok-injective h) (record {
        exact = exact;
        later = IsLater-refl st;
        all_seen = λ name m. absurd (ground (arith, contains-nil name));
      })
  visit_parents-IsVisited go visited step (parent ∷ parents) st st' reached exact h =
      let (_, h1, known) = bind-eq-ok (require (has_field parent overlays) unknown_parent) _ h in
      let (next, h2, e) = bind-eq-ok (go parent st) _ h1 in
      let first =
        step parent st next
          (reached parent
            (ground (arith, contains-cons parent parents parent, text_beq_refl parent)))
          exact e in
      let rest =
        visit_parents-IsVisited go visited step parents next st'
          (λ p m. reached p (ground (arith, contains-cons parent parents p))) first.exact h2 in
      record {
        exact = rest.exact;
        later = IsLater-trans st next st' first.later rest.later;
        all_seen = λ name m. elim (Bool-cases (contains parents name)) [
          | inl among ↦ rest.all_seen name among
          | inr apart ↦ rest.later.seen name (
              first.all_seen name
                (ground (arith, contains-cons parent parents name, contains-cons parent [] name)))
        ];
      }

  begun_sound :
      (n : Text) (st : State)
      → ((kind : Kind) (x : Text)
          → contains (got kind st) x ≡ true
          → IsOffered overlays root kind x)
      → (kind : Kind) (x : Text) → contains (got kind (record st { seen = n ∷ st.seen })) x ≡ true
      → IsOffered overlays root kind x
  begun_sound n st sound packs_kind x h = sound packs_kind x h
  begun_sound n st sound rules_kind x h = sound rules_kind x h

  seen_already :
      (visited : List Text) (n : Text) (st st' : State)
      → IsExact overlays root visited st
      → contains st.seen n ≡ true
      → Path (Result ScanError State) (ok st) (ok st')
      → IsVisited visited (n ∷ []) st st'
  seen_already visited n st st' exact old h =
      subst (IsVisited visited (n ∷ []) st) (ok-injective h) (record {
        exact = exact;
        later = IsLater-refl st;
        all_seen = λ name m. only_one n name st m old;
      })

  begun-IsExact :
      (visited : List Text) (n : Text) (st : State)
      → IsExact overlays root visited st
      → IsExact overlays root (n ∷ visited) (record st { seen = n ∷ st.seen })
  begun-IsExact visited n st exact = record {
    sound = begun_sound n st exact.sound;
    closed = λ k h. elim (Bool-cases (contains st.seen k)) [
      | inl old ↦ elim (exact.closed k old) [
        | inl pending ↦ inl (ground (arith, contains-cons n visited k))
        | inr finished ↦ inr (
            IsFinished-later overlays root k st (record st { seen = n ∷ st.seen })
              (begun-IsLater n st) finished)
      ]
      | inr new ↦ inl (ground (arith, contains-cons n visited k, contains-cons n st.seen k))
    ];
  }

  pub visit-IsVisited :
      (visited : List Text) (fuel : ℕ) (n : Text) (st st' : State)
      → Reaches overlays root n
      → IsExact overlays root visited st
      → visit overlays fuel n st ≡ ok st'
      → IsVisited visited (n ∷ []) st st'
  unfolding visit
  visit-IsVisited visited zero n st st' is_reached exact h =
      elim (Bool-cases (contains st.seen n)) [
        | inl old ↦ seen_already visited n st st' exact old (rw (old) at h)
        | inr new ↦ absurd (cc (rw (new) at h))
      ]
  visit-IsVisited visited (suc fuel) n st st' is_reached exact h =
      elim (Bool-cases (contains st.seen n)) [
        | inl old ↦ seen_already visited n st st' exact old (rw (old) at h)
        | inr new ↦
            let h0 = rw (new) at h in
            let (parents, h1, e) = bind-eq-ok (overlay_field overlays n (text "extends")) _ h0 in
            let begun : State = record st { seen = n ∷ st.seen } in
            let (done, h2, e2) =
              bind-eq-ok (visit_parents overlays (visit overlays fuel) parents begun) _ h1 in
            let inside =
              visit_parents-IsVisited (visit overlays fuel) (n ∷ visited)
                (visit-IsVisited (n ∷ visited) fuel) parents begun done
                (λ parent m. through is_reached e m) (begun-IsExact visited n st exact) e2 in
            let seen_n =
              inside.later.seen n (ground (arith, contains-cons n st.seen n, text_beq_refl n)) in
            let (after, later) =
              own_fields-IsVisited n visited parents done st' is_reached seen_n e inside.all_seen
                inside.exact h2 in
            record {
              exact = after;
              later =
                  IsLater-trans st done st'
                    (IsLater-trans st begun done (begun-IsLater n st) inside.later) later;
              all_seen = λ name m. later.seen name (only_one n name done m seen_n);
            }
      ]
