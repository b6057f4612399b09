-- ===== src/Overlay/Gathered.antt =====
-- The state of a resolution at the beginning and at the end of a visit.
use security_toolchain.Prelude.{
  ◌≡◌, refl, ◌∙◌, subst, inl, inr, true, ◌||◌, List, [], ◌∷◌, Text, text, ◌==◌, text_eq, text_beq,
  text_beq_iff, contains, contains-nil, contains-cons, arith, Bool-cases,
}
use security_toolchain.Prelude.Result.{ok}
use security_toolchain.Json.{Fields}
use security_toolchain.Overlay.{overlay_field, add_new, State}
use security_toolchain.Overlay.Reached.{
  Reaches, Kind, packs_kind, rules_kind, key_of, got, IsOffered, contains-add_new, IsFinished,
  IsExact, IsLater,
}

pub IsLater-trans : (a b c : State) → IsLater a b → IsLater b c → IsLater a c
IsLater-trans a b c ab bc = record {
  seen = λ k h. bc.seen k (ab.seen k h);
  kept = λ kind x h. bc.kept kind x (ab.kept kind x h);
}

pub IsLater-refl : (a : State) → IsLater a a
IsLater-refl a = record { seen = λ k h. h; kept = λ kind x h. h }

-- A state with what one overlay lists.
abbrev pub gathered : State → List Text → List Text → State
gathered done packs rules = record {
  seen = done.seen;
  packs = add_new done.packs packs;
  excludes = add_new done.excludes rules;
}

abbrev pub of_kind : Kind → List Text → List Text → List Text
of_kind packs_kind packs rules = packs
of_kind rules_kind packs rules = rules

got-gathered :
    (kind : Kind) (done : State) (packs rules : List Text) (x : Text)
    → contains (got kind (gathered done packs rules)) x
      ≡ (contains (got kind done) x || contains (of_kind kind packs rules) x)
got-gathered packs_kind done packs rules x = contains-add_new done.packs packs x
got-gathered rules_kind done packs rules x = contains-add_new done.excludes rules x

pub gathered-IsLater :
    (done : State) (packs rules : List Text) → IsLater done (gathered done packs rules)
gathered-IsLater done packs rules = record {
  seen = λ k h. h;
  kept = λ kind x h. got-gathered kind done packs rules x ∙ rw (h) refl;
}

begun-kept :
    (n : Text) (st : State) (kind : Kind) (x : Text)
    → contains (got kind st) x ≡ true
    → contains (got kind (record st { seen = n ∷ st.seen })) x ≡ true
begun-kept n st packs_kind x h = h
begun-kept n st rules_kind x h = h

pub only_one :
    (n name : Text) (done : State)
    → contains (n ∷ []) name ≡ true
    → contains done.seen n ≡ true
    → contains done.seen name ≡ true
only_one n name done m h =
    let same : text_beq n name ≡ true =
      ground (arith, contains-cons n [] name, contains-nil name) in
    subst (λ k. contains done.seen k ≡ true) ((text_beq_iff n name).0 same) h

pub begun-IsLater : (n : Text) (st : State) → IsLater st (record st { seen = n ∷ st.seen })
begun-IsLater n st = record {
  seen = λ k h. ground (arith, contains-cons n st.seen k);
  kept = begun-kept n st;
}

module _ (overlays : Fields) (root : Text) where
  pub IsFinished-later :
      (k : Text) (st st' : State)
      → IsLater st st'
      → IsFinished overlays root st k
      → IsFinished overlays root st' k
  IsFinished-later k st st' later f = record {
    parents = f.parents;
    k-parents = f.k-parents;
    parents-seen = λ parent h. later.seen parent (f.parents-seen parent h);
    collected = λ kind.
        let (listed, e, all_in) = f.collected kind in
        (listed, e, λ x h. later.kept kind x (all_in x h));
  }

  -- The end of the visit of n.
  module _ (n : Text) (visited parents packs rules : List Text) (done : State)
      (is_reached : Reaches overlays root n)
      (listed : (kind : Kind)
        → overlay_field overlays n (key_of kind) ≡ ok (of_kind kind packs rules)) where
    gathered_sound :
        IsExact overlays root (n ∷ visited) done
        → (kind : Kind) (x : Text) → contains (got kind (gathered done packs rules)) x ≡ true
        → IsOffered overlays root kind x
    gathered_sound exact kind x h = elim (Bool-cases (contains (of_kind kind packs rules) x)) [
      | inl new ↦ record {
        owner = n;
        listed = of_kind kind packs rules;
        reached = is_reached;
        owner-listed = listed kind;
        listed-x = new;
      }
      | inr old ↦ exact.sound kind x (ground (arith, got-gathered kind done packs rules x))
    ]

    gathered-IsFinished :
        overlay_field overlays n (text "extends") ≡ ok parents
        → ((parent : Text) → contains parents parent ≡ true → contains done.seen parent ≡ true)
        → IsFinished overlays root (gathered done packs rules) n
    gathered-IsFinished e all_seen = record {
      parents = parents;
      k-parents = e;
      parents-seen = all_seen;
      collected = λ kind. (
        of_kind kind packs rules,
        listed kind,
        λ x h. ground (arith, got-gathered kind done packs rules x),
      );
    }

    pub gathered-IsExact :
        IsExact overlays root (n ∷ visited) done
        → overlay_field overlays n (text "extends") ≡ ok parents
        → ((parent : Text) → contains parents parent ≡ true → contains done.seen parent ≡ true)
        → IsExact overlays root visited (gathered done packs rules)
    gathered-IsExact exact e all_seen = record {
      sound = gathered_sound exact;
      closed = λ k h. elim (exact.closed k h) [
        | inr finished ↦ inr (
            IsFinished-later k done (gathered done packs rules) (gathered-IsLater done packs rules)
              finished)
        | inl pending ↦ elim (Bool-cases (n == k)) [
          | inl same ↦ inr (
              subst (IsFinished overlays root (gathered done packs rules))
                ((text_beq_iff n k).0 same) (gathered-IsFinished e all_seen))
          | inr differs ↦ inl (ground (arith, contains-cons n visited k))
        ]
      ];
    }
