-- ===== src/Overlay/Reached.antt =====
-- The overlays that an overlay reaches through `extends`, and what they offer.
use security_toolchain.Prelude.{
  ◌≡◌, subst, inl, inr, ◌⊎◌, true, ◌||◌, List, [], ◌∷◌, ◌++◌, Text, text, ◌==◌, text_eq,
  text_beq_iff, contains, contains-nil, contains-cons, contains-append, arith, Bool-cases,
}
use security_toolchain.Prelude.Result.{ok}
use security_toolchain.Json.{Fields}
use security_toolchain.Overlay.{overlay_field, add_new, State}

-- An overlay extends another one, in any number of steps.
pub data Reaches (overlays : Fields) (root : Text) : Text → Type 0 where
  here : Reaches overlays root root
  through :
      {n parent : Text} {parents : List Text}
      → Reaches overlays root n
      → overlay_field overlays n (text "extends") ≡ ok parents
      → contains parents parent ≡ true
      → Reaches overlays root parent

-- The two fields that are collected.
pub data Kind : Type 0 where
  packs_kind rules_kind : Kind

abbrev pub key_of : Kind → Text
key_of packs_kind = text "packs"
key_of rules_kind = text "exclude_rules"

abbrev pub got : Kind → State → List Text
got packs_kind st = st.packs
got rules_kind st = st.excludes

-- An overlay that is reached lists it.
pub record IsOffered (overlays : Fields) (root : Text) (kind : Kind) (x : Text) : Type 0 where
  pub owner : Text
  pub listed : List Text
  pub reached : Reaches overlays root owner
  pub owner-listed : overlay_field overlays owner (key_of kind) ≡ ok listed
  pub listed-x : contains listed x ≡ true

pub contains-add_new :
    (old new : List Text) (x : Text)
    → contains (add_new old new) x ≡ (contains old x || contains new x)
unfolding add_new
contains-add_new old [] x = ground (arith, contains-nil x)
contains-add_new old (p ∷ new) x = elim (Bool-cases (contains old p)) [
  | inl there ↦ rw (there) (elim (Bool-cases (p == x)) [
    | inl same ↦
        let there0 : contains old x ≡ true =
          subst (λ y. contains old y ≡ true) ((text_beq_iff p x).0 same) there in
        ground (arith, contains-add_new old new x, contains-cons p new x, there0)
    | inr differs ↦ ground (arith, contains-add_new old new x, contains-cons p new x)
  ])
  | inr fresh ↦ rw (fresh) (
      ground (
        arith,
        contains-add_new (old ++ (p ∷ [])) new x,
        contains-append old (p ∷ []) x,
        contains-cons p [] x,
        contains-nil x,
        contains-cons p new x,
      ))
]

module _ (overlays : Fields) (root : Text) where
  -- The visit of an overlay is over: its parents are seen, and what it lists is collected.
  pub record IsFinished (st : State) (k : Text) : Type 0 where
    pub parents : List Text
    pub k-parents : overlay_field overlays k (text "extends") ≡ ok parents
    pub parents-seen :
        (parent : Text) → contains parents parent ≡ true → contains st.seen parent ≡ true
    pub collected :
        (kind : Kind)
        → (listed : List Text) × (overlay_field overlays k (key_of kind) ≡ ok listed)
          × ((x : Text) → contains listed x ≡ true → contains (got kind st) x ≡ true)

  -- What holds during the visit of some overlays: only what is offered is collected, and of the overlays
  -- that are seen all others are finished.
  pub record IsExact (visited : List Text) (st : State) : Type 0 where
    pub sound :
        (kind : Kind) (x : Text) → contains (got kind st) x ≡ true → IsOffered overlays root kind x
    pub closed :
        (k : Text) → contains st.seen k ≡ true → (contains visited k ≡ true) ⊎ IsFinished st k

-- Nothing that was seen or collected is lost.
pub record IsLater (st st' : State) : Type 0 where
  pub seen : (k : Text) → contains st.seen k ≡ true → contains st'.seen k ≡ true
  pub kept :
      (kind : Kind) (x : Text) → contains (got kind st) x ≡ true → contains (got kind st') x ≡ true
