-- ===== src/Base/Distinct.antt =====
-- Maps in which no key stands twice, and the sizes of maps.
use cpp_ai_service.Base.{
  ◌+◌, ◌≡◌, refl, sym, ◌∙◌, ap, List, [], ◌∷◌, none, some, arith, length, Bool-cases, inl, inr,
}
use cpp_ai_service.Base.Dictionary.{Key, lookup, assign, erase, lookup-assign, lookup-erase}

module _ {ℓ κ} {K : Type ℓ} {V : Type κ} ⦃key : Key K⦄ where
  abbrev pub Distinct : List (K × V) → Type κ
  Distinct [] = Unit
  Distinct ((k, v) ∷ m) = (lookup k m ≡ none) × Distinct m

  pub Distinct-assign : (k : K) (v : V) (m : List (K × V)) → Distinct m → Distinct (assign k v m)
  unfolding assign
  Distinct-assign k v [] d = (unfold lookup in refl, tt)
  Distinct-assign k v ((j, w) ∷ m) d = elim (Bool-cases (key.same j k)) [
    | inl e ↦ rw (e, assign) (ap (λ (x : K). lookup x m) (sym ((key.same_iff j k).0 e)) ∙ d.0, d.1)
    | inr e ↦
        rw (e, assign)
          (
            lookup-assign k j v m ∙ ground (arith, key.same_iff k j, key.same_iff j k, d.0),
            Distinct-assign k v m d.1,
          )
  ]

  pub Distinct-erase : (k : K) (m : List (K × V)) → Distinct m → Distinct (erase k m)
  unfolding erase
  Distinct-erase k [] d = d
  Distinct-erase k ((j, w) ∷ m) d = elim (Bool-cases (key.same j k)) [
    | inl e ↦ rw (e, erase) (Distinct-erase k m d.1)
    | inr e ↦ rw (e, erase) (lookup-erase k j m ∙ ground (arith, d.0), Distinct-erase k m d.1)
  ]

  pub length-assign_new :
      (k : K) (v : V) (m : List (K × V)) → lookup k m ≡ none → length (assign k v m) ≡ length m + 1
  unfolding assign lookup
  length-assign_new k v [] h = omega arith
  length-assign_new k v ((j, w) ∷ m) h = ground (arith, length-assign_new k v m)

  pub length-assign_old :
      (k : K) (v : V) (m : List (K × V)) {w : V}
      → lookup k m ≡ some w
      → length (assign k v m) ≡ length m
  unfolding assign lookup
  length-assign_old k v [] h = absurd (ground arith)
  length-assign_old k v ((j, u) ∷ m) {w} h = ground (arith, length-assign_old k v m {w = w})

  pub erase_absent : (k : K) (m : List (K × V)) → lookup k m ≡ none → erase k m ≡ m
  unfolding erase lookup
  erase_absent k [] h = refl
  erase_absent k ((j, u) ∷ m) h = ground (arith, erase_absent k m)

  pub length-erase_present :
      (k : K) (m : List (K × V)) {w : V}
      → Distinct m
      → lookup k m ≡ some w
      → length (erase k m) + 1 ≡ length m
  unfolding erase lookup
  length-erase_present k [] d h = absurd (ground arith)
  length-erase_present k ((j, u) ∷ m) {w} d h =
      ground (arith, length-erase_present k m {w = w} d.1, erase_absent k m, key.same_iff j k, d.0)
