-- ===== src/Decision/Identity/Groups/Agreement.antt =====
-- What a match between two offers rests on.
use shopping_agent.Common.{
  Bool-cases, ◌≡◌, refl, sym, ap₂, Bool, true, false, ◌&&◌, ◌||◌, inl, inr, Option, none, some,
  List, [], ◌∷◌, ◌++◌, Text, text_eq, text_eq_sound, text_mem, is_empty, arith,
}
use shopping_agent.Decision.Constraint.{Offer}
use shopping_agent.Decision.Identity.{
  Facts, Authority, Comparison, keys, lookup, brand_key, model_key, required_core, without,
  compare_fields, material_verdict, material_comparison, match_identity, sorted_set, identity_facts,
  authority_identifier, match_offer_identity,
}
use shopping_agent.Decision.Identity.Compared.{
  states, Agree, mem-sorted_set, conflicting-Agree, missing-states, matched-states, without-mem,
}
use shopping_agent.Decision.Identity.Groups.{is_matching}

-- The facts that no identifier is needed beside: each side states what the other states, brand and model
-- among it.
abbrev pub IsComplete : Facts → Facts → Type 0
IsComplete r c =
    ((key : Text) → states (lookup key r) ≡ states (lookup key c))
    × (states (lookup brand_key r) ≡ true)
    × (states (lookup model_key r) ≡ true)

-- Both sides give the same authoritative identifier, or neither gives one and their facts are complete.
-- What both sides state is the same.
pub record IsAgreement (a b : Authority) (r c : Facts) : Type 0 where
  pub authority : a ≡ b
  pub agreed : (key : Text) → Agree (lookup key r) (lookup key c)
  pub complete : a ≡ none → IsComplete r c

module _ (fields : List Text) (c : Comparison) where
  verdict-agreed :
      is_matching (material_verdict fields c).decision ≡ true → is_empty c.conflicting ≡ true
  unfolding material_verdict
  verdict-agreed h = ground arith

  verdict_complete :
      is_matching (material_verdict fields c).decision ≡ true
      → is_empty fields ≡ true
      → (is_empty c.missing ≡ true) × (is_empty (without required_core c.matched) ≡ true)
  unfolding material_verdict
  verdict_complete h e = ground arith

both_stated : (a b : Bool) → ((a || b) ≡ true → (a ≡ true) × (b ≡ true)) → a ≡ b
both_stated true true h = refl
both_stated false false h = refl
both_stated true false h = sym (h refl).1
both_stated false true h = (h refl).0

silent-Agree : (a b : Option Text) → (states a || states b) ≡ false → Agree a b
silent-Agree none b h = tt
silent-Agree (some v) b h = cc

module _ (r c : Facts) where
  compared : Comparison
  compared = compare_fields r c (sorted_set (keys r ++ keys c))

  compared-Agree :
      is_empty compared.conflicting ≡ true → (key : Text) → Agree (lookup key r) (lookup key c)
  unfolding compared
  compared-Agree h key = elim (Bool-cases (states (lookup key r) || states (lookup key c))) [
    | inl stated ↦ conflicting-Agree r c key _ (mem-sorted_set key r c stated) h
    | inr silent ↦ silent-Agree (lookup key r) (lookup key c) silent
  ]

  core-states :
      (key : Text)
      → is_empty (without required_core compared.matched) ≡ true
      → text_mem key required_core ≡ true
      → states (lookup key r) ≡ true
  unfolding compared
  core-states key h core = matched-states r c key _ (without-mem key required_core _ h core)

  compared-IsComplete :
      (is_empty compared.missing ≡ true)
        × (is_empty (without required_core compared.matched) ≡ true)
      → IsComplete r c
  unfolding compared text_mem
  compared-IsComplete (missing, core) = (
    λ key.
        both_stated (states (lookup key r)) (states (lookup key c))
          λ stated. missing-states r c key _ (mem-sorted_set key r c stated) missing,
    core-states brand_key core refl,
    core-states model_key core refl,
  )

  comparison-IsAgreement :
      (a b : Authority) (fields : List Text)
      → a ≡ b
      → (a ≡ none → is_empty fields ≡ true)
      → is_matching (material_comparison r c fields).decision ≡ true
      → IsAgreement a b r c
  unfolding material_comparison compared
  comparison-IsAgreement a b fields e anonymous h = record {
    authority = e;
    agreed = compared-Agree (verdict-agreed fields compared h);
    complete =
        λ absent. compared-IsComplete (verdict_complete fields compared h (anonymous absent));
  }

  match_identity-IsAgreement :
      (a b : Authority) → is_matching (match_identity a b r c).decision ≡ true → IsAgreement a b r c
  unfolding match_identity
  match_identity-IsAgreement none none h = comparison-IsAgreement none none [] refl (λ e. refl) h
  match_identity-IsAgreement (some (f, v)) none h = absurd (ground arith)
  match_identity-IsAgreement none (some (f, v)) h = absurd (ground arith)
  match_identity-IsAgreement (some (f, v)) (some (f', v')) h =
      elim (Bool-cases (text_eq f f' && text_eq v v')) [
        | inl e ↦
            comparison-IsAgreement _ _ (f ∷ [])
              (ap₂ (λ x y. some (x, y)) (text_eq_sound f f' (ground (arith, e)))
                (text_eq_sound v v' (ground (arith, e))))
              (λ absent. cc) (ground (arith, e, h))
        | inr e ↦ absurd (ground (arith, e, h))
      ]

-- Two offers match only when their authoritative identifiers are equal or both absent, and every fact that
-- both state is the same text. Without an identifier each of them also states every fact that the other
-- states, and both state brand and model.
pub match_offer_identity-IsAgreement :
    (fold : Text → Text) (reference candidate : Offer)
    → is_matching (match_offer_identity fold reference candidate).decision ≡ true
    → IsAgreement
        (authority_identifier fold reference)
        (authority_identifier fold candidate)
        (identity_facts fold reference)
        (identity_facts fold candidate)
unfolding match_offer_identity
match_offer_identity-IsAgreement fold reference candidate h =
    match_identity-IsAgreement (identity_facts fold reference) (identity_facts fold candidate)
      (authority_identifier fold reference) (authority_identifier fold candidate) h
