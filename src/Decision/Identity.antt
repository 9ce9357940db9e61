-- ===== src/Decision/Identity.antt =====
-- app/tools/identity_matcher.py: when two offers are the same product, and the one group of matching
-- offers that an exact comparison uses. `fold` stands for NFKC normalisation with `casefold`, of
-- Python's Unicode tables.
mod Stated
mod Compared
pub mod Groups
mod Examples
use shopping_agent.Common.{
  ℕ, zero, suc, ◌+◌, ◌≡◌, Bool, true, false, not, ◌&&◌, ◌||◌, Option, none, some, List, [], ◌∷◌,
  ◌++◌, map, Text, codes, text_eq, text_mem, text_leb, text_order, sort, any, all, is_empty, length,
  leb, ltb, ◌==◌, if◌then◌else◌,
}
use shopping_agent.Decision.Value.{Value, str, is_space}
use shopping_agent.Decision.Constraint.{Offer}
unfoldable pub use Stated.*

pub data Decision : Type 0 where
  matching_offer alternative_candidate : Decision

pub data Basis : Type 0 where
  identifier material_variant_attributes insufficient : Basis

-- `IdentityEvidence`
pub record IdentityEvidence : Type 0 where
  pub decision : Decision
  pub basis : Basis
  pub matched_fields : List Text
  pub missing_fields : List Text
  pub conflicting_fields : List Text

abbrev pub alternative : List Text → List Text → List Text → IdentityEvidence
alternative matched missing conflicting = record {
  decision = alternative_candidate;
  basis = insufficient;
  matched_fields = matched;
  missing_fields = missing;
  conflicting_fields = conflicting;
}

-- `set(a) | set(b)` sorted: the keys of both, each once.
pub dedup : List Text → List Text
unfolding text_mem
dedup [] = []
dedup (t ∷ ts) = let rest = dedup ts in if text_mem t rest then rest else t ∷ rest

abbrev pub sorted_set : List Text → List Text
unfolding dedup
sorted_set ts = sort text_order (dedup ts)

abbrev pub keys : Facts → List Text
keys facts = map (λ f. f.0) facts

pub record Comparison : Type 0 where
  pub matched : List Text
  pub missing : List Text
  pub conflicting : List Text

abbrev pub sort_field : Text → Option Text → Option Text → Comparison → Comparison
sort_field field none other c = record c { missing = field ∷ c.missing }
sort_field field (some a) none c = record c { missing = field ∷ c.missing }
sort_field field (some a) (some b) c =
    if text_eq a b
    then record c { matched = field ∷ c.matched }
    else record c { conflicting = field ∷ c.conflicting }

unfoldable pub compare_fields : Facts → Facts → List Text → Comparison
unfolding lookup
compare_fields reference candidate [] = record { matched = []; missing = []; conflicting = [] }
compare_fields reference candidate (f ∷ fs) =
    sort_field f (lookup f reference) (lookup f candidate) (compare_fields reference candidate fs)

abbrev pub required_core : List Text
required_core = brand_key ∷ model_key ∷ []

abbrev pub without : List Text → List Text → List Text
without [] found = []
without (t ∷ ts) found = if text_mem t found then without ts found else t ∷ without ts found

-- The verdict on compared fields; `identifier_fields` is empty where no identifier was equal.
unfoldable pub material_verdict : List Text → Comparison → IdentityEvidence
unfolding dedup
material_verdict identifier_fields c =
    if not (is_empty c.conflicting)
    then alternative c.matched c.missing c.conflicting
    else if not (is_empty identifier_fields)
    then record {
      decision = matching_offer;
      basis = identifier;
      matched_fields = identifier_fields ++ c.matched;
      missing_fields = c.missing;
      conflicting_fields = [];
    }
    else if not (is_empty c.missing) || not (is_empty (without required_core c.matched))
    then alternative c.matched (sorted_set (c.missing ++ without required_core c.matched))
        c.conflicting
    else record {
      decision = matching_offer;
      basis = material_variant_attributes;
      matched_fields = c.matched;
      missing_fields = [];
      conflicting_fields = [];
    }

unfoldable pub material_comparison : Facts → Facts → List Text → IdentityEvidence
unfolding compare_fields material_verdict
material_comparison reference candidate identifier_fields =
    material_verdict identifier_fields
      (compare_fields reference candidate (sorted_set (keys reference ++ keys candidate)))

-- `match_offer_identity`, on the identifiers and facts of both offers.
unfoldable pub match_identity : Authority → Authority → Facts → Facts → IdentityEvidence
unfolding material_comparison text_eq
match_identity none none r c = material_comparison r c []
match_identity (some (field, v)) none r c =
    alternative [] (field ∷ codes "identity.identifier" ∷ []) []
match_identity none (some (field, v)) r c =
    alternative [] (codes "identity.identifier" ∷ field ∷ []) []
match_identity (some (field, v)) (some (field', v')) r c =
    if text_eq field field' && text_eq v v'
    then material_comparison r c (field ∷ [])
    else alternative [] [] (field ∷ field' ∷ [])

module _ (fold : Text → Text) where
  unfoldable pub match_offer_identity : Offer → Offer → IdentityEvidence
  unfolding match_identity identity_facts authority_identifier
  match_offer_identity reference candidate =
      match_identity (authority_identifier fold reference) (authority_identifier fold candidate)
        (identity_facts fold reference) (identity_facts fold candidate)
