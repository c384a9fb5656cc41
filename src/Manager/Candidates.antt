-- ===== src/Manager/Candidates.antt =====
-- `_is_usable` and `_verify_ttl`: which candidates are resolved, and with what lifetime.
use long_term_memory_agent.Base.{
  String, ◌≡◌, ◌≢◌, refl, Bool, true, false, none, List, [], ◌∷◌, All, any, filter, map, arith,
  str_eq, eq_iff, if◌then◌else◌,
}
use long_term_memory_agent.Env.{Env}
use long_term_memory_agent.Extract.{CandidateFact}
use long_term_memory_agent.Extract.Patterns.{has_temporal_marker}
use long_term_memory_agent.Manager.{is_usable, verify_ttl, usable_candidates, non_values}
use long_term_memory_agent.Manager.Effects.{norm}

module _ ⦃env : Env⦄ where
  pub record IsChecked (turn : String) (c : CandidateFact env.Float) : Type 0 where
    -- a slot is filled with a value
    pub valued : c.attribute ≢ "" → any (str_eq (norm c.value)) non_values ≡ false
    -- a lifetime is the user's word
    pub framed : has_temporal_marker turn ≡ false → c.ttl_days ≡ none

  verified :
      (c : CandidateFact env.Float) (turn : String)
      → is_usable (verify_ttl c turn) ≡ true
      → IsChecked turn (verify_ttl c turn)
  unfolding is_usable verify_ttl
  verified c turn e = record {
    valued = ground (arith, eq_iff c.attribute "");
    framed = ground arith;
  }

  -- Every candidate that is resolved has a value if it has a slot, and a lifetime only if the turn
  -- has a temporal marker.
  pub usable_candidates-IsChecked :
      (cs : List (CandidateFact env.Float)) (turn : String)
      → All (IsChecked turn) (usable_candidates cs turn)
  unfolding usable_candidates
  usable_candidates-IsChecked [] turn = tt
  usable_candidates-IsChecked (c ∷ cs) turn =
      keep (is_usable (verify_ttl c turn)) refl (usable_candidates-IsChecked cs turn)
    where
      rest : List (CandidateFact env.Float)
      rest = filter is_usable (map (λ x. verify_ttl x turn) cs)

      keep :
          (b : Bool)
          → is_usable (verify_ttl c turn) ≡ b
          → All (IsChecked turn) rest
          → All (IsChecked turn) (if b then verify_ttl c turn ∷ rest else rest)
      keep true e ih = (verified c turn e, ih)
      keep false e ih = ih
