-- ===== src/Embeddings/Lengths.antt =====
-- The lengths of the vectors of engram/embeddings.py.
use long_term_memory_agent.Base.{
  ◌≡◌, refl, ap, ◌∙◌, ℕ, zero, suc, String, ◌&&◌, List, [], ◌∷◌, map, length, Bool-cases, inl, inr,
}
use long_term_memory_agent.Env.{Env}
use long_term_memory_agent.Embeddings.{
  Vector, zeros, add_at, set_first, add_feature, add_features, normalised, hash_embed, features,
}

module _ ⦃env : Env⦄ where
  pub length-zeros : (n : ℕ) → length (zeros n) ≡ n
  length-zeros zero = refl
  length-zeros (suc n) = ap suc (length-zeros n)

  length-add_at :
      (slot : ℕ) (x : env.Float) (vec : Vector) → length (add_at slot x vec) ≡ length vec
  length-add_at slot x [] = refl
  length-add_at zero x (v ∷ vs) = refl
  length-add_at (suc slot) x (v ∷ vs) = ap suc (length-add_at slot x vs)

  length-add_features :
      (k : ℕ) (fs : List (String × env.Float)) (vec : Vector)
      → length (add_features k fs vec) ≡ length vec
  unfolding add_features add_feature
  length-add_features k [] vec = refl
  length-add_features k (f ∷ fs) vec =
      length-add_features k fs (add_feature k f vec) ∙ length-add_at _ _ vec

  length-map : (f : env.Float → env.Float) (vec : Vector) → length (map f vec) ≡ length vec
  length-map f [] = refl
  length-map f (v ∷ vs) = ap suc (length-map f vs)

  length-set_first : (vec : Vector) → length (set_first vec) ≡ length vec
  length-set_first [] = refl
  length-set_first (v ∷ vs) = refl

  length-normalised : (vec : Vector) → length (normalised vec) ≡ length vec
  unfolding normalised
  length-normalised vec =
      let norm = env.sqrt (env.sum (map (λ v. env.mul v v) vec)) in
      elim (Bool-cases (env.le norm env.zero && env.le env.zero norm)) [
        | inl e ↦ rw e (length-set_first vec)
        | inr e ↦ rw e (length-map _ vec)
      ]

  -- The hashing embedder gives every text a vector of its number of dimensions.
  pub length-hash_embed : (k : ℕ) (text : String) → length (hash_embed k text) ≡ suc k
  unfolding hash_embed
  length-hash_embed k text =
      length-normalised _ ∙ length-add_features k (features text) _ ∙ length-zeros (suc k)
