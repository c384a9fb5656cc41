-- ===== src/Base/Dicts.antt =====
-- Python's `dict` with string keys, as an association list in the order of insertion, and the
-- values of a JSON document as far as the program writes them.
use long_term_memory_agent.Base.{
  true, false, true, String, ◌≡◌, refl, Bool, ◌&&◌, Option, none, some, List, [], ◌∷◌, arith,
  str_eq, eq_iff, if◌then◌else◌,
}

pub data Json (Float : Type 0) : Type 0 where
  null : Json Float
  num : Float → Json Float
  str : String → Json Float
  strs : List String → Json Float

module _ {ℓ} {V : Type ℓ} where
  -- `d.get(k)`
  abbrev pub lookup : String → List (String × V) → Option V
  lookup k [] = none
  lookup k ((j, v) ∷ d) = if str_eq j k then some v else lookup k d

  -- `d[k] = v`
  abbrev pub insert : String → V → List (String × V) → List (String × V)
  insert k v [] = (k, v) ∷ []
  insert k v ((j, w) ∷ d) = if str_eq j k then (j, v) ∷ d else (j, w) ∷ insert k v d

  pub lookup-insert :
      (k j : String) (v : V) (d : List (String × V))
      → lookup j (insert k v d) ≡ (if str_eq k j then some v else lookup j d)
  lookup-insert k j v [] = refl
  lookup-insert k j v ((i, w) ∷ d) =
      ground (arith, eq_iff k j, eq_iff i k, eq_iff i j, lookup-insert k j v d)

  -- No key stands twice.
  abbrev pub Distinct : List (String × V) → Type ℓ
  Distinct [] = Unit
  Distinct ((k, v) ∷ d) = (lookup k d ≡ none) × Distinct d

abbrev pub Dict : Type 0 → Type 0
Dict Float = List (String × Json Float)

-- The namespaces of the program are pairs: what is stored, and whose it is.
abbrev pub Namespace : Type 0
Namespace = String × String

abbrev pub ns_eq : Namespace → Namespace → Bool
ns_eq a b = str_eq a.0 b.0 && str_eq a.1 b.1

-- The key `k` of one namespace is the key `j` of another.
abbrev pub same_place : Namespace → String → Namespace → String → Bool
same_place a k b j = ns_eq a b && str_eq k j

and_true : (p q : Bool) → (p && q) ≡ true → (p ≡ true) × (q ≡ true)
and_true true q e = (refl, e)
and_true false q e = cc

pub same_place-eq : (b a : Namespace) (j k : String) → same_place b j a k ≡ true → (b ≡ a) × (j ≡ k)
same_place-eq b a j k h =
    let (first, second) = and_true _ _ h in
    let (root, owner) = and_true _ _ first in
    (pair_eq b a ((eq_iff _ _).0 root) ((eq_iff _ _).0 owner), (eq_iff _ _).0 second)
  where
    pair_eq : (x y : Namespace) → x.0 ≡ y.0 → x.1 ≡ y.1 → x ≡ y
    pair_eq x y e f = λ n. (e n, f n)
