-- ===== src/Manager/Found.antt =====
-- What `_nearest` and `find?` pick from a list has the properties that all of it has.
use long_term_memory_agent.Base.{
  String, Bool, true, false, Option, none, some, List, [], ◌∷◌, All, str_eq, find?, if◌then◌else◌,
}
use long_term_memory_agent.Base.Dicts.{lookup, insert}
use long_term_memory_agent.Env.{Env, Item}
use long_term_memory_agent.Manager.Nearest.{live_from, live_items}
use long_term_memory_agent.Schemas.{Memory}

module _ {A : Type 0} (P : A → Type 0) where
  -- The property of what an option holds.
  abbrev pub Each : Option A → Type 0
  Each none = Unit
  Each (some a) = P a

  abbrev pub Values : List (String × A) → Type 0
  Values [] = Unit
  Values ((k, v) ∷ d) = P v × Values d

  pub Values-insert :
      (k : String) (v : A) (d : List (String × A)) → P v → Values d → Values (insert k v d)
  Values-insert k v [] h hs = (h, tt)
  Values-insert k v ((j, w) ∷ d) h hs = pick (str_eq j k) (Values-insert k v d h hs.1)
    where
      pick :
          (b : Bool)
          → Values (insert k v d)
          → Values (if b then (j, v) ∷ d else (j, w) ∷ insert k v d)
      pick true ih = (h, hs.1)
      pick false ih = (hs.0, ih)

  pub Each-lookup : (k : String) (d : List (String × A)) → Values d → Each (lookup k d)
  Each-lookup k [] hs = tt
  Each-lookup k ((j, v) ∷ d) hs = pick (str_eq j k) (Each-lookup k d hs.1)
    where
      pick : (b : Bool) → Each (lookup k d) → Each (if b then some v else lookup k d)
      pick true ih = hs.0
      pick false ih = ih

  pub Each-find : (p : A → Bool) (xs : List A) → All P xs → Each (find? p xs)
  Each-find p [] hs = tt
  Each-find p (x ∷ xs) hs = pick (p x) (Each-find p xs hs.1)
    where
      pick : (b : Bool) → Each (find? p xs) → Each (if b then some x else find? p xs)
      pick true ih = hs.0
      pick false ih = ih

  pub Each-if : (b : Bool) (x y : Option A) → Each x → Each y → Each (if b then x else y)
  Each-if true x y hx hy = hx
  Each-if false x y hx hy = hy

module _ ⦃env : Env⦄ (P : Memory env.Float → Type 0) where
  pub Values-live :
      (live : List (String × Memory env.Float)) (ms : List (Memory env.Float))
      → Values P live
      → All P ms
      → Values P (live_from live ms)
  unfolding live_from
  Values-live live [] hl hs = hl
  Values-live live (m ∷ ms) hl hs =
      Values-live (insert m.id m live) ms (Values-insert P m.id m live hs.0 hl) hs.1

  pub All-live :
      (live : List (String × Memory env.Float)) (is : List (Item env.Float))
      → Values P live
      → All P (live_items live is)
  unfolding live_items
  All-live live [] hl = tt
  All-live live (i ∷ is) hl =
      keep (lookup i.key live) (Each-lookup P i.key live hl) (All-live live is hl)
    where
      keep :
          (o : Option (Memory env.Float))
          → Each P o
          → All P (live_items live is)
          → All P (elim o [ none ↦ live_items live is | some m ↦ m ∷ live_items live is ])
      keep none h ih = ih
      keep (some m) h ih = (h, ih)
