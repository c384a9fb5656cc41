-- ===== src/World/Laws.antt =====
-- What the calls of World.antt keep: one rule each, for invariants of methods.
use long_term_memory_agent.Base.{
  ℕ, String, ◌≡◌, ◌≢◌, Bool, false, Option, none, List, [], ◌∷◌, arith, str_eq,
}
use long_term_memory_agent.Base.Dicts.{same_place, Dict, Namespace}
use long_term_memory_agent.Env.{Env}
use long_term_memory_agent.Exec.Keeps.{Keeps, Keeps-pure, Keeps-bind}
use long_term_memory_agent.World.{
  World, Method, utcnow, uuid4, store_get, store_put, store_delete, store_search, delete_transcript,
  filter_each,
}

-- Another kind of namespace, and the namespace of another user, are other places.
pub outside_root :
    (b a : Namespace) (j k : String) → str_eq b.0 a.0 ≡ false → same_place b j a k ≡ false
outside_root b a j k e = ground arith

pub outside_user :
    (b a : Namespace) (j k : String) → str_eq b.1 a.1 ≡ false → same_place b j a k ≡ false
outside_user b a j k e = ground arith

module _ ⦃env : Env⦄ where
  -- The store holds `o` at a place.
  abbrev pub Holds : Namespace → String → Option (Dict env.Float) → World → Type 0
  Holds a k o w = env.get w.store a k ≡ o

  -- The store holds something at a place.
  abbrev pub Present : Namespace → String → World → Type 0
  Present a k w = env.get w.store a k ≢ none

  module _ (a : Namespace) (k : String) (o : Option (Dict env.Float)) where
    pub utcnow-Holds : Keeps (Holds a k o) utcnow
    unfolding utcnow
    utcnow-Holds = record { at = λ w h. h }

    pub uuid4-Holds : Keeps (Holds a k o) uuid4
    unfolding uuid4
    uuid4-Holds = record { at = λ w h. h }

    pub get-Holds : (b : Namespace) (j : String) → Keeps (Holds a k o) (store_get b j)
    unfolding store_get
    get-Holds b j = record { at = λ w h. h }

    pub search-Holds :
        (b : Namespace) (q : Option String) (limit offset : ℕ)
        → Keeps (Holds a k o) (store_search b q limit offset)
    unfolding store_search
    search-Holds b q limit offset = record { at = λ w h. h }

    pub transcript-Holds : (id : String) → Keeps (Holds a k o) (delete_transcript id)
    unfolding delete_transcript
    transcript-Holds id = record { at = λ w h. h }

    pub put-Holds :
        (b : Namespace) (j : String) (v : Dict env.Float) (index : Bool)
        → same_place b j a k ≡ false
        → Keeps (Holds a k o) (store_put b j v index)
    unfolding store_put
    put-Holds b j v index e = record { at = λ w h. rw (env.get_put, e) h }

    pub delete-Holds :
        (b : Namespace) (j : String)
        → same_place b j a k ≡ false
        → Keeps (Holds a k o) (store_delete b j)
    unfolding store_delete
    delete-Holds b j e = record { at = λ w h. rw (env.get_delete, e) h }

  module _ (a : Namespace) (k : String) where
    pub utcnow-Present : Keeps (Present a k) utcnow
    unfolding utcnow
    utcnow-Present = record { at = λ w h. h }

    pub uuid4-Present : Keeps (Present a k) uuid4
    unfolding uuid4
    uuid4-Present = record { at = λ w h. h }

    pub search-Present :
        (b : Namespace) (q : Option String) (limit offset : ℕ)
        → Keeps (Present a k) (store_search b q limit offset)
    unfolding store_search
    search-Present b q limit offset = record { at = λ w h. h }

    pub put-Present :
        (b : Namespace) (j : String) (v : Dict env.Float) (index : Bool)
        → Keeps (Present a k) (store_put b j v index)
    unfolding store_put
    put-Present b j v index = record {
      at = λ w h. ground (arith, env.get_put w.store b j v index a k);
    }

  module _ {A : Type 0} {P : World → Type 0} where
    pub Keeps-filter_each :
        (test : A → Method Bool) (xs : List A)
        → ((x : A) → Keeps P (test x))
        → Keeps P (filter_each test xs)
    unfolding filter_each
    Keeps-filter_each test [] kt = Keeps-pure []
    Keeps-filter_each test (x ∷ xs) kt = Keeps-bind (test x) _ (kt x) λ keep.
        Keeps-bind (filter_each test xs) _ (Keeps-filter_each test xs kt) λ rest. Keeps-pure _
