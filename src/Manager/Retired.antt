-- ===== src/Manager/Retired.antt =====
-- `_supersede` for every memory of a slot: what is left of the list, and what the store holds.
use long_term_memory_agent.Base.{
  eq_iff, suc, String, ◌≡◌, refl, sym, ◌∙◌, Bool, true, false, not, List, [], ◌∷◌, All, All-filter,
  filter, any, arith, str_eq, eq_refl, if◌then◌else◌,
}
use long_term_memory_agent.Base.Dicts.{Namespace, same_place}
use long_term_memory_agent.Env.{Env}
use long_term_memory_agent.Exec.{ok, pure, ◌>>=◌}
use long_term_memory_agent.Manager.Effects.{retire, retire_all, retired, without}
use long_term_memory_agent.Schemas.{Memory, namespace}
use long_term_memory_agent.Schemas.Values.{to_value}
use long_term_memory_agent.World.{World, utcnow, store_put}
use long_term_memory_agent.Write.{save}

module _ {A : Type 0} (P Q R : A → Type 0) where
  pub All-both : (xs : List A) → ((x : A) → P x → Q x → R x) → All P xs → All Q xs → All R xs
  All-both [] f hp hq = tt
  All-both (x ∷ xs) f hp hq = (f x hp.0 hq.0, All-both xs f hp.1 hq.1)

module _ {A : Type 0} (p : A → Bool) where
  pub filter-none : (xs : List A) → All (λ x. p x ≡ false) xs → filter p xs ≡ []
  filter-none [] h = refl
  filter-none (x ∷ xs) h = rw (h.0) (filter-none xs h.1)

  pub none-filter : (xs : List A) → filter p xs ≡ [] → All (λ x. p x ≡ false) xs
  none-filter [] e = tt
  none-filter (x ∷ xs) e = first (p x) refl e (none-filter xs)
    where
      first :
          (b : Bool)
          → p x ≡ b
          → (if b then x ∷ filter p xs else filter p xs) ≡ []
          → (filter p xs ≡ [] → All (λ y. p y ≡ false) xs)
          → All (λ y. p y ≡ false) (x ∷ xs)
      first true f g ih = absurd cc
      first false f g ih = (f, ih g)

  pub All-filtered : (xs : List A) → All (λ x. p x ≡ true) (filter p xs)
  All-filtered [] = tt
  All-filtered (x ∷ xs) = kept (p x) refl (All-filtered xs)
    where
      kept :
          (b : Bool)
          → p x ≡ b
          → All (λ y. p y ≡ true) (filter p xs)
          → All (λ y. p y ≡ true) (if b then x ∷ filter p xs else filter p xs)
      kept true e h = (e, h)
      kept false e h = h

module _ ⦃env : Env⦄ where
  -- A memory's id is one of these memories'.
  abbrev pub one_of : List (Memory env.Float) → String → Bool
  one_of ms id = any (λ m. str_eq id m.id) ms

  unfoldable pub remove_all :
      List (Memory env.Float) → List (Memory env.Float) → List (Memory env.Float)
  remove_all [] existing = existing
  remove_all (m ∷ ms) existing = remove_all ms (without m existing)

  unfoldable pub after_retire : List (Memory env.Float) → String → World → World
  after_retire [] id w = w
  after_retire (m ∷ ms) id w = after_retire ms id (record w {
    store = env.put w.store (namespace m) m.id (to_value (retired m id (env.now w.readings))) true;
    readings = suc w.readings;
  })

  pub retire_all_run :
      (ms existing : List (Memory env.Float)) (id : String) (w : World)
      → retire_all ms id existing w ≡ (ok (remove_all ms existing), after_retire ms id w)
  unfolding retire_all retire remove_all after_retire save store_put utcnow pure ◌>>=◌
  retire_all_run [] existing id w = refl
  retire_all_run (m ∷ ms) existing id w = retire_all_run ms (without m existing) id _

  pub remove_all-All :
      (P : Memory env.Float → Type 0) (ms existing : List (Memory env.Float))
      → All P existing
      → All P (remove_all ms existing)
  unfolding remove_all without
  remove_all-All P [] existing h = h
  remove_all-All P (m ∷ ms) existing h = remove_all-All P ms _ (All-filter P _ existing h)

  -- No memory that was removed is left.
  remove_all-gone :
      (ms existing : List (Memory env.Float))
      → All (λ m. one_of ms m.id ≡ false) (remove_all ms existing)
  unfolding remove_all without
  remove_all-gone [] existing = each existing
    where
      each : (xs : List (Memory env.Float)) → All (λ m. one_of [] m.id ≡ false) xs
      each [] = tt
      each (x ∷ xs) = (refl, each xs)
  remove_all-gone (m ∷ ms) existing =
      All-both (λ x. not (str_eq x.id m.id) ≡ true) (λ x. one_of ms x.id ≡ false) _
        (remove_all ms _) (λ x e f. ground arith)
        (remove_all-All _ ms _ (All-filtered (λ x. not (str_eq x.id m.id)) existing))
        (remove_all-gone ms (without m existing))

  -- A memory that passes a test is one of those that pass it.
  selected :
      (p : Memory env.Float → Bool) (ms : List (Memory env.Float))
      → All (λ m. p m ≡ true → one_of (filter p ms) m.id ≡ true) ms
  selected p [] = tt
  selected p (m ∷ ms) = at_head (p m) refl (selected p ms)
    where
      wider :
          (xs : List (Memory env.Float))
          → All (λ x. p x ≡ true → one_of (filter p ms) x.id ≡ true) xs
          → All (λ x. p x ≡ true → one_of (m ∷ filter p ms) x.id ≡ true) xs
      wider [] h = tt
      wider (x ∷ xs) h = (λ yes. ground (arith, h.0 yes), wider xs h.1)

      at_head :
          (b : Bool)
          → p m ≡ b
          → All (λ x. p x ≡ true → one_of (filter p ms) x.id ≡ true) ms
          → All
              (λ x. p x ≡ true → one_of (if b then m ∷ filter p ms else filter p ms) x.id ≡ true)
              (m ∷ ms)
      at_head true e h = (λ _. rw (eq_refl m.id), wider ms h)
      at_head false e h = (λ yes. absurd cc, h)

  -- Once all that pass a test are removed, nothing that is left passes it.
  pub remove_all-clear :
      (p : Memory env.Float → Bool) (ms : List (Memory env.Float))
      → All (λ m. p m ≡ false) (remove_all (filter p ms) ms)
  remove_all-clear p ms =
      All-both (λ m. one_of (filter p ms) m.id ≡ false)
        (λ m. p m ≡ true → one_of (filter p ms) m.id ≡ true) _ _
        (λ m gone yes. neither (p m) (λ e. yes e) gone) (remove_all-gone (filter p ms) ms)
        (remove_all-All _ (filter p ms) ms (selected p ms))
    where
      neither : {q : Bool} (b : Bool) → (b ≡ true → q ≡ true) → q ≡ false → b ≡ false
      neither true f g = sym (f refl) ∙ g
      neither false f g = refl

  pub remove_all-filter :
      (p : Memory env.Float → Bool) (ms : List (Memory env.Float))
      → filter p (remove_all (filter p ms) ms) ≡ []
  remove_all-filter p ms = filter-none p (remove_all (filter p ms) ms) (remove_all-clear p ms)

  pub same_place_refl : (a : Namespace) (k : String) → same_place a k a k ≡ true
  same_place_refl a k = rw (eq_refl a.0, eq_refl a.1, eq_refl k)

  -- Nothing else changes.
  pub after_retire-get :
      (ms : List (Memory env.Float)) (id : String) (w : World) (a : Namespace) (k : String)
      → one_of ms k ≡ false
      → env.get (after_retire ms id w).store a k ≡ env.get w.store a k
  unfolding after_retire
  after_retire-get [] id w a k h = refl
  after_retire-get (m ∷ ms) id w a k h =
      after_retire-get ms id _ a k (ground arith) ∙ rw (env.get_put, elsewhere) refl
    where
      elsewhere : same_place (namespace m) m.id a k ≡ false
      elsewhere = ground (arith, eq_iff k m.id, eq_iff m.id k)

  -- No identifier is drawn.
  pub after_retire-drawn :
      (ms : List (Memory env.Float)) (id : String) (w : World)
      → (after_retire ms id w).drawn ≡ w.drawn
  unfolding after_retire
  after_retire-drawn [] id w = refl
  after_retire-drawn (m ∷ ms) id w = after_retire-drawn ms id _
