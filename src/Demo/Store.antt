-- ===== src/Demo/Store.antt =====
-- A store kept as the list of its writes, newest first.
use long_term_memory_agent.Base.{
  true, false, ℕ, zero, suc, ap₂, eq_refl, ◌≤◌, String, ◌≡◌, refl, sym, ap, ◌∙◌, Bool, Option, none,
  some, List, [], ◌∷◌, arith, map, All, take, drop, length, length-take-le, str_eq, eq_iff,
  if◌then◌else◌,
}
use long_term_memory_agent.Base.Dicts.{
  same_place, same_place-eq, Dict, Namespace, ns_eq, lookup, Distinct,
}
use long_term_memory_agent.Env.{Item, entry}

abbrev pub State : Type 0
State = List (Namespace × String × Dict ℕ)

abbrev pub get : State → Namespace → String → Option (Dict ℕ)
get [] a k = none
get ((b, j, v) ∷ s) a k = if same_place b j a k then some v else get s a k

abbrev pub put : State → Namespace → String → Dict ℕ → Bool → State
put s b j v index = (b, j, v) ∷ s

abbrev pub delete : State → Namespace → String → State
delete [] b j = []
delete ((a, k, v) ∷ s) b j =
    let rest = delete s b j in if same_place b j a k then rest else (a, k, v) ∷ rest

abbrev remove : String → List (String × Dict ℕ) → List (String × Dict ℕ)
remove k [] = []
remove k ((j, v) ∷ l) = let rest = remove k l in if str_eq j k then rest else (j, v) ∷ rest

abbrev pub listing : State → Namespace → List (String × Dict ℕ)
listing [] a = []
listing ((b, j, v) ∷ s) a = if ns_eq b a then (j, v) ∷ remove j (listing s a) else listing s a

abbrev item : String × Dict ℕ → Item ℕ
item (k, v) = record { key = k; value = v; score = none }

abbrev pub search : State → Namespace → Option String → ℕ → ℕ → List (Item ℕ)
search s a query limit offset = map item (take limit (drop offset (listing s a)))

pub get_put :
    (s : State) (b : Namespace) (j : String) (v : Dict ℕ) (index : Bool) (a : Namespace)
    (k : String)
    → get (put s b j v index) a k ≡ (if same_place b j a k then some v else get s a k)
get_put s b j v index a k = refl

same_place_left :
    (b c a : Namespace) (j i k : String)
    → same_place b j c i ≡ true
    → same_place c i a k ≡ same_place b j a k
same_place_left b c a j i k h =
    let (e, f) = same_place-eq b c j i h in ap₂ (λ x y. same_place x y a k) (sym e) (sym f)

same_place_right :
    (b c a : Namespace) (j i k : String)
    → same_place c i a k ≡ true
    → same_place b j c i ≡ same_place b j a k
same_place_right b c a j i k h =
    let (e, f) = same_place-eq c a i k h in ap₂ (λ x y. same_place b j x y) e f

get_if :
    (p : Bool) (e : Namespace × String × Dict ℕ) (s : State) (a : Namespace) (k : String)
    → get (if p then s else e ∷ s) a k
      ≡ (if p then get s a k else if same_place e.0 e.1 a k then some e.2 else get s a k)
get_if true e s a k = refl
get_if false e s a k = refl

delete_step :
    (p q r : Bool) (v : Dict ℕ) (old new : Option (Dict ℕ))
    → new ≡ (if q then none else old)
    → (p ≡ true → r ≡ q)
    → (r ≡ true → p ≡ q)
    → (if p then new else if r then some v else new)
      ≡ (if q then none else if r then some v else old)
delete_step true q r v old new e h k = rw (h refl, e) (pick q)
  where
    pick : (q : Bool) → (if q then none else old) ≡ (if q then none else if q then some v else old)
    pick true = refl
    pick false = refl
delete_step false q true v old new e h k = rw (← k refl)
delete_step false q false v old new e h k = e

pub get_delete :
    (s : State) (b : Namespace) (j : String) (a : Namespace) (k : String)
    → get (delete s b j) a k ≡ (if same_place b j a k then none else get s a k)
get_delete [] b j a k = none_both (same_place b j a k)
  where
    none_both : (q : Bool) → ◌≡◌ {A = Option (Dict ℕ)} none (if q then none else none)
    none_both true = refl
    none_both false = refl
get_delete ((c, i, v) ∷ s) b j a k =
    get_if (same_place b j c i) (c, i, v) (delete s b j) a k
    ∙ delete_step (same_place b j c i) (same_place b j a k) (same_place c i a k) v (get s a k) _
        (get_delete s b j a k) (same_place_left b c a j i k) (same_place_right b c a j i k)

lookup-remove :
    (j k : String) (l : List (String × Dict ℕ))
    → lookup k (remove j l) ≡ (if str_eq j k then none else lookup k l)
lookup-remove j k [] = ground arith
lookup-remove j k ((i, v) ∷ l) =
    ground (arith, lookup-remove j k l, eq_iff i j, eq_iff i k, eq_iff j k)

remove-Distinct : (j : String) (l : List (String × Dict ℕ)) → Distinct l → Distinct (remove j l)
remove-Distinct j [] h = tt
remove-Distinct j ((i, v) ∷ l) h =
    ground (arith, lookup-remove j i l, remove-Distinct j l h.1, eq_iff i j)

pub lookup_listing : (s : State) (a : Namespace) (k : String) → lookup k (listing s a) ≡ get s a k
lookup_listing [] a k = refl
lookup_listing ((b, j, v) ∷ s) a k =
    ground (arith, lookup_listing s a k, lookup-remove j k (listing s a), eq_iff j k)

Distinct-if :
    (p : Bool) (j : String) (v : Dict ℕ) (l : List (String × Dict ℕ))
    → Distinct l
    → Distinct (if p then (j, v) ∷ remove j l else l)
Distinct-if true j v l d = (lookup-remove j j l ∙ rw (eq_refl j), remove-Distinct j l d)
Distinct-if false j v l d = d

pub listing-Distinct : (s : State) (a : Namespace) → Distinct (listing s a)
listing-Distinct [] a = tt
listing-Distinct ((b, j, v) ∷ s) a =
    Distinct-if (ns_eq b a) j v (listing s a) (listing-Distinct s a)

entries_of_items : (l : List (String × Dict ℕ)) → map entry (map item l) ≡ l
entries_of_items [] = refl
entries_of_items ((k, v) ∷ l) = ap (◌∷◌ (k, v)) (entries_of_items l)

pub search_page :
    (s : State) (a : Namespace) (limit offset : ℕ)
    → map entry (search s a none limit offset) ≡ take limit (drop offset (listing s a))
search_page s a limit offset = entries_of_items _

module _ (P : String × Dict ℕ → Type 0) where
  All-take : (n : ℕ) (l : List (String × Dict ℕ)) → All P l → All P (take n l)
  All-take zero l h = tt
  All-take (suc n) [] h = tt
  All-take (suc n) (x ∷ l) h = (h.0, All-take n l h.1)

  All-drop : (n : ℕ) (l : List (String × Dict ℕ)) → All P l → All P (drop n l)
  All-drop zero l h = h
  All-drop (suc n) [] h = tt
  All-drop (suc n) (x ∷ l) h = All-drop n l h.1

All-items :
    (g : String → Option (Dict ℕ)) (l : List (String × Dict ℕ))
    → All (λ e. g e.0 ≡ some e.1) l
    → All (λ i. g i.key ≡ some i.value) (map item l)
All-items g [] h = tt
All-items g ((k, v) ∷ l) h = (h.0, All-items g l h.1)

-- What a list with distinct keys holds is found under its key, also behind other entries.
found :
    (g : String → Option (Dict ℕ)) (l : List (String × Dict ℕ))
    → Distinct l
    → ((k : String) (v : Dict ℕ) → lookup k l ≡ some v → g k ≡ some v)
    → All (λ e. g e.0 ≡ some e.1) l
found g [] d h = tt
found g ((k, v) ∷ l) d h = (
  h k v (ground (arith, eq_iff k k)),
  found g l d.1 (λ j w e. h j w (ground (arith, eq_iff k j))),
)

pub search_stored :
    (s : State) (a : Namespace) (query : Option String) (limit offset : ℕ)
    → All (λ i. get s a i.key ≡ some i.value) (search s a query limit offset)
search_stored s a query limit offset = All-items (get s a) _ (
    All-take _ limit _ (
      All-drop _ offset _ (
        found (get s a) (listing s a) (listing-Distinct s a)
          (λ k v e. sym (lookup_listing s a k) ∙ e))))

length-items : (l : List (String × Dict ℕ)) → length (map item l) ≡ length l
length-items [] = refl
length-items (x ∷ l) = ap suc (length-items l)

pub search_limit :
    (s : State) (a : Namespace) (query : Option String) (limit offset : ℕ)
    → length (search s a query limit offset) ≤ limit
search_limit s a query limit offset =
    rw length-items (length-take-le limit (drop offset (listing s a)))

listing_if :
    (p q : Bool) (e : String × Dict ℕ) (b : Namespace) (s : State) (a : Namespace)
    → ns_eq b a ≡ q
    → (p ≡ true → q ≡ false)
    → listing (if p then s else (b, e.0, e.1) ∷ s) a
      ≡ (if q then (e.0, e.1) ∷ remove e.0 (listing s a) else listing s a)
listing_if true q e b s a h k = rw (k refl)
listing_if false q e b s a h k = rw h

pub listing_delete :
    (s : State) (b : Namespace) (j : String) (a : Namespace)
    → ns_eq b a ≡ false
    → listing (delete s b j) a ≡ listing s a
listing_delete [] b j a h = refl
listing_delete ((c, i, v) ∷ s) b j a h =
    listing_if (same_place b j c i) (ns_eq c a) (i, v) c (delete s b j) a refl
      (λ e. ap (λ n. ns_eq n a) (sym (same_place-eq b c j i e).0) ∙ h)
    ∙ ap (λ (l : List (String × Dict ℕ)). if ns_eq c a then (i, v) ∷ remove i l else l)
        (listing_delete s b j a h)
