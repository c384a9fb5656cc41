-- ===== src/Forget/Pages.antt =====
-- `_all_keys` reads every page: it returns the whole namespace, in order, and changes nothing.
use mathlib.Core.List.{append-nil, append_assoc}
use long_term_memory_agent.Base.{
  ap₂, length-append, ℕ, zero, suc, ◌+◌, ◌<◌, String, ◌≡◌, refl, sym, ap, ◌∙◌, none, List, [], ◌∷◌,
  ◌++◌, map, length, take, drop, arith,
}
use long_term_memory_agent.Base.Dicts.{Dict, Namespace}
use long_term_memory_agent.Env.{Env, Item, entry}
use long_term_memory_agent.Exec.{ok, pure, ◌>>=◌}
use long_term_memory_agent.Forget.{all_keys_from, all_keys, page_size}
use long_term_memory_agent.World.{World, Method, store_search}

module _ {A : Type 0} where
  drop-nil : (n : ℕ) → drop {A = A} n [] ≡ []
  drop-nil zero = refl
  drop-nil (suc n) = refl

  drop-drop : (n m : ℕ) (xs : List A) → drop (n + m) xs ≡ drop m (drop n xs)
  drop-drop zero m xs = ap (λ k. drop k xs) (zero_plus m)
    where
      zero_plus : (m : ℕ) → zero + m ≡ m
      zero_plus m = omega arith
  drop-drop (suc n) m [] = drop-nil (suc n + m) ∙ sym (drop-nil m)
  drop-drop (suc n) m (x ∷ xs) = ap (λ k. drop k (x ∷ xs)) (suc_plus n m) ∙ drop-drop n m xs
    where
      suc_plus : (n m : ℕ) → suc n + m ≡ suc (n + m)
      suc_plus n m = omega arith

  -- A page, and what is behind it.
  page-rest : (n : ℕ) (xs : List A) → take n xs ++ drop (length (take n xs)) xs ≡ xs
  page-rest zero xs = refl
  page-rest (suc n) [] = refl
  page-rest (suc n) (x ∷ xs) = ap (◌∷◌ x) (page-rest n xs)

  nothing_left : (n : ℕ) (xs : List A) → [] ≡ take (suc n) xs → xs ≡ []
  nothing_left n [] e = refl
  nothing_left n (x ∷ xs) e = cc

  length-page :
      (n : ℕ) (xs : List A) → length xs ≡ length (take n xs) + length (drop (length (take n xs)) xs)
  length-page n xs =
      sym (ap length (page-rest n xs)) ∙ length-append (take n xs) (drop (length (take n xs)) xs)

  pub length-map {κ} : {B : Type κ} (f : A → B) (xs : List A) → length (map f xs) ≡ length xs
  length-map f [] = refl
  length-map f (x ∷ xs) = ap suc (length-map f xs)

module _ ⦃env : Env⦄ (a : Namespace) (w : World) where
  abbrev all : List (String × Dict env.Float)
  all = env.listing w.store a

  -- A page that is not empty leaves less to read.
  less_left :
      (offset n : ℕ) (i : Item env.Float) (is : List (Item env.Float))
      → map entry (i ∷ is) ≡ take n (drop offset all)
      → (length (drop offset all) ≡ length (i ∷ is) + length (drop (offset + length (i ∷ is)) all))
        × (map entry (i ∷ is) ++ drop (offset + length (i ∷ is)) all ≡ drop offset all)
  less_left offset n i is e =
      let d = drop offset all in
      let k : length (i ∷ is) ≡ length (take n d) = sym (length-map entry (i ∷ is)) ∙ ap length e in
      let behind : drop (offset + length (i ∷ is)) all ≡ drop (length (take n d)) d =
        drop-drop offset (length (i ∷ is)) all ∙ ap (λ j. drop j d) k in
      (
        length-page n d
            ∙ ap₂ (λ x (y : List (String × Dict env.Float)). x + length y) (sym k) (sym behind),
        ap₂ (λ (x y : List (String × Dict env.Float)). x ++ y) e behind ∙ page-rest n d,
      )

  pages :
      (fuel offset : ℕ) (out : List (String × Dict env.Float))
      → length (drop offset all) < fuel
      → all_keys_from fuel a offset out w ≡ (ok (out ++ drop offset all), w)
  unfolding all_keys_from store_search ◌>>=◌
  pages zero offset out h = absurd (omega arith)
  pages (suc fuel) offset out h =
      page (env.search w.store a none page_size offset) (env.search_page w.store a page_size offset)
        (pages fuel)
    where
      page :
          (is : List (Item env.Float))
          → map entry is ≡ take page_size (drop offset all)
          → ((offset' : ℕ) (out' : List (String × Dict env.Float))
              → length (drop offset' all) < fuel
              → all_keys_from fuel a offset' out' w ≡ (ok (out' ++ drop offset' all), w))
          → (elim is as (λ _. Method (List (String × Dict env.Float))) [
            | [] ↦ pure out
            | j ∷ js ↦ all_keys_from fuel a (offset + length (j ∷ js)) (out ++ map entry (j ∷ js))
          ])
              w
            ≡ (ok (out ++ drop offset all), w)
      page [] e ih =
          ap (λ xs. (ok xs, w)) (sym (ap (λ xs. out ++ xs) (nothing_left 199 _ e) ∙ append-nil out))
      page (j ∷ js) e ih =
          let (less, kept) = less_left offset page_size j js e in
          ih (offset + length (j ∷ js)) (out ++ map entry (j ∷ js)) (omega arith)
          ∙ ap (λ xs. (ok xs, w)) (append_assoc out _ _ ∙ ap (λ xs. out ++ xs) kept)

  -- With fuel for each entry, the loop returns the namespace in the order of a search, and changes
  -- nothing.
  pub all_keys_lem : (fuel : ℕ) → length all < fuel → all_keys fuel a w ≡ (ok all, w)
  all_keys_lem fuel h = pages fuel 0 [] h
