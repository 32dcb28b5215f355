-- ===== src/Rows.antt =====
-- Laws of the queries and updates on tables.
use saps_case_dockets.Prelude.{
  ◌≡◌, ◌≢◌, refl, Bool, true, false, ◌||◌, Option, none, some, List, [], ◌∷◌, ◌++◌, arith,
  if◌then◌else◌, first_where, exists_where, update_where,
}

pub false-true : false ≢ true
false-true h = ground arith

rest_true : (b c : Bool) → (b || c) ≡ true → b ≡ false → c ≡ true
rest_true b c h e = ground arith

found_in {ℓ} :
    {A : Type ℓ} (b : Bool) (x : A) (rest : Option A)
    → (b ≡ false → (y : A) × (rest ≡ some y))
    → (y : A) × ((if b then some x else rest) ≡ some y)
found_in true x rest f = (x, refl)
found_in false x rest f = f refl

module _ {ℓ} {A : Type ℓ} where
  -- what a query returns satisfies its condition
  pub first_where_sound :
      (p : A → Bool) (xs : List A) {x : A} → first_where p xs ≡ some x → p x ≡ true
  unfolding first_where
  first_where_sound p [] h = cc
  first_where_sound p (y ∷ ys) {x} h = ground (arith, first_where_sound p ys {x = x})

  pub exists_where-append :
      (p : A → Bool) (xs ys : List A)
      → exists_where p (xs ++ ys) ≡ (exists_where p xs || exists_where p ys)
  unfolding exists_where
  exists_where-append p [] ys = refl
  exists_where-append p (x ∷ xs) ys = ground (arith, exists_where-append p xs ys)

  pub first_where-append :
      (p : A → Bool) (xs : List A) (y : A)
      → exists_where p xs ≡ false
      → first_where p (xs ++ y ∷ []) ≡ (if p y then some y else none)
  unfolding first_where exists_where
  first_where-append p [] y h = refl
  first_where-append p (x ∷ xs) y h = ground (arith, first_where-append p xs y)

  pub first_where-append_some :
      (p : A → Bool) (xs ys : List A) {x : A}
      → first_where p xs ≡ some x
      → first_where p (xs ++ ys) ≡ some x
  unfolding first_where
  first_where-append_some p [] ys h = cc
  first_where-append_some p (y ∷ xs) ys {x} h =
      ground (arith, first_where-append_some p xs ys {x = x})

  pub first_where-none :
      (p : A → Bool) (xs : List A) → exists_where p xs ≡ false → first_where p xs ≡ none
  unfolding first_where exists_where
  first_where-none p [] h = refl
  first_where-none p (x ∷ xs) h = ground (arith, first_where-none p xs)

  -- an update that does not move a row in or out of the query
  pub first_where-update :
      (p q : A → Bool) (f : A → A)
      → ((a : A) → p (f a) ≡ p a)
      → (xs : List A)
      → first_where p (update_where q f xs)
        ≡ elim (first_where p xs) [ none ↦ none | some x ↦ some (if q x then f x else x) ]
  unfolding first_where update_where
  first_where-update p q f same [] = refl
  first_where-update p q f same (x ∷ xs) = ground (arith, first_where-update p q f same xs, same x)

  pub exists_where-update :
      (p q : A → Bool) (f : A → A)
      → ((a : A) → p (f a) ≡ p a)
      → (xs : List A) → exists_where p (update_where q f xs) ≡ exists_where p xs
  unfolding exists_where update_where
  exists_where-update p q f same [] = refl
  exists_where-update p q f same (x ∷ xs) =
      ground (arith, exists_where-update p q f same xs, same x)

  -- an update can only take rows out of the query
  pub exists_where-update_le :
      (p q : A → Bool) (f : A → A)
      → ((a : A) → p (f a) ≡ true → p a ≡ true)
      → (xs : List A) → exists_where p xs ≡ false
      → exists_where p (update_where q f xs) ≡ false
  unfolding exists_where update_where
  exists_where-update_le p q f same [] h = refl
  exists_where-update_le p q f same (x ∷ xs) h =
      ground (arith, exists_where-update_le p q f same xs, same x)

  -- where a row satisfies the condition, the query finds one
  pub first_where_found :
      (p : A → Bool) (xs : List A)
      → exists_where p xs ≡ true
      → (x : A) × (first_where p xs ≡ some x)
  unfolding first_where exists_where
  first_where_found p [] h = absurd (false-true h)
  first_where_found p (x ∷ xs) h =
      found_in (p x) x (first_where p xs) (λ e. first_where_found p xs (rest_true (p x) _ h e))

  -- a row that a query returns does not satisfy what no row satisfies
  pub first_where-unless :
      (p q : A → Bool) (xs : List A) {x : A}
      → exists_where p xs ≡ false
      → first_where q xs ≡ some x
      → p x ≡ false
  unfolding first_where exists_where
  first_where-unless p q [] h e = cc
  first_where-unless p q (y ∷ xs) {x} h e = ground (arith, first_where-unless p q xs {x = x})
