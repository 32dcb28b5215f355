-- ===== src/Listings/Pages.antt =====
-- The order and the pages of a list.
use saps_case_dockets.Prelude.{
  ℕ, zero, suc, ◌+◌, ◌-◌, leb, ◌≡◌, refl, ap, subst, sym, ◌∙◌, Bool, true, false, List, [], ◌∷◌,
  ◌++◌, if◌then◌else◌, length, rows_where, arith,
}
use saps_case_dockets.Listings.{before, insert_by, ordered, take, drop, page}

-- the smaller of two numbers
abbrev pub lesser : ℕ → ℕ → ℕ
lesser m n = if leb m n then m else n

module _ {ℓ} {A : Type ℓ} where
  take-drop : (n : ℕ) (xs : List A) → (take n xs ++ drop n xs) ≡ xs
  take-drop zero xs = refl
  take-drop (suc n) [] = refl
  take-drop (suc n) (x ∷ xs) = ap (λ ys. x ∷ ys) (take-drop n xs)

  length-take : (n : ℕ) (xs : List A) → length (take n xs) ≡ lesser n (length xs)
  length-take zero xs = ground arith
  length-take (suc n) [] = ground arith
  length-take (suc n) (x ∷ xs) = ground (arith, length-take n xs)

  length-drop : (n : ℕ) (xs : List A) → length (drop n xs) ≡ length xs - n
  length-drop zero xs = ground arith
  length-drop (suc n) [] = ground arith
  length-drop (suc n) (x ∷ xs) = ground (arith, length-drop n xs)

-- Each row may follow the one before it.
abbrev pub IsOrdered {ℓ} : {A : Type ℓ} → (A → A → Bool) → List A → Type 0
IsOrdered r [] = Unit
IsOrdered r (x ∷ []) = Unit
IsOrdered r (x ∷ y ∷ ys) = (r x y ≡ true) × IsOrdered r (y ∷ ys)

before_total {ℓ} :
    {A : Type ℓ} (key : A → ℕ × ℕ) (a b : A) → before key a b ≡ false → before key b a ≡ true
before_total key a b h = grind arith

module _ {ℓ} {A : Type ℓ} (key : A → ℕ × ℕ) where
  -- the step of the insertion behind `y`, at the head `z` of the rest
  insert-IsOrdered_at :
      (y x z : A) (zs : List A) (first : Bool)
      → before key x y ≡ false
      → before key x z ≡ first
      → IsOrdered (before key) (y ∷ z ∷ zs)
      → (before key x z ≡ false → IsOrdered (before key) (z ∷ insert_by (before key) x zs))
      → IsOrdered (before key) (y ∷ (if first then x ∷ z ∷ zs else z ∷ insert_by (before key) x zs))
  insert-IsOrdered_at y x z zs true behind at o rest = (before_total key x y behind, (at, o.1))
  insert-IsOrdered_at y x z zs false behind at o rest = (o.0, rest at)

  insert-IsOrdered_behind :
      (y x : A) (ys : List A)
      → before key x y ≡ false
      → IsOrdered (before key) (y ∷ ys)
      → IsOrdered (before key) (y ∷ insert_by (before key) x ys)
  unfolding insert_by
  insert-IsOrdered_behind y x [] behind o = (before_total key x y behind, tt)
  insert-IsOrdered_behind y x (z ∷ zs) behind o =
      insert-IsOrdered_at y x z zs _ behind refl o λ later. insert-IsOrdered_behind z x zs later o.1

  insert-IsOrdered_first :
      (x y : A) (ys : List A) (first : Bool)
      → before key x y ≡ first
      → IsOrdered (before key) (y ∷ ys)
      → IsOrdered (before key) (if first then x ∷ y ∷ ys else y ∷ insert_by (before key) x ys)
  insert-IsOrdered_first x y ys true at o = (at, o)
  insert-IsOrdered_first x y ys false at o = insert-IsOrdered_behind y x ys at o

  insert-IsOrdered :
      (x : A) (ys : List A)
      → IsOrdered (before key) ys
      → IsOrdered (before key) (insert_by (before key) x ys)
  unfolding insert_by
  insert-IsOrdered x [] o = tt
  insert-IsOrdered x (y ∷ ys) o = insert-IsOrdered_first x y ys _ refl o

  ordered-IsOrdered : (xs : List A) → IsOrdered (before key) (ordered (before key) xs)
  unfolding ordered
  ordered-IsOrdered [] = tt
  ordered-IsOrdered (x ∷ xs) = insert-IsOrdered x _ (ordered-IsOrdered xs)

  count-insert :
      (p : A → Bool) (x : A) (ys : List A)
      → length (rows_where p (insert_by (before key) x ys)) ≡ length (rows_where p (x ∷ ys))
  unfolding insert_by rows_where
  count-insert p x [] = refl
  count-insert p x (y ∷ ys) = ground (arith, count-insert p x ys)

  count-ordered :
      (p : A → Bool) (xs : List A)
      → length (rows_where p (ordered (before key) xs)) ≡ length (rows_where p xs)
  unfolding ordered rows_where
  count-ordered p [] = refl
  count-ordered p (x ∷ xs) =
      ground (arith, count-ordered p xs, count-insert p x (ordered (before key) xs))

  length-insert : (x : A) (ys : List A) → length (insert_by (before key) x ys) ≡ length ys + 1
  unfolding insert_by
  length-insert x [] = ground arith
  length-insert x (y ∷ ys) = ground (arith, length-insert x ys)

  length-ordered : (xs : List A) → length (ordered (before key) xs) ≡ length xs
  unfolding ordered
  length-ordered [] = refl
  length-ordered (x ∷ xs) =
      ground (arith, length-ordered xs, length-insert x (ordered (before key) xs))

-- `ORDER BY ... LIMIT limit OFFSET offset` of the chosen rows of a table: with the rows that it skips
-- and those that it leaves, the page is the chosen rows in the order of the two columns.
pub record IsPage {ℓ} {A : Type ℓ} (key : A → ℕ × ℕ) (chosen : A → Bool) (limit offset : ℕ)
    (table out : List A) : Type ℓ where
  pub skipped : List A
  pub left_over : List A
  pub in_order : IsOrdered (before key) (skipped ++ (out ++ left_over))
  pub same_rows :
      (p : A → Bool)
      → length (rows_where p (skipped ++ (out ++ left_over)))
        ≡ length (rows_where p (rows_where chosen table))
  pub starts_at : length skipped ≡ lesser offset (length (rows_where chosen table))
  pub filled : length out ≡ lesser limit (length (rows_where chosen table) - offset)

pub page-IsPage {ℓ} :
    {A : Type ℓ} (key : A → ℕ × ℕ) (chosen : A → Bool) (limit offset : ℕ) (table : List A)
    → IsPage key chosen limit offset table
        (page limit offset (ordered (before key) (rows_where chosen table)))
unfolding page
page-IsPage key chosen limit offset table =
    let rows = ordered (before key) (rows_where chosen table) in
    let parts =
      ap (λ ys. take offset rows ++ ys) (take-drop limit (drop offset rows))
      ∙ take-drop offset rows in
    record {
      skipped = take offset rows;
      left_over = drop limit (drop offset rows);
      in_order =
          subst (IsOrdered (before key)) (sym parts)
            (ordered-IsOrdered key (rows_where chosen table));
      same_rows = λ p.
          ap (λ ys. length (rows_where p ys)) parts ∙ count-ordered key p (rows_where chosen table);
      starts_at =
          length-take offset rows
          ∙ ap (lesser offset) (length-ordered key (rows_where chosen table));
      filled =
          length-take limit (drop offset rows)
          ∙ ap (lesser limit) (
              length-drop offset rows
              ∙ ap (λ n. n - offset) (length-ordered key (rows_where chosen table)));
    }
