-- ===== src/Database/Table/Counts.antt =====
-- How many rows a statement leaves, and which rows a SELECT lists.
use music_online_go.Prelude.{
  inr, inl, [], Bool-cases, not, arith, All-map, none, ◌≤◌, ◌&&◌, ◌++◌, true, ◌∷◌, ◌+◌, false, All,
  List, ◌≡◌, ℕ, Bool, refl,
}
use music_online_go.Database.Table.{update_rows, delete_rows, first_by, count_rows, where_rows}

module _ {R : Type 0} where
  -- The rows that a SELECT lists fit, and have what all rows have.
  pub All-where_rows :
      (P : R → Type 0) (p : R → Bool) (rs : List R)
      → All P rs
      → All (λ r. P r × (p r ≡ true)) (where_rows p rs)
  unfolding where_rows
  All-where_rows P p [] h = tt
  All-where_rows P p (r ∷ rs) h = elim (Bool-cases (p r)) [
    | inl e ↦ rw (e) (((h.0, e), All-where_rows P p rs h.1))
    | inr e ↦ rw (e) (All-where_rows P p rs h.1)
  ]

  pub count_rows-where_rows :
      (p q : R → Bool) (rs : List R)
      → count_rows q (where_rows p rs) ≡ count_rows (λ r. p r && q r) rs
  unfolding count_rows where_rows
  count_rows-where_rows p q [] = refl
  count_rows-where_rows p q (r ∷ rs) = ground (arith, count_rows-where_rows p q rs)

  -- An UPDATE that keeps a test of rows keeps how many pass it.
  pub count_rows-update_rows :
      (p q : R → Bool) (f : R → R) (rs : List R)
      → ((r : R) → p (f r) ≡ p r)
      → count_rows p (update_rows q f rs) ≡ count_rows p rs
  unfolding count_rows update_rows
  count_rows-update_rows p q f [] h = refl
  count_rows-update_rows p q f (r ∷ rs) h = ground (arith, h r, count_rows-update_rows p q f rs h)

  -- A DELETE takes the rows that pass its test from every count.
  pub count_rows-delete_rows :
      (p q : R → Bool) (rs : List R)
      → count_rows p (delete_rows q rs) + count_rows (λ r. p r && q r) rs ≡ count_rows p rs
  unfolding count_rows delete_rows
  count_rows-delete_rows p q [] = refl
  count_rows-delete_rows p q (r ∷ rs) = ground (arith, count_rows-delete_rows p q rs)

  pub count_rows-append :
      (p : R → Bool) (rs ss : List R) → count_rows p (rs ++ ss) ≡ count_rows p rs + count_rows p ss
  unfolding count_rows
  count_rows-append p [] ss = omega arith
  count_rows-append p (r ∷ rs) ss = ground (arith, count_rows-append p rs ss)

  pub count_rows_zero :
      (p : R → Bool) (rs : List R) → All (λ r. p r ≡ false) rs → count_rows p rs ≡ 0
  unfolding count_rows
  count_rows_zero p [] h = refl
  count_rows_zero p (r ∷ rs) h = ground (arith, h.0, count_rows_zero p rs h.1)

  pub All-count_rows :
      (p : R → Bool) (rs : List R) → count_rows p rs ≡ 0 → All (λ r. p r ≡ false) rs
  unfolding count_rows
  All-count_rows p [] h = tt
  All-count_rows p (r ∷ rs) h = (ground arith, All-count_rows p rs (ground arith))

  -- Every row that fits its own test is counted by it.
  pub All-count_rows_self :
      (t : R → R → Bool) (rs : List R) → All (λ r. t r r ≡ true → 1 ≤ count_rows (t r) rs) rs
  unfolding count_rows
  All-count_rows_self t [] = tt
  All-count_rows_self t (r ∷ rs) =
      (λ e. ground (arith, e), All-map (λ s h e. ground (arith, h e)) rs (All-count_rows_self t rs))

  -- Rows outside a SELECT do not show in it, whatever happens to them.
  pub where_rows-update_rows :
      (p q : R → Bool) (f : R → R)
      → ((r : R) → q r ≡ true → (p r ≡ false) × (p (f r) ≡ false))
      → (rs : List R) → where_rows p (update_rows q f rs) ≡ where_rows p rs
  unfolding where_rows update_rows
  where_rows-update_rows p q f out [] = refl
  where_rows-update_rows p q f out (r ∷ rs) = elim (Bool-cases (q r)) [
    | inl e ↦ rw (e, (out r e).0, (out r e).1) (where_rows-update_rows p q f out rs)
    | inr e ↦ rw (e, where_rows-update_rows p q f out rs) refl
  ]

  pub where_rows-delete_rows :
      (p q : R → Bool)
      → ((r : R) → q r ≡ true → p r ≡ false)
      → (rs : List R) → where_rows p (delete_rows q rs) ≡ where_rows p rs
  unfolding where_rows delete_rows
  where_rows-delete_rows p q out [] = refl
  where_rows-delete_rows p q out (r ∷ rs) = elim (Bool-cases (q r)) [
    | inl e ↦ rw (e, out r e) (where_rows-delete_rows p q out rs)
    | inr e ↦ rw (e, where_rows-delete_rows p q out rs) refl
  ]

  pub where_rows-append :
      (p : R → Bool) (r : R)
      → p r ≡ false
      → (rs : List R) → where_rows p (rs ++ r ∷ []) ≡ where_rows p rs
  unfolding where_rows
  where_rows-append p r out [] = rw (out) refl
  where_rows-append p r out (s ∷ rs) = rw (where_rows-append p r out rs) refl

  pub first_by-All :
      (key : R → ℕ) (p : R → Bool) (rs : List R)
      → All (λ r. p r ≡ false) rs
      → first_by key p rs ≡ none
  unfolding first_by
  first_by-All key p [] h = refl
  first_by-All key p (r ∷ rs) h = rw (h.0) (first_by-All key p rs h.1)

  count_rows_split :
      (q t : R → Bool) (rs : List R)
      → count_rows (λ r. q r && t r) rs + count_rows (λ r. q r && not (t r)) rs ≡ count_rows q rs
  unfolding count_rows
  count_rows_split q t [] = refl
  count_rows_split q t (r ∷ rs) = ground (arith, count_rows_split q t rs)

  -- If at most one row fits, and a row fits and passes a test, then whatever row fits passes the test.
  pub All-count_rows_one :
      (q t : R → Bool) (rs : List R)
      → count_rows q rs ≤ 1
      → 1 ≤ count_rows (λ r. q r && t r) rs
      → All (λ r. q r ≡ true → (q r && t r) ≡ true) rs
  All-count_rows_one q t rs one some_row =
      All-map (λ r h e. ground (arith, h, e)) rs
        (All-count_rows (λ r. q r && not (t r)) rs
          (omega (arith, count_rows_split q t rs, one, some_row)))
