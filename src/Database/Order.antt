-- ===== src/Database/Order.antt =====
-- ORDER BY, and OFFSET with LIMIT. An order is a Boolean test that says which of two rows is listed
-- first.
use music_online_go.Prelude.{
  false, inr, ◌⊎◌, All-map, ◌≤◌, Bool-cases, true, All, inl, ◌*◌, ◌-◌, refl, arith, drop, ◌∙◌, [],
  if◌then◌else◌, ◌∷◌, take, ◌≡◌, List, Bool, ℕ,
}
use music_online_go.Database.Table.{count_rows}

module _ {R : Type 0} where
  unfoldable pub put : (R → R → Bool) → R → List R → List R
  put before r [] = r ∷ []
  put before r (s ∷ rs) = let rest = put before r rs in if before r s then r ∷ s ∷ rs else s ∷ rest

  unfoldable pub order_by : (R → R → Bool) → List R → List R
  unfolding put
  order_by before [] = []
  order_by before (r ∷ rs) = put before r (order_by before rs)

  -- OFFSET (page - 1) * page_size LIMIT page_size
  unfoldable pub page_of : ℕ → ℕ → List R → List R
  page_of page page_size rs = take page_size (drop ((page - 1) * page_size) rs)

  put-count_rows :
      (before : R → R → Bool) (p : R → Bool) (r : R) (rs : List R)
      → count_rows p (put before r rs) ≡ count_rows p (r ∷ rs)
  unfolding count_rows put
  put-count_rows before p r [] = refl
  put-count_rows before p r (s ∷ rs) = ground (arith, put-count_rows before p r rs)

  -- Sorting keeps how many rows fit a test.
  pub order_by-count_rows :
      (before : R → R → Bool) (p : R → Bool) (rs : List R)
      → count_rows p (order_by before rs) ≡ count_rows p rs
  unfolding count_rows order_by
  order_by-count_rows before p [] = refl
  order_by-count_rows before p (r ∷ rs) =
      put-count_rows before p r (order_by before rs)
      ∙ ground (arith, order_by-count_rows before p rs)

  All-put :
      (P : R → Type 0) (before : R → R → Bool) (r : R) (rs : List R)
      → P r
      → All P rs
      → All P (put before r rs)
  unfolding put
  All-put P before r [] v h = (v, tt)
  All-put P before r (s ∷ rs) v h = elim (Bool-cases (before r s)) [
    | inl e ↦ rw (e) ((v, h))
    | inr e ↦ rw (e) ((h.0, All-put P before r rs v h.1))
  ]

  -- Sorting keeps a property of all rows.
  pub All-order_by :
      (P : R → Type 0) (before : R → R → Bool) (rs : List R) → All P rs → All P (order_by before rs)
  unfolding order_by
  All-order_by P before [] h = tt
  All-order_by P before (r ∷ rs) h =
      All-put P before r (order_by before rs) h.0 (All-order_by P before rs h.1)

  -- Sorted by a key, equal keys in any order.
  abbrev pub IsSorted : (R → ℕ) → List R → Type 0
  IsSorted key [] = Unit
  IsSorted key (r ∷ rs) = All (λ s. key r ≤ key s) rs × IsSorted key rs

  module _ (key : R → ℕ) (before : R → R → Bool) where
    -- The order goes by the key first.
    abbrev pub IsBy : Type 0
    IsBy =
        (r s : R)
        → ((before r s ≡ true) × (key r ≤ key s)) ⊎ ((before r s ≡ false) × (key s ≤ key r))

    put-IsSorted : IsBy → (r : R) (rs : List R) → IsSorted key rs → IsSorted key (put before r rs)
    unfolding put
    put-IsSorted by r [] h = (tt, tt)
    put-IsSorted by r (s ∷ rs) h = elim (by r s) [
      | inl b ↦ rw (b.0) (((b.1, All-map (λ t g. omega (arith, b.1, g)) rs h.0), h))
      | inr b ↦
          rw (b.0) ((All-put (λ t. key s ≤ key t) before r rs b.1 h.0, put-IsSorted by r rs h.1))
    ]

    -- ORDER BY lists by rising keys.
    pub order_by-IsSorted : IsBy → (rs : List R) → IsSorted key (order_by before rs)
    unfolding order_by
    order_by-IsSorted by [] = tt
    order_by-IsSorted by (r ∷ rs) = put-IsSorted by r (order_by before rs) (order_by-IsSorted by rs)
