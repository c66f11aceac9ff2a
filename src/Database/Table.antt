-- ===== src/Database/Table.antt =====
-- A table is the list of its rows in insertion order; these are the statements on one table.
pub mod Counts
use mathlib.Core.Bool.{false≢true}
use mathlib.Core.Path.{subst}
use music_online_go.Prelude.{
  not, ◌+◌, ◌&&◌, ◌++◌, ◌⊎◌, ap, inr, ◌∙◌, sym, All-map, Bool-cases, inl, Option-cases, ◌≤◌, ℕ, suc,
  ◌≡◌, refl, Bool, true, false, Option, none, some, List, [], ◌∷◌, arith, if◌then◌else◌, leb, All,
}

module _ {R : Type 0} where
  -- SELECT ... WHERE p
  unfoldable pub where_rows : (R → Bool) → List R → List R
  where_rows p [] = []
  where_rows p (r ∷ rs) = let rest = where_rows p rs in if p r then r ∷ rest else rest

  -- SELECT COUNT(*) ... WHERE p
  unfoldable pub count_rows : (R → Bool) → List R → ℕ
  count_rows p [] = 0
  count_rows p (r ∷ rs) = let rest = count_rows p rs in if p r then suc rest else rest

  -- SELECT ... WHERE p LIMIT 1, in the order of the rows
  unfoldable pub find_row : (R → Bool) → List R → Option R
  find_row p [] = none
  find_row p (r ∷ rs) = if p r then some r else find_row p rs

  -- UPDATE ... SET f WHERE p
  unfoldable pub update_rows : (R → Bool) → (R → R) → List R → List R
  update_rows p f [] = []
  update_rows p f (r ∷ rs) = (if p r then f r else r) ∷ update_rows p f rs

  -- DELETE ... WHERE p
  unfoldable pub delete_rows : (R → Bool) → List R → List R
  delete_rows p [] = []
  delete_rows p (r ∷ rs) = let rest = delete_rows p rs in if p r then rest else r ∷ rest

  -- No row fits exactly if the count is 0.
  pub find_row-count_rows :
      (p : R → Bool) (rs : List R) → count_rows p rs ≡ 0 → find_row p rs ≡ none
  unfolding count_rows find_row
  find_row-count_rows p [] h = refl
  find_row-count_rows p (r ∷ rs) h = ground (arith, find_row-count_rows p rs)

  -- An UPDATE that fits no row changes nothing.
  pub update_rows-count_rows :
      (p : R → Bool) (f : R → R) (rs : List R) → count_rows p rs ≡ 0 → update_rows p f rs ≡ rs
  unfolding count_rows update_rows
  update_rows-count_rows p f [] h = refl
  update_rows-count_rows p f (r ∷ rs) h = ground (arith, update_rows-count_rows p f rs)

  -- An UPDATE keeps a property of all rows that its SET clause keeps.
  pub All-update_rows :
      (P : R → Type 0) (p : R → Bool) (f : R → R)
      → ((r : R) → P r → p r ≡ true → P (f r))
      → (rs : List R) → All P rs
      → All P (update_rows p f rs)
  unfolding update_rows
  All-update_rows P p f keep [] h = tt
  All-update_rows P p f keep (r ∷ rs) h = (at (p r) refl, All-update_rows P p f keep rs h.1)
    where
      at : (b : Bool) → p r ≡ b → P (if b then f r else r)
      at true e = keep r h.0 e
      at false e = h.0

  -- SELECT ... WHERE p ORDER BY key LIMIT 1
  pub least : (R → ℕ) → R → Option R → R
  least key r none = r
  least key r (some s) = if leb (key r) (key s) then r else s

  unfoldable pub first_by : (R → ℕ) → (R → Bool) → List R → Option R
  unfolding least
  first_by key p [] = none
  first_by key p (r ∷ rs) =
      let rest = first_by key p rs in if p r then some (least key r rest) else rest

  first_by-none :
      (key : R → ℕ) (p : R → Bool) (rs : List R)
      → first_by key p rs ≡ none
      → All (λ s. p s ≡ false) rs
  unfolding first_by
  first_by-none key p [] e = tt
  first_by-none key p (r ∷ rs) e = (ground arith, first_by-none key p rs (ground arith))

  -- ORDER BY key LIMIT 1 gives a row that fits, and no row that fits has a smaller key.
  pub first_by_lem :
      (key : R → ℕ) (p : R → Bool) (rs : List R) {r : R}
      → first_by key p rs ≡ some r
      → (p r ≡ true) × All (λ s. p s ≡ true → key r ≤ key s) rs
  unfolding first_by
  first_by_lem key p [] e = absurd (cc)
  first_by_lem key p (x ∷ rs) {r} e = elim (Option-cases (first_by key p rs)) [
    | inl n ↦ elim (Bool-cases (p x)) [
      | inl t ↦
          let same : x ≡ r = ground arith in
          (
            rw (← same) t,
            (
              (λ _. omega (arith, ap key same)),
              All-map (λ s f g. absurd (false≢true (sym f ∙ g))) rs (first_by-none key p rs n),
            ),
          )
      | inr f ↦ absurd (ground arith)
    ]
    | inr (s, q) ↦
        let rec = first_by_lem key p rs q in
        (ground arith, (ground arith, All-map (λ y g h. ground (arith, g h)) rs rec.1))
  ]

  first_by-cases :
      (key : R → ℕ) (p : R → Bool) (x : R) (rs : List R) (s : R) {r : R}
      → first_by key p rs ≡ some s
      → first_by key p (x ∷ rs) ≡ some r
      → (x ≡ r) ⊎ (s ≡ r)
  unfolding first_by
  first_by-cases key p x rs s q e = ground arith

  -- A row that is found is a row of the table.
  pub All-first_by :
      (P : R → Type 0) (key : R → ℕ) (p : R → Bool) (rs : List R) {r : R}
      → All P rs
      → first_by key p rs ≡ some r
      → P r
  unfolding first_by
  All-first_by P key p [] h e = absurd (cc)
  All-first_by P key p (x ∷ rs) {r} h e = elim (Option-cases (first_by key p rs)) [
    | inl n ↦ subst P (ground arith) h.0
    | inr (s, q) ↦ elim (first_by-cases key p x rs s q e) [
      | inl same ↦ subst P same h.0
      | inr same ↦ subst P same (All-first_by P key p rs h.1 q)
    ]
  ]

  -- An UPDATE row by row.
  pub All-update_rows_if :
      (P Q : R → Type 0) (p : R → Bool) (f : R → R)
      → ((r : R) → P r → Q (if p r then f r else r))
      → (rs : List R) → All P rs
      → All Q (update_rows p f rs)
  unfolding update_rows
  All-update_rows_if P Q p f each [] h = tt
  All-update_rows_if P Q p f each (r ∷ rs) h = (each r h.0, All-update_rows_if P Q p f each rs h.1)

  -- A DELETE keeps a property of all rows.
  pub All-delete_rows :
      (P : R → Type 0) (p : R → Bool) (rs : List R) → All P rs → All P (delete_rows p rs)
  unfolding delete_rows
  All-delete_rows P p [] h = tt
  All-delete_rows P p (r ∷ rs) h = elim (Bool-cases (p r)) [
    | inl e ↦ rw (e) (All-delete_rows P p rs h.1)
    | inr e ↦ rw (e) ((h.0, All-delete_rows P p rs h.1))
  ]

  -- A row that is found fits, and is a row of the table.
  pub All-find_row :
      (P : R → Type 0) (p : R → Bool) (rs : List R) {r : R}
      → All P rs
      → find_row p rs ≡ some r
      → P r × (p r ≡ true)
  unfolding find_row
  All-find_row P p [] h e = absurd (cc)
  All-find_row P p (x ∷ xs) {r} h e = elim (Bool-cases (p x)) [
    | inl t ↦ let same : x ≡ r = ground arith in (subst P same h.0, rw (← same) t)
    | inr f ↦ All-find_row P p xs h.1 (ground arith)
  ]
