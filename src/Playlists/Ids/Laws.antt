-- ===== src/Playlists/Ids/Laws.antt =====
-- What `sameUniqueIDs` decides, by counting ids.
use music_online_go.Prelude.{
  ap, ==_iff, inr, &&_iff, inl, ◌+◌, sym, min, length, Bool-cases, refl, ◌≤◌, suc, max, [], ◌↔◌,
  arith, false, true, if◌then◌else◌, ◌==◌, ◌∷◌, ◌≡◌, List, ℕ,
}
use music_online_go.Playlists.Ids.{
  all_seen, remember_all, same_unique_ids, contains, remember, forget,
}

-- How often an id occurs.
unfoldable pub occurs : ℕ → List ℕ → ℕ
occurs id [] = 0
occurs id (x ∷ xs) = let rest = occurs id xs in if x == id then suc rest else rest

contains_iff : (id : ℕ) (xs : List ℕ) → (contains id xs ≡ true) ↔ (1 ≤ occurs id xs)
unfolding contains occurs
contains_iff id [] = ground arith
contains_iff id (x ∷ xs) = ground (arith, contains_iff id xs)

occurs-forget-other :
    (x id : ℕ) (xs : List ℕ) → (x == id) ≡ false → occurs x (forget id xs) ≡ occurs x xs
unfolding occurs forget
occurs-forget-other x id [] h = refl
occurs-forget-other x id (y ∷ ys) h = ground (arith, occurs-forget-other x id ys h)

occurs-forget : (id : ℕ) (xs : List ℕ) → occurs id (forget id xs) ≡ 0
unfolding occurs forget
occurs-forget id [] = refl
occurs-forget id (y ∷ ys) = ground (arith, occurs-forget id ys)

-- The map keeps each id once.
occurs-remember :
    (x id : ℕ) (seen : List ℕ)
    → occurs x (remember id seen) ≡ (if x == id then max 1 (occurs x seen) else occurs x seen)
unfolding occurs remember
occurs-remember x id seen = ground (arith, contains_iff id seen)

abbrev pub IsUnique : List ℕ → Type 0
IsUnique xs = (x : ℕ) → occurs x xs ≤ 1

IsUnique-forget : (id : ℕ) (xs : List ℕ) → IsUnique xs → IsUnique (forget id xs)
IsUnique-forget id xs u x = elim (Bool-cases (x == id)) [
  | inl e ↦ rw ((==_iff x id).0 e) (omega (arith, occurs-forget id xs))
  | inr e ↦ omega (arith, occurs-forget-other x id xs e, u x)
]

IsUnique-remember : (id : ℕ) (seen : List ℕ) → IsUnique seen → IsUnique (remember id seen)
IsUnique-remember id seen u x = ground (arith, occurs-remember x id seen, u x)

occurs-remember_all :
    (x : ℕ) (ids seen : List ℕ)
    → IsUnique seen
    → occurs x (remember_all ids seen) ≡ min 1 (occurs x ids + occurs x seen)
unfolding occurs remember_all
occurs-remember_all x [] seen u = ground (arith, u x)
occurs-remember_all x (id ∷ ids) seen u = ground (
  arith,
  occurs-remember_all x ids (remember id seen) (IsUnique-remember id seen u),
  occurs-remember x id seen,
  u x,
)

length-remember_all :
    (ids seen : List ℕ) → length (remember_all ids seen) ≤ length ids + length seen
unfolding remember_all remember
length-remember_all [] seen = omega arith
length-remember_all (id ∷ ids) seen = elim (Bool-cases (contains id seen)) [
  | inl e ↦ rw (e) (omega (arith, length-remember_all ids seen))
  | inr e ↦ rw (e) (omega (arith, length-remember_all ids (id ∷ seen)))
]

-- The map is as long as the ids only if they have no repetition.
full-remember_all :
    (ids seen : List ℕ)
    → length (remember_all ids seen) ≡ length ids + length seen
    → IsUnique seen
    → (x : ℕ) → occurs x ids + occurs x seen ≤ 1
unfolding occurs remember_all remember
full-remember_all [] seen e u x = omega (arith, u x)
full-remember_all (id ∷ ids) seen e u x = elim (Bool-cases (contains id seen)) [
  | inl c ↦ absurd (omega (arith, rw (c) at e, length-remember_all ids seen))
  | inr c ↦
      let new : IsUnique (id ∷ seen) = λ y. elim (Bool-cases (id == y)) [
        | inl s ↦
            let same : id ≡ y = (==_iff id y).0 s in
            ground (arith, ap (λ z. occurs z seen) same, contains_iff id seen, c)
        | inr s ↦ ground (arith, s, u y)
      ] in
      ground (arith, full-remember_all ids (id ∷ seen) (omega (arith, rw (c) at e)) new x)
]

-- Both sides lose the id in front.
forgotten :
    (id : ℕ) (ids seen : List ℕ)
    → ((x : ℕ) → occurs x (id ∷ ids) ≡ occurs x seen)
    → IsUnique seen
    → (x : ℕ) → occurs x ids ≡ occurs x (forget id seen)
unfolding occurs
forgotten id ids seen h u x = elim (Bool-cases (x == id)) [
  | inl e ↦
      let same = (==_iff x id).0 e in
      ground (arith, same, h id, h x, u x, u id, occurs-forget id seen)
  | inr e ↦ ground (arith, h x, occurs-forget-other x id seen e)
]

length-forget : (id : ℕ) (xs : List ℕ) → length (forget id xs) + occurs id xs ≡ length xs
unfolding occurs forget
length-forget id [] = refl
length-forget id (x ∷ xs) = ground (arith, length-forget id xs)

occurs_none : (xs : List ℕ) → ((x : ℕ) → occurs x xs ≡ 0) → xs ≡ []
unfolding occurs
occurs_none [] h = refl
occurs_none (x ∷ xs) h = absurd (ground (arith, h x))

length-occurs :
    (xs ys : List ℕ) → ((x : ℕ) → occurs x xs ≡ occurs x ys) → IsUnique ys → length xs ≡ length ys
unfolding occurs
length-occurs [] ys h u = rw (occurs_none ys (λ x. sym (h x))) refl
length-occurs (x ∷ xs) ys h u =
    let rec = length-occurs xs (forget x ys) (forgotten x xs ys h u) (IsUnique-forget x ys u) in
    ground (arith, rec, length-forget x ys, h x, u x)

all_seen-occurs :
    (ids seen : List ℕ)
    → all_seen ids seen ≡ true
    → IsUnique seen
    → (x : ℕ) → occurs x ids ≡ occurs x seen
unfolding occurs all_seen
all_seen-occurs [] [] e u x = refl
all_seen-occurs [] (y ∷ ys) e u x = absurd (ground arith)
all_seen-occurs (id ∷ ids) seen e u x =
    let both = (&&_iff (contains id seen) (all_seen ids (forget id seen))).0 e in
    let rec = all_seen-occurs ids (forget id seen) both.1 (IsUnique-forget id seen u) in
    elim (Bool-cases (x == id)) [
      | inl s ↦
          let same = (==_iff x id).0 s in
          ground (arith, same, rec id, (contains_iff id seen).0 both.0, u id, occurs-forget id seen)
      | inr s ↦ ground (arith, rec x, occurs-forget-other x id seen s)
    ]

occurs-all_seen :
    (ids seen : List ℕ)
    → ((x : ℕ) → occurs x ids ≡ occurs x seen)
    → IsUnique seen
    → all_seen ids seen ≡ true
unfolding occurs all_seen
occurs-all_seen [] seen h u = rw (occurs_none seen (λ x. sym (h x))) refl
occurs-all_seen (id ∷ ids) seen h u = (&&_iff _ _).1 (
  (contains_iff id seen).1 (ground (arith, h id)),
  occurs-all_seen ids (forget id seen) (forgotten id ids seen h u) (IsUnique-forget id seen u),
)

-- A request passes exactly if it holds the current ids, each as often as they do, and the current ids
-- have no repetition.
pub same_unique_ids_lem :
    (current requested : List ℕ)
    → (same_unique_ids current requested ≡ true)
      ↔ (((x : ℕ) → occurs x requested ≡ occurs x current) × IsUnique current)
unfolding same_unique_ids occurs
same_unique_ids_lem current requested = (only, when)
  where
    empty : IsUnique []
    empty x = omega arith

    seen : List ℕ
    seen = remember_all current []

    seen-IsUnique : IsUnique seen
    seen-IsUnique x = ground (arith, occurs-remember_all x current [] empty)

    only :
        same_unique_ids current requested ≡ true
        → ((x : ℕ) → occurs x requested ≡ occurs x current) × IsUnique current
    only e =
        let both = (&&_iff (length current == length requested) (all_seen requested seen)).0 e in
        let all = all_seen-occurs requested seen both.1 seen-IsUnique in
        let full : length seen ≡ length current + 0 =
          ground (arith, length-occurs requested seen all seen-IsUnique, both.0) in
        let once : (x : ℕ) → occurs x current ≤ 1 =
          λ x. omega (arith, full-remember_all current [] full empty x) in
        (λ x. ground (arith, all x, once x, occurs-remember_all x current [] empty), once)

    when :
        ((x : ℕ) → occurs x requested ≡ occurs x current) × IsUnique current
        → same_unique_ids current requested ≡ true
    when h = (&&_iff _ _).1 (
      (==_iff _ _).1 (sym (length-occurs requested current h.0 h.1)),
      occurs-all_seen requested seen
          (λ x. ground (arith, h.0 x, h.1 x, occurs-remember_all x current [] empty)) seen-IsUnique,
    )
