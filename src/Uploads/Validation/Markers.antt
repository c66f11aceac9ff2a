-- ===== src/Uploads/Validation/Markers.antt =====
-- The tests that find an extension in a list and a marker in the bytes of a file.
use music_online_go.Metadata.Bytes.{byte, bytes_eq, Bytes}
use music_online_go.Uploads.Validation.{starts_with, is_listed, is_at}
use music_online_go.Prelude.{
  ==_iff, ◌==◌, refl, take-append, drop-append, ◌⊎◌, zero, false, [], inr, ◌∙◌, ◌||◌, inl, sym, ap,
  arith, ◌&&◌, drop, suc, ◌↔◌, ◌∷◌, true, ◌++◌, length, ◌≡◌, ◌≤◌, take, leb, List, Bool, ℕ,
}
use mathlib.Core.List.{Memᴰ}
use mathlib.Core.Bool.{false≢true}
use mathlib.Core.List.Memᴰ

pub or_iff :
    {P Q : Type 0} (a b : Bool) → (a ≡ true) ↔ P → (b ≡ true) ↔ Q → ((a || b) ≡ true) ↔ (P ⊎ Q)
or_iff true b p q = (λ e. inl (p.0 refl), λ s. refl)
or_iff false b p q =
    (λ e. inr (q.0 e), λ s. elim s [ inl x ↦ absurd (false≢true (p.1 x)) | inr y ↦ q.1 y ])

pub and_iff :
    {P Q : Type 0} (a b : Bool) → (a ≡ true) ↔ P → (b ≡ true) ↔ Q → ((a && b) ≡ true) ↔ (P × Q)
and_iff true b p q = (λ e. (p.0 refl, q.0 e), λ s. q.1 s.1)
and_iff false b p q = (λ e. absurd (false≢true e), λ s. absurd (false≢true (p.1 s.0)))

pub bytes_eq_iff : (xs ys : Bytes) → (bytes_eq xs ys ≡ true) ↔ (xs ≡ ys)
unfolding bytes_eq
bytes_eq_iff [] [] = (λ e. refl, λ e. refl)
bytes_eq_iff [] (y ∷ ys) = (λ e. absurd (false≢true e), λ e. absurd (cc))
bytes_eq_iff (x ∷ xs) [] = (λ e. absurd (false≢true e), λ e. absurd (cc))
bytes_eq_iff (x ∷ xs) (y ∷ ys) = (
  λ e.
      let (a, b) = (and_iff (x == y) (bytes_eq xs ys) (==_iff x y) (bytes_eq_iff xs ys)).0 e in
      ap (λ z. z ∷ xs) a ∙ ap (λ zs. y ∷ zs) b,
  λ e.
      (and_iff (x == y) (bytes_eq xs ys) (==_iff x y) (bytes_eq_iff xs ys)).1
        (ap (λ zs. byte zs 0) e, ap (drop 1) e),
)

pub is_listed_iff : (ext : Bytes) (xs : List Bytes) → (is_listed ext xs ≡ true) ↔ Memᴰ ext xs
unfolding is_listed
is_listed_iff ext [] = (λ e. absurd (false≢true e), λ m. elim m [ ])
is_listed_iff ext (x ∷ xs) = (
  λ e. elim ((or_iff _ _ (bytes_eq_iff ext x) (is_listed_iff ext xs)).0 e) [
    | inl same ↦ Memᴰ.head same
    | inr m ↦ Memᴰ.tail m
  ],
  λ m. (or_iff _ _ (bytes_eq_iff ext x) (is_listed_iff ext xs)).1 (Memᴰ.cases_cons m),
)

take-drop : (n : ℕ) (xs : Bytes) → take n xs ++ drop n xs ≡ xs
take-drop zero xs = refl
take-drop (suc n) [] = refl
take-drop (suc n) (x ∷ xs) = ap (λ ys. x ∷ ys) (take-drop n xs)

length-take : (n : ℕ) (xs : Bytes) → n ≤ length xs → length (take n xs) ≡ n
length-take zero xs h = refl
length-take (suc n) [] h = absurd (omega arith)
length-take (suc n) (x ∷ xs) h = ap suc (length-take n xs (omega arith))

abbrev pub StartsWith : Bytes → Bytes → Type 0
StartsWith prefix bytes = (rest : Bytes) × (bytes ≡ prefix ++ rest)

pub starts_with_iff :
    (bytes prefix : Bytes) → (starts_with bytes prefix ≡ true) ↔ StartsWith prefix bytes
unfolding starts_with
starts_with_iff bytes prefix = (
  λ e. (
    drop (length prefix) bytes,
    sym (take-drop (length prefix) bytes)
        ∙ ap (λ xs. xs ++ drop (length prefix) bytes) ((bytes_eq_iff _ prefix).0 e),
  ),
  λ s. (bytes_eq_iff _ prefix).1 (ap (take (length prefix)) s.1 ∙ take-append prefix s.0),
)

-- `marker` stands behind the first `offset` bytes of at least twelve.
abbrev pub IsAt : ℕ → Bytes → Bytes → Type 0
IsAt offset marker bytes =
    (12 ≤ length bytes)
    × (before rest : Bytes) × (length before ≡ offset)
    × (bytes ≡ before ++ (marker ++ rest))

pub leb_iff : (a b : ℕ) → (leb a b ≡ true) ↔ (a ≤ b)
leb_iff a b = ground arith

pub is_at_iff :
    (offset : ℕ) (marker bytes : Bytes)
    → offset ≤ 12
    → length marker ≡ 4
    → (is_at offset marker bytes ≡ true) ↔ IsAt offset marker bytes
unfolding is_at
is_at_iff offset marker bytes small four = (only, when)
  where
    only : is_at offset marker bytes ≡ true → IsAt offset marker bytes
    only e =
        let (long, same) = (and_iff _ _ (leb_iff 12 (length bytes)) (bytes_eq_iff _ marker)).0 e in
        (
          long,
          take offset bytes,
          drop 4 (drop offset bytes),
          length-take offset bytes (omega arith),
          sym (take-drop offset bytes)
              ∙ ap (λ xs. take offset bytes ++ xs)
                  (sym (take-drop 4 (drop offset bytes))
                    ∙ ap (λ xs. xs ++ drop 4 (drop offset bytes)) same),
        )

    when : IsAt offset marker bytes → is_at offset marker bytes ≡ true
    when (long, before, rest, behind, e) =
        (and_iff _ _ (leb_iff 12 (length bytes)) (bytes_eq_iff _ marker)).1 (
          long,
          ap (λ xs. take 4 (drop offset xs)) e
              ∙ ap (λ n. take 4 (drop n (before ++ (marker ++ rest)))) (sym behind)
              ∙ ap (take 4) (drop-append before (marker ++ rest))
              ∙ ap (λ n. take n (marker ++ rest)) (sym four)
              ∙ take-append marker rest,
        )
