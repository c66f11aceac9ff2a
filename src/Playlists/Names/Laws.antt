-- ===== src/Playlists/Names/Laws.antt =====
-- What the names of playlists look like.
use mathlib.Core.Path.{subst}
use music_online_go.Prelude.{
  if◌then◌else◌, ◌⊎◌, true, ltb, ◌||◌, Bool, ◌≤◌, length, ◌∙◌, ap, arith, ◌++◌, sym, inr, inl,
  false, Bool-cases, [], ◌≡◌, ◌∷◌, List, All, refl,
}
use music_online_go.Database.Errors.{Result, ok}
use music_online_go.Playlists.Store.{Text}
use music_online_go.Playlists.Ids.{contains}
use music_online_go.Playlists.Names.{
  trim_space, trim_left, join, normalize_name, is_space, keep, trim_right, is_empty, fields, scan,
}

-- A word without spaces; and one that is not empty.
abbrev IsWord : Text → Type 0
IsWord word = All (λ r. is_space r ≡ false) word

abbrev IsField : Text → Type 0
IsField word = IsWord word × (is_empty word ≡ false)

keep-IsField :
    (word : Text) (words : List Text)
    → IsWord word
    → All IsField words
    → All IsField (keep word words)
keep-IsField [] words h k = k
keep-IsField (r ∷ rs) words h k = ((h, refl), k)

scan-IsField : (text : Text) → IsWord (scan text).0 × All IsField (scan text).1
unfolding scan
scan-IsField [] = (tt, tt)
scan-IsField (r ∷ rs) = elim (Bool-cases (is_space r)) [
  | inl e ↦
      rw (e) ((tt, keep-IsField (scan rs).0 (scan rs).1 (scan-IsField rs).0 (scan-IsField rs).1))
  | inr e ↦ rw (e) (((e, (scan-IsField rs).0), (scan-IsField rs).1))
]

fields-IsField : (text : Text) → All IsField (fields text)
unfolding fields
fields-IsField text =
    keep-IsField (scan text).0 (scan text).1 (scan-IsField text).0 (scan-IsField text).1

scan-trim_right : (text : Text) → scan (trim_right text) ≡ scan text
unfolding scan trim_right
scan-trim_right [] = refl
scan-trim_right (r ∷ rs) = of (scan-trim_right rs) (trim_right rs) refl
  where
    put_rune : Text → List Text → Text × List Text
    put_rune word words = if is_space r then ([], keep word words) else (r ∷ word, words)

    of :
        scan (trim_right rs) ≡ scan rs
        → (rest : Text) → trim_right rs ≡ rest
        → scan (trim_right (r ∷ rs)) ≡ scan (r ∷ rs)
    of rec [] e =
        let empty : scan rs ≡ ([], []) = sym rec ∙ ap scan e in
        elim (Bool-cases (is_space r)) [
          | inl s ↦ rw (s, e, empty) refl
          | inr s ↦
              let kept : trim_right (r ∷ rs) ≡ r ∷ [] = rw (trim_right, s, e) refl in
              ap scan kept ∙ ap (λ (v : Text × List Text). put_rune v.0 v.1) (sym empty)
        ]
    of rec (x ∷ xs) e =
        let more : is_empty (trim_right rs) ≡ false = ap is_empty e in
        let kept : trim_right (r ∷ rs) ≡ r ∷ trim_right rs = elim (Bool-cases (is_space r)) [
          | inl s ↦ rw (trim_right, s, more) refl
          | inr s ↦ rw (trim_right, s) refl
        ] in
        ap scan kept ∙ ap (λ (v : Text × List Text). put_rune v.0 v.1) rec

fields-trim_left : (text : Text) → fields (trim_left text) ≡ fields text
unfolding fields scan trim_left
fields-trim_left [] = refl
fields-trim_left (r ∷ rs) = elim (Bool-cases (is_space r)) [
  | inl s ↦ rw (s) (fields-trim_left rs)
  | inr s ↦ let kept : trim_left (r ∷ rs) ≡ r ∷ rs = rw (trim_left, s) refl in ap fields kept
]

fields-trim_space : (text : Text) → fields (trim_space text) ≡ fields text
unfolding trim_space fields
fields-trim_space text =
    ap (λ (s : Text × List Text). keep s.0 s.1) (scan-trim_right (trim_left text))
    ∙ fields-trim_left text

scan_word : (word rest : Text) → IsWord word → scan (word ++ 0x20 ∷ rest) ≡ (word, fields rest)
unfolding scan fields is_space
scan_word [] rest h = refl
scan_word (r ∷ rs) rest h = rw (h.0, scan_word rs rest h.1) refl

scan_last : (word : Text) → IsWord word → scan word ≡ (word, [])
unfolding scan
scan_last [] h = refl
scan_last (r ∷ rs) h = rw (h.0, scan_last rs h.1) refl

keep_word :
    (word : Text) (words : List Text) → is_empty word ≡ false → keep word words ≡ word ∷ words
keep_word [] words h = absurd (ground (arith, h))
keep_word (r ∷ rs) words h = refl

-- Words that are joined are read back.
fields-join : (words : List Text) → All IsField words → fields (join words) ≡ words
unfolding fields join scan
fields-join [] h = refl
fields-join (word ∷ []) h = rw (scan_last word h.0.0) (keep_word word [] h.0.1)
fields-join (word ∷ next ∷ words) h =
    rw (scan_word word (join (next ∷ words)) h.0.0)
      (rw (fields-join (next ∷ words) h.1) (keep_word word (next ∷ words) h.0.1))

-- A name that passes is not empty, has at most 120 runes and no NUL, and passes again unchanged.
pub normalize_name_lem :
    (text name : Text)
    → normalize_name text ≡ ok name
    → (is_empty name ≡ false)
      × (contains 0 name ≡ false)
      × (length name ≤ 120)
      × (normalize_name name ≡ ok name)
unfolding normalize_name
normalize_name_lem text name h = of (Bool-cases (bad value))
  where
    value : Text
    value = join (fields (trim_space text))

    bad : Text → Bool
    bad v = is_empty v || (contains 0 v || ltb 120 (length v))

    again : join (fields (trim_space value)) ≡ value
    again = ap join (
        fields-trim_space value
        ∙ fields-join (fields (trim_space text)) (fields-IsField (trim_space text)))

    IsGood : Text → Type 0
    IsGood n =
        (is_empty n ≡ false) × (contains 0 n ≡ false) × (length n ≤ 120) × (normalize_name n ≡ ok n)

    injective : {v : Text} → ◌≡◌ {A = Result Text} (ok v) (ok name) → v ≡ name
    injective q = cc

    of : (bad value ≡ true) ⊎ (bad value ≡ false) → IsGood name
    of (inl e) = absurd (ground (arith, rw (normalize_name, e) at h))
    of (inr e) =
        let same : value ≡ name = injective (rw (normalize_name, e) at h) in
        subst IsGood same (
          ground (arith, e),
          ground (arith, e),
          ground (arith, e),
          rw (normalize_name, again, e) refl,
        )
