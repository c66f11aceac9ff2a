-- ===== src/Metadata/Ogg/Pieces.antt =====
-- The bodies of pages, cut into segments.
use music_online_go.Metadata.Ogg.{sum}
use music_online_go.Metadata.Bytes.{Bytes}
use music_online_go.Prelude.{
  sym, zero, refl, ◌∙◌, ap, suc, arith, ◌≤◌, ◌+◌, [], take, drop, length, ◌≡◌, ◌∷◌, ◌++◌, List, ℕ,
}

pub length-take_le : (n : ℕ) (xs : Bytes) → length (take n xs) ≤ n
length-take_le zero xs = omega arith
length-take_le (suc n) [] = omega arith
length-take_le (suc n) (x ∷ xs) = omega (arith, length-take_le n xs)

drop-nil : (n : ℕ) → drop {A = ℕ} n [] ≡ []
drop-nil zero = refl
drop-nil (suc n) = refl

drop-drop : (k n : ℕ) (xs : Bytes) → drop n (drop k xs) ≡ drop (k + n) xs
drop-drop zero n xs = ap (λ m. drop m xs) (omega arith)
drop-drop (suc k) n [] = drop-nil n ∙ sym (drop-nil (suc k + n))
drop-drop (suc k) n (x ∷ xs) = drop-drop k n xs ∙ ap (λ m. drop m (x ∷ xs)) (plus_suc)
  where
    plus_suc : suc (k + n) ≡ suc k + n
    plus_suc = omega arith

sum-append : (ns : List ℕ) (n : ℕ) → sum (ns ++ n ∷ []) ≡ sum ns + n
sum-append [] n = omega arith
sum-append (m ∷ ns) n = omega (arith, sum-append ns n)

pub append-cons : (ns : List ℕ) (n : ℕ) (ms : List ℕ) → (ns ++ n ∷ []) ++ ms ≡ ns ++ n ∷ ms
append-cons [] n ms = refl
append-cons (k ∷ ns) n ms = ap (λ xs. k ∷ xs) (append-cons ns n ms)

-- what is left of a body behind one more segment
pub rest_of_body :
    (done : List ℕ) (n : ℕ) (body left : Bytes)
    → left ≡ drop (sum done) body
    → drop n left ≡ drop (sum (done ++ n ∷ [])) body
rest_of_body done n body left e =
    ap (drop n) e ∙ drop-drop (sum done) n body ∙ ap (λ k. drop k body) (sym (sum-append done n))
