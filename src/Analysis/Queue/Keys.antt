-- ===== src/Analysis/Queue/Keys.antt =====
-- Primary keys: a row that is found by its key is the only one with that key.
use music_online_go.Analysis.Queue.Steps.{Keyed}
use music_online_go.Analysis.Job.{Job}
use music_online_go.Database.Table.{All-first_by, first_by}
use music_online_go.Prelude.{
  ap, Option-cases, inr, inl, suc, All-map, Bool-cases, [], ◌∷◌, ◌≤◌, arith, true, some, ◌≡◌, All,
  List, Bool, ℕ,
}

Keyed-lower : (lo : ℕ) (js : List Job) (hi : ℕ) → Keyed lo js hi → All (λ j. lo ≤ j.id) js
Keyed-lower lo [] hi h = tt
Keyed-lower lo (j ∷ js) hi h =
    (h.0, All-map (λ k l. omega arith) js (Keyed-lower (suc j.id) js hi h.1))

first_of_Keyed :
    (p : Job → Bool) (lo : ℕ) (k : Job) (js : List Job) (hi : ℕ) {j : Job}
    → Keyed lo (k ∷ js) hi
    → p k ≡ true
    → first_by (λ r. r.id) p (k ∷ js) ≡ some j
    → k ≡ j
unfolding first_by
first_of_Keyed p lo k js hi h t e = elim (Option-cases (first_by (λ r. r.id) p js)) [
  | inl n ↦ ground arith
  | inr (s, q) ↦
      let later : suc k.id ≤ s.id =
        All-first_by (λ r. suc k.id ≤ r.id) (λ r. r.id) p js (Keyed-lower (suc k.id) js hi h.1) q in
      ground arith
]

-- A primary key has one row.
pub first_job_unique :
    (p : Job → Bool) (lo : ℕ) (js : List Job) (hi : ℕ) {j : Job}
    → Keyed lo js hi
    → first_by (λ k. k.id) p js ≡ some j
    → All (λ k. k.id ≡ j.id → k ≡ j) js
unfolding first_by
first_job_unique p lo [] hi h e = tt
first_job_unique p lo (k ∷ js) hi {j} h e =
    let later = Keyed-lower (suc k.id) js hi h.1 in
    elim (Bool-cases (p k)) [
      | inl t ↦
          let same = first_of_Keyed p lo k js hi h t e in
          (
            (λ _. same),
            All-map (λ r l s. absurd (omega (arith, ap (λ (x : Job). x.id) same))) js later,
          )
      | inr f ↦
          let rest : first_by (λ k. k.id) p js ≡ some j = ground arith in
          let above : suc k.id ≤ j.id =
            All-first_by (λ r. suc k.id ≤ r.id) (λ r. r.id) p js later rest in
          ((λ s. absurd (omega arith)), first_job_unique p (suc k.id) js hi h.1 rest)
    ]
