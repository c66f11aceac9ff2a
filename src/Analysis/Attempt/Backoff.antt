-- ===== src/Analysis/Attempt/Backoff.antt =====
-- The delay before a retry.
use native.Mathlib.Nat.{pow-suc}
use music_online_go.Prelude.{
  ◌∙◌, lt64, ap, inr, ltb→lt, inl, Bool-cases, false, ltb, arith, ◌-◌, ◌<◌, zero, true, suc, ◌^◌,
  ◌*◌, min, ◌≡◌, ◌≤◌, ℕ,
}
use music_online_go.Analysis.Attempt.{
  doubled, seconds, add_duration, retry_delay, Settings, back_off,
}

one-le-pow : (r : ℕ) → 1 ≤ 2 ^ r
one-le-pow zero = omega arith
one-le-pow (suc r) = omega (arith, pow-suc 2 r, one-le-pow r)

-- a capped value stays at the cap
capped : (m p : ℕ) → 1 ≤ p → m ≤ m * p
capped m p h = grind arith

-- up to half of the largest duration, the doubling does not wrap
doubled_lem :
    (delay maximum : ℕ)
    → delay < maximum
    → maximum ≤ 2 ^ 62
    → doubled delay maximum ≡ min (delay * 2) maximum
doubled_lem delay maximum h bound = ground arith

below_cap :
    (delay maximum : ℕ) → delay ≤ 2 ^ 62 → maximum ≤ 2 ^ 62 → lt64 delay maximum ≡ ltb delay maximum
below_cap delay maximum a b = ground arith

-- the cap of a cap
min_mul : (d m p : ℕ) → 1 ≤ p → min (min d m * p) m ≡ min (d * p) m
min_mul d m p h = elim (Bool-cases (ltb m d)) [
  | inl over ↦
      ap (λ x. min (x * p) m) (capped_min over)
      ∙ omega (arith, capped m p h, capped d p h, ltb→lt m d over)
  | inr fits ↦ ap (λ x. min (x * p) m) (ground arith)
]
  where
    capped_min : ltb m d ≡ true → min d m ≡ m
    capped_min over = ground arith

-- Doubling up to a cap, round by round, is the capped power of two.
back_off_lem :
    (rounds delay maximum : ℕ)
    → delay ≤ maximum
    → maximum ≤ 2 ^ 62
    → back_off rounds delay maximum ≡ min (delay * 2 ^ rounds) maximum
unfolding back_off
back_off_lem zero delay maximum h bound = omega arith
back_off_lem (suc rounds) delay maximum h bound = elim (Bool-cases (ltb delay maximum)) [
  | inl below ↦
      let less : delay < maximum = ltb→lt delay maximum below in
      rw (below_cap delay maximum (omega arith) bound, below, doubled_lem delay maximum less bound)
        (omega (
          arith,
          back_off_lem rounds (min (delay * 2) maximum) maximum (omega arith) bound,
          min_mul (delay * 2) maximum (2 ^ rounds) (one-le-pow rounds),
          twice delay rounds,
        ))
  | inr at_cap ↦
      rw (below_cap delay maximum (omega arith) bound, at_cap)
        (omega (
          arith,
          capped delay (2 ^ suc rounds) (one-le-pow (suc rounds)),
          at_least delay maximum at_cap,
        ))
]
  where
    twice : (d r : ℕ) → d * 2 ^ suc r ≡ d * 2 * 2 ^ r
    twice d r = rw pow-suc (grind arith)

    at_least : (d m : ℕ) → ltb d m ≡ false → m ≤ d
    at_least d m e = ground arith

-- The delay before the next attempt is the initial delay doubled with every attempt made, up to
-- the maximum, if the maximum is at least the initial delay and at most 2 ^ 62 nanoseconds, half
-- of what a duration can hold.
pub retry_delay_lem :
    (cfg : Settings) (attempt : ℕ)
    → cfg.retry_initial_seconds ≤ cfg.retry_max_seconds
    → cfg.retry_max_seconds * 10 ^ 9 ≤ 2 ^ 62
    → retry_delay cfg attempt
      ≡ min
          (cfg.retry_initial_seconds * 10 ^ 9 * 2 ^ (attempt - 1))
          (cfg.retry_max_seconds * 10 ^ 9)
unfolding retry_delay
retry_delay_lem cfg attempt h bound =
    rw (small cfg.retry_initial_seconds (omega arith), small cfg.retry_max_seconds bound)
      (back_off_lem (attempt - 1) (cfg.retry_initial_seconds * 10 ^ 9)
        (cfg.retry_max_seconds * 10 ^ 9) (omega arith) bound)
  where
    small : (n : ℕ) → n * 10 ^ 9 ≤ 2 ^ 62 → seconds n ≡ n * 10 ^ 9
    small n b = omega arith

-- An initial delay of 2 ^ 62 nanoseconds or more, below a maximum that is a duration, is doubled
-- past the largest duration: before the second retry the delay is negative, so that the job is due
-- at a time that has passed.
pub retry_delay_overflow :
    (cfg : Settings) (now : ℕ)
    → 2 ^ 62 ≤ cfg.retry_initial_seconds * 10 ^ 9
    → cfg.retry_initial_seconds < cfg.retry_max_seconds
    → cfg.retry_max_seconds * 10 ^ 9 < 2 ^ 63
    → (lt64 (retry_delay cfg 2) 0 ≡ true) × (add_duration now (retry_delay cfg 2) ≤ now)
unfolding retry_delay back_off add_duration
retry_delay_overflow cfg now low less high = (ground arith, ground arith)
