-- ===== src/Retry/Backoff.antt =====
-- internal/retry/retry.go: the doubling loop of Delay in closed form.
use native.Mathlib.Nat.{pow-suc, one-le-pow}
use dns_update.Prelude.{
  ℕ, zero, suc, ◌*◌, ◌/◌, ◌^◌, ◌≤◌, ◌<◌, ◌≡◌, refl, inl, inr, arith, leb, if◌then◌else◌, Bool-cases,
}
use dns_update.Prelude.Int.{pos, mul64}
use dns_update.Retry.{backoff}

-- i, 2 i, 4 i, ... after so many rounds, or the longest delay once a value before reaches its half.
abbrev pub capped : ℕ → ℕ → ℕ → ℕ
capped zero i longest = i
capped (suc rounds) i longest =
    if leb (longest / 2) (i * 2 ^ rounds) then longest else i * 2 ^ suc rounds

mul64_double : (i : ℕ) → 2 * i < 2 ^ 63 → mul64 (pos i) 2 ≡ pos (2 * i)
mul64_double i h = ground arith

double_pow : (rounds i : ℕ) → 2 * i * 2 ^ rounds ≡ i * 2 ^ suc rounds
double_pow rounds i = rw (pow-suc 2 rounds) (omega arith)

capped_double :
    (rounds i longest : ℕ)
    → i < longest / 2
    → capped rounds (2 * i) longest ≡ capped (suc rounds) i longest
capped_double zero i longest h = ground arith
capped_double (suc rounds) i longest h = rw (double_pow rounds i, double_pow (suc rounds) i)

capped_reached : (rounds i longest : ℕ) → longest / 2 ≤ i → capped (suc rounds) i longest ≡ longest
capped_reached rounds i longest h =
    let one_le = one-le-pow rounds 2 (omega arith) in
    let grows : i ≤ i * 2 ^ rounds = grind (arith, one_le) in ground arith

-- The loop of Delay from an initial delay i and a longest delay below 2 ^ 63 is the closed form: the
-- delay doubles in each round, without overflow, until a delay reaches half of the longest.
pub backoff-capped :
    (rounds i longest : ℕ)
    → longest < 2 ^ 63
    → backoff rounds (pos i) (pos longest) ≡ pos (capped rounds i longest)
unfolding backoff
backoff-capped zero i longest fits = refl
backoff-capped (suc rounds) i longest fits = elim (Bool-cases (leb (longest / 2) i)) [
  | inl reached ↦ ground (arith, capped_reached rounds i longest)
  | inr below ↦
      ground (
        arith,
        mul64_double i,
        backoff-capped rounds (2 * i) longest,
        capped_double rounds i longest,
      )
]

-- A closed form that starts below the longest delay stays below it, and doubles at most each round.
pub capped_bounds :
    (rounds i longest : ℕ)
    → i ≤ longest
    → (capped rounds i longest ≤ longest) × (i ≤ capped rounds i longest)
capped_bounds zero i longest h = (h, omega arith)
capped_bounds (suc rounds) i longest h =
    let one_le = one-le-pow rounds 2 (omega arith) in
    let grows : i ≤ i * 2 ^ rounds = grind (arith, one_le) in rw (pow-suc 2 rounds) (ground arith)
