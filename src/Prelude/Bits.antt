-- ===== src/Prelude/Bits.antt =====
-- A set of bits that is apart from a union is apart from each part.
use Prim.Native.Nat.{digits, bit_and-bitwise, bit_or-bitwise}
use dns_update.Prelude.{
  ℕ, zero, suc, ◌+◌, ◌*◌, ◌/◌, ◌%◌, ◌≤◌, ◌≡◌, refl, sym, ◌∙◌, max, min, bit_and, bit_or, arith,
}

-- The union, with a count of digits to go.
abbrev joined : ℕ → ℕ → ℕ → ℕ
joined n a b = digits (λ rest. rest) max n a b

abbrev shared : ℕ → ℕ → ℕ → ℕ
shared n a b = digits (λ rest. zero) min n a b

none_left : (n b : ℕ) → joined n zero b ≡ b
none_left zero b = refl
none_left (suc n) b = refl

-- A count that is large enough is as good as another.
joined_enough : (n m a b : ℕ) → a ≤ n → a ≤ m → joined n a b ≡ joined m a b
joined_enough n m zero b p q = none_left n b ∙ sym (none_left m b)
joined_enough zero m (suc a) b p q = absurd (omega arith)
joined_enough (suc n) zero (suc a) b p q = absurd (omega arith)
joined_enough (suc n) (suc m) (suc a) b p q =
    omega (arith, joined_enough n m (suc a / 2) (b / 2) (omega arith) (omega arith))

bit_or_step : (a b : ℕ) → bit_or a b ≡ bit_or (a / 2) (b / 2) * 2 + max (a % 2) (b % 2)
bit_or_step zero b = omega (arith, bit_or-bitwise zero b, bit_or-bitwise zero (b / 2))
bit_or_step (suc a) b = omega (
  arith,
  bit_or-bitwise (suc a) b,
  bit_or-bitwise (suc a / 2) (b / 2),
  joined_enough a (suc a / 2) (suc a / 2) (b / 2) (omega arith) (omega arith),
)

shared_parts : (n a b c : ℕ) → shared n a (bit_or b c) ≡ 0 → (shared n a b ≡ 0) × (shared n a c ≡ 0)
shared_parts zero a b c h = (refl, refl)
shared_parts (suc n) zero b c h = (refl, refl)
shared_parts (suc n) (suc a) b c h =
    let step = bit_or_step b c in
    let half : bit_or b c / 2 ≡ bit_or (b / 2) (c / 2) = omega (arith, step) in
    let low : bit_or b c % 2 ≡ max (b % 2) (c % 2) = omega (arith, step) in
    let rest : shared n (suc a / 2) (bit_or b c / 2) ≡ 0 = omega (arith, h) in
    let (first, second) = shared_parts n (suc a / 2) (b / 2) (c / 2) (rw half at rest) in
    (omega (arith, h, low, first), omega (arith, h, low, second))

pub bit_and-bit_or :
    (a b c : ℕ) → bit_and a (bit_or b c) ≡ 0 → (bit_and a b ≡ 0) × (bit_and a c ≡ 0)
bit_and-bit_or a b c h =
    let (first, second) = shared_parts a a b c (sym (bit_and-bitwise a (bit_or b c)) ∙ h) in
    (bit_and-bitwise a b ∙ first, bit_and-bitwise a c ∙ second)
