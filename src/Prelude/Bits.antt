-- ===== src/Prelude/Bits.antt =====
-- Bitwise operations at variables: the law for the lowest bit, and what follows from it.
use Prim.Native.Nat.{
  ℕ, zero, suc, ◌+◌, ◌*◌, ◌/◌, ◌%◌, ◌^◌, ◌≤◌, ◌<◌, min, bit_and, bit_xor, digits, differ,
  bit_and-bitwise, bit_xor-bitwise,
}
use mathlib.Core.Path.{◌≡◌, refl, sym, ap, ◌∙◌}
use native.Mathlib.Omega.{arith}
use native.Mathlib.Nat.{pow-suc}

differ_bits : (x y : ℕ) → x < 2 → y < 2 → differ x y ≡ (x + y) % 2
differ_bits zero y hx hy = omega arith
differ_bits (suc zero) zero hx hy = refl
differ_bits (suc zero) (suc zero) hx hy = refl
differ_bits (suc zero) (suc (suc y)) hx hy = absurd (omega arith)
differ_bits (suc (suc x)) y hx hy = absurd (omega arith)

-- The native operations stand for a recursion on the digits, which fuel above the number suffices for.
module _ (last : ℕ → ℕ) (op : ℕ → ℕ → ℕ) where
  enough_digits :
      (x y fuel more : ℕ) → x ≤ more → x ≤ fuel → digits last op more x y ≡ digits last op fuel x y
  enough_digits (suc x) y (suc fuel) (suc more) p q =
      ap (λ (t : ℕ). t * 2 + op (suc x % 2) (y % 2))
        (enough_digits (suc x / 2) (y / 2) fuel more (omega arith) (omega arith))
  enough_digits (suc x) y zero more p q = absurd (omega arith)
  enough_digits (suc x) y (suc fuel) zero p q = absurd (omega arith)
  enough_digits zero y zero zero p q = refl
  enough_digits zero y zero (suc more) p q = refl
  enough_digits zero y (suc fuel) zero p q = refl
  enough_digits zero y (suc fuel) (suc more) p q = refl

  lowest_digit :
      (x y : ℕ)
      → digits last op (suc x) (suc x) y
        ≡ digits last op (suc x / 2) (suc x / 2) (y / 2) * 2 + op (suc x % 2) (y % 2)
  lowest_digit x y =
      ap (λ (t : ℕ). t * 2 + op (suc x % 2) (y % 2))
        (enough_digits (suc x / 2) (y / 2) (suc x / 2) x (omega arith) (omega arith))

pub bit_xor_step : (a b : ℕ) → bit_xor a b ≡ bit_xor (a / 2) (b / 2) * 2 + (a + b) % 2
bit_xor_step zero b = omega (arith, bit_xor-bitwise 0 b, bit_xor-bitwise 0 (b / 2))
bit_xor_step (suc a) b =
    let whole = bit_xor-bitwise (suc a) b in
    let half = bit_xor-bitwise (suc a / 2) (b / 2) in
    let low = lowest_digit (λ t. t) differ a b in
    omega (arith, whole, half, low, differ_bits (suc a % 2) (b % 2) (omega arith) (omega arith))

pub bit_xor-lt : (k a b : ℕ) → a < 2 ^ k → b < 2 ^ k → bit_xor a b < 2 ^ k
bit_xor-lt zero zero zero p q = omega (arith, bit_xor-bitwise 0 0)
bit_xor-lt zero (suc a) b p q = absurd (omega arith)
bit_xor-lt zero zero (suc b) p q = absurd (omega arith)
bit_xor-lt (suc k) a b p q =
    let e : 2 ^ suc k ≡ 2 ^ k * 2 = pow-suc 2 k in
    omega (arith, bit_xor_step a b, bit_xor-lt k (a / 2) (b / 2) (omega arith) (omega arith))

-- A second exclusive or with the same number undoes the first.
pub bit_xor_undo : (k a b : ℕ) → a < 2 ^ k → b < 2 ^ k → bit_xor (bit_xor a b) b ≡ a
bit_xor_undo zero zero zero p q = refl
bit_xor_undo zero (suc a) b p q = absurd (omega arith)
bit_xor_undo zero zero (suc b) p q = absurd (omega arith)
bit_xor_undo (suc k) a b p q =
    let e : 2 ^ suc k ≡ 2 ^ k * 2 = pow-suc 2 k in
    let x = bit_xor a b in
    let half : x / 2 ≡ bit_xor (a / 2) (b / 2) = omega (arith, bit_xor_step a b) in
    omega (
      arith,
      bit_xor_step a b,
      bit_xor_step x b,
      ap (λ y. bit_xor y (b / 2)) half,
      bit_xor_undo k (a / 2) (b / 2) (omega arith) (omega arith),
    )

-- So it loses nothing.
pub bit_xor_cancel :
    (k a b c : ℕ) → a < 2 ^ k → b < 2 ^ k → c < 2 ^ k → bit_xor a c ≡ bit_xor b c → a ≡ b
bit_xor_cancel k a b c p q r e =
    sym (bit_xor_undo k a c p r) ∙ ap (λ x. bit_xor x c) e ∙ bit_xor_undo k b c q r

pub bit_xor_comm : (k a b : ℕ) → a < 2 ^ k → b < 2 ^ k → bit_xor a b ≡ bit_xor b a
bit_xor_comm zero zero zero p q = refl
bit_xor_comm zero (suc a) b p q = absurd (omega arith)
bit_xor_comm zero zero (suc b) p q = absurd (omega arith)
bit_xor_comm (suc k) a b p q =
    let e : 2 ^ suc k ≡ 2 ^ k * 2 = pow-suc 2 k in
    omega (
      arith,
      bit_xor_step a b,
      bit_xor_step b a,
      bit_xor_comm k (a / 2) (b / 2) (omega arith) (omega arith),
    )

bit_and_halves : (x y : ℕ) → bit_and x y ≡ min (x % 2) (y % 2) + 2 * bit_and (x / 2) (y / 2)
bit_and_halves (suc x) y =
    let whole = bit_and-bitwise (suc x) y in
    let low = lowest_digit (λ t. 0) min x y in
    omega (arith, whole, low, bit_and-bitwise (suc x / 2) (y / 2))
bit_and_halves zero y = omega (arith, bit_and-bitwise 0 (y / 2), bit_and-bitwise 0 y)

no_common_bit : (x fuel : ℕ) → x ≤ fuel → bit_and x 0 ≡ 0
no_common_bit (suc x) (suc fuel) h =
    let upper = no_common_bit (suc x / 2) fuel (omega arith) in
    omega (arith, upper, bit_and_halves (suc x) 0)
no_common_bit (suc x) zero h = absurd (omega arith)
no_common_bit zero fuel h = refl

-- The test of the bit above the k lowest ones.
pub bit_and_below : (k a : ℕ) → a < 2 ^ k → bit_and a (2 ^ k) ≡ 0
bit_and_below zero zero h = refl
bit_and_below zero (suc a) h = absurd (omega arith)
bit_and_below (suc k) a h =
    let e : 2 ^ suc k ≡ 2 ^ k * 2 = pow-suc 2 k in
    let half : 2 ^ suc k / 2 ≡ 2 ^ k = omega arith in
    omega (
      arith,
      bit_and_halves a (2 ^ suc k),
      ap (bit_and (a / 2)) half,
      bit_and_below k (a / 2) (omega arith),
    )

pub bit_and_above : (k a : ℕ) → 2 ^ k ≤ a → a < 2 * 2 ^ k → bit_and a (2 ^ k) ≡ 2 ^ k
bit_and_above zero a l h =
    omega (arith, bit_and_halves a 1, no_common_bit (a / 2) (a / 2) (omega arith))
bit_and_above (suc k) a l h =
    let e : 2 ^ suc k ≡ 2 ^ k * 2 = pow-suc 2 k in
    let half : 2 ^ suc k / 2 ≡ 2 ^ k = omega arith in
    omega (
      arith,
      bit_and_halves a (2 ^ suc k),
      ap (bit_and (a / 2)) half,
      bit_and_above k (a / 2) (omega arith) (omega arith),
    )
