-- ===== src/Prelude/Bits.antt =====
-- Facts about `bit_and` and `bit_or` at variables: masks and disjoint fields as arithmetic.
use Prim.Native.Nat.{
  ℕ, zero, suc, ◌+◌, ◌*◌, ◌/◌, ◌%◌, ◌^◌, ◌≤◌, ◌<◌, min, max, bit_and, bit_or, digits,
  bit_and-bitwise, bit_or-bitwise,
}
use mathlib.Core.Path.{◌≡◌, refl, sym, ap, ◌∙◌}
use native.Mathlib.Omega.{arith}
use native.Mathlib.Nat.{pow-suc, pow-succ', div-div-eq-div-mul}

-- Both operations go through the binary digits of their first argument; `last` is what is left of
-- the second one when those are used up, and `op` joins two digits.
module _ (last : ℕ → ℕ) (op : ℕ → ℕ → ℕ) where
  digits_of_zero : (fuel b : ℕ) → digits last op fuel 0 b ≡ last b
  digits_of_zero zero b = refl
  digits_of_zero (suc fuel) b = refl

  -- Any fuel from the number on gives the same digits.
  enough_fuel : (k l b a : ℕ) → a ≤ k → a ≤ l → digits last op k a b ≡ digits last op l a b
  enough_fuel k l b zero hk hl = digits_of_zero k b ∙ sym (digits_of_zero l b)
  enough_fuel zero l b (suc a) hk hl = absurd (omega arith)
  enough_fuel (suc k) zero b (suc a) hk hl = absurd (omega arith)
  enough_fuel (suc k) (suc l) b (suc a) hk hl =
      let rest = enough_fuel k l (b / 2) (suc a / 2) (omega arith) (omega arith) in
      omega (arith, rest)

nothing_and : (b : ℕ) → bit_and 0 b ≡ 0
nothing_and = bit_and-bitwise 0

nothing_or : (b : ℕ) → bit_or 0 b ≡ b
nothing_or = bit_or-bitwise 0

-- The lowest digit apart.
bit_and_halves : (v w : ℕ) → bit_and v w ≡ bit_and (v / 2) (w / 2) * 2 + min (v % 2) (w % 2)
bit_and_halves zero w = omega (arith, nothing_and w, nothing_and (w / 2))
bit_and_halves (suc v) w =
    let half : ℕ = suc v / 2 in
    let fuel = enough_fuel (λ _. zero) min v half (w / 2) half (omega arith) (omega arith) in
    omega (arith, fuel, bit_and-bitwise half (w / 2), bit_and-bitwise (suc v) w)

bit_or_halves : (v w : ℕ) → bit_or v w ≡ bit_or (v / 2) (w / 2) * 2 + max (v % 2) (w % 2)
bit_or_halves zero w = omega (arith, nothing_or w, nothing_or (w / 2))
bit_or_halves (suc v) w =
    let half : ℕ = suc v / 2 in
    let fuel = enough_fuel (λ c. c) max v half (w / 2) half (omega arith) (omega arith) in
    omega (arith, fuel, bit_or-bitwise half (w / 2), bit_or-bitwise (suc v) w)

and_nothing_below : (k v : ℕ) → v < k → bit_and v 0 ≡ 0
and_nothing_below zero v h = absurd (omega arith)
and_nothing_below (suc k) zero h = refl
and_nothing_below (suc k) (suc v) h =
    let rest = and_nothing_below k (suc v / 2) (omega arith) in
    omega (arith, rest, bit_and_halves (suc v) 0)

and_nothing : (v : ℕ) → bit_and v 0 ≡ 0
and_nothing v = and_nothing_below (suc v) v (omega arith)

or_nothing_below : (k v : ℕ) → v < k → bit_or v 0 ≡ v
or_nothing_below zero v h = absurd (omega arith)
or_nothing_below (suc k) zero h = refl
or_nothing_below (suc k) (suc v) h =
    let rest = or_nothing_below k (suc v / 2) (omega arith) in
    omega (arith, rest, bit_or_halves (suc v) 0)

or_nothing : (v : ℕ) → bit_or v 0 ≡ v
or_nothing v = or_nothing_below (suc v) v (omega arith)

double : (x k : ℕ) → x * 2 ^ suc k ≡ x * 2 ^ k * 2
double x k = omega (arith, ap (λ (t : ℕ). x * t) (pow-suc 2 k))

halve : (v k : ℕ) → v / 2 / 2 ^ k ≡ v / 2 ^ suc k
halve v k = div-div-eq-div-mul v 2 (2 ^ k) ∙ ap (λ (t : ℕ). v / t) (sym (pow-succ' 2 k))

-- Disjoint fields: the high one is a multiple of 2 ^ k and the low one is below it.
pub bit_or-disjoint : (k x y : ℕ) → y < 2 ^ k → bit_or (x * 2 ^ k) y ≡ x * 2 ^ k + y
bit_or-disjoint zero x y h =
    let e : y ≡ 0 = omega arith in rw e (omega (arith, or_nothing (x * 2 ^ 0)))
bit_or-disjoint (suc k) x y h =
    let half : x * 2 ^ suc k / 2 ≡ x * 2 ^ k = omega (arith, double x k) in
    let low : y / 2 < 2 ^ k = omega (arith, pow-suc 2 k) in
    let step = bit_or_halves (x * 2 ^ suc k) y in
    let step' = rw half at step in omega (arith, double x k, step', bit_or-disjoint k x (y / 2) low)

pub bit_or-disjoint_low : (k x y : ℕ) → y < 2 ^ k → bit_or y (x * 2 ^ k) ≡ y + x * 2 ^ k
bit_or-disjoint_low zero x y h =
    let e : y ≡ 0 = omega arith in rw e (omega (arith, nothing_or (x * 2 ^ 0)))
bit_or-disjoint_low (suc k) x y h =
    let half : x * 2 ^ suc k / 2 ≡ x * 2 ^ k = omega (arith, double x k) in
    let low : y / 2 < 2 ^ k = omega (arith, pow-suc 2 k) in
    let step = bit_or_halves y (x * 2 ^ suc k) in
    let step' = rw half at step in
    omega (arith, double x k, step', bit_or-disjoint_low k x (y / 2) low)

-- A mask whose low k bits are zero selects from the bits above k.
pub bit_and_high : (k m v : ℕ) → bit_and v (m * 2 ^ k) ≡ bit_and (v / 2 ^ k) m * 2 ^ k
bit_and_high zero m v =
    let one : m * 2 ^ 0 ≡ m = omega arith in
    let whole : v / 2 ^ 0 ≡ v = omega arith in rw (one, whole) (omega arith)
bit_and_high (suc k) m v =
    let half : m * 2 ^ suc k / 2 ≡ m * 2 ^ k = omega (arith, double m k) in
    let step = bit_and_halves v (m * 2 ^ suc k) in
    let step' = rw half at step in
    let ih = bit_and_high k m (v / 2) in
    let ih' = rw (halve v k) at ih in
    omega
      (arith, double m k, ap (λ (t : ℕ). bit_and (v / 2 ^ suc k) m * t) (pow-suc 2 k), step', ih')

bit_and-one : (a : ℕ) → bit_and a 1 ≡ a % 2
bit_and-one a = omega (arith, bit_and_halves a 1, and_nothing (a / 2))

bit_and-15 : (a : ℕ) → bit_and a 15 ≡ a % 16
bit_and-15 a = omega (
  arith,
  bit_and_halves a 15,
  bit_and_halves (a / 2) 7,
  bit_and_halves (a / 2 / 2) 3,
  bit_and-one (a / 2 / 2 / 2),
)

pub bit_and-255 : (a : ℕ) → bit_and a 255 ≡ a % 256
bit_and-255 a = omega (
  arith,
  bit_and_halves a 255,
  bit_and_halves (a / 2) 127,
  bit_and_halves (a / 2 / 2) 63,
  bit_and_halves (a / 2 / 2 / 2) 31,
  bit_and-15 (a / 2 / 2 / 2 / 2),
)
