-- ===== src/Common/Bits.antt =====
-- `&`, `|` and `^` at variables: the digit recursion behind the native operations, the fields
-- that a mask of neighbouring bits cuts out, and the sum that `|` makes of separate fields.
use Prim.Native.Nat.{ℕ, zero, suc, ◌+◌, ◌-◌, ◌*◌, ◌/◌, ◌%◌, ◌^◌, ◌≤◌, ◌<◌, min, max}
use Prim.Native.Nat.{bit_and, bit_or, bit_xor, digits, bitwise, differ}
use Prim.Native.Nat.{bit_and-bitwise, bit_or-bitwise, bit_xor-bitwise}
use mathlib.Core.Path.{◌≡◌, refl, ap, ◌∙◌}
use native.Mathlib.Nat.{le_refl, pow-suc, one-le-pow, div-div-eq-div-mul, div-one}
use native.Mathlib.Nat.{mod-lt, div-add-mod, add-mul-mod_self_left, mod-eq_of_lt}
use native.Mathlib.Omega.{arith}

-- The operations stand for a recursion on binary digits with fuel. Any fuel from `a` on serves.
module _ (rest : ℕ → ℕ) (digit : ℕ → ℕ → ℕ) where
  fuel_enough : (x y k l : ℕ) → x ≤ k → x ≤ l → digits rest digit k x y ≡ digits rest digit l x y
  fuel_enough zero y zero zero h g = refl
  fuel_enough zero y (suc k) zero h g = refl
  fuel_enough zero y zero (suc l) h g = refl
  fuel_enough zero y (suc k) (suc l) h g = refl
  fuel_enough (suc x) y zero l h g = absurd (omega arith)
  fuel_enough (suc x) y (suc k) zero h g = absurd (omega arith)
  fuel_enough (suc x) y (suc k) (suc l) h g =
      let half = fuel_enough (suc x / 2) (y / 2) k l (omega arith) (omega arith) in rw half

  lowest_digit :
      (x y : ℕ)
      → bitwise rest digit (suc x) y
        ≡ bitwise rest digit (suc x / 2) (y / 2) * 2 + digit (suc x % 2) (y % 2)
  lowest_digit x y =
      let enough = fuel_enough (suc x / 2) (y / 2) x (suc x / 2) (omega arith) (le_refl _) in
      omega (arith, enough)

pub bit_and_step : (x y : ℕ) → bit_and x y ≡ bit_and (x / 2) (y / 2) * 2 + min (x % 2) (y % 2)
bit_and_step zero y = simp bit_and-bitwise (omega arith)
bit_and_step (suc x) y = simp bit_and-bitwise (lowest_digit (λ d. 0) min x y)

pub bit_or_step : (x y : ℕ) → bit_or x y ≡ bit_or (x / 2) (y / 2) * 2 + max (x % 2) (y % 2)
bit_or_step zero y = simp bit_or-bitwise (omega arith)
bit_or_step (suc x) y = simp bit_or-bitwise (lowest_digit (λ d. d) max x y)

pub zero-bit_and : (b : ℕ) → bit_and 0 b ≡ 0
zero-bit_and b = bit_and-bitwise 0 b

pub zero-bit_or : (b : ℕ) → bit_or 0 b ≡ b
zero-bit_or b = bit_or-bitwise 0 b

pub zero-bit_xor : (b : ℕ) → bit_xor 0 b ≡ b
zero-bit_xor b = bit_xor-bitwise 0 b

pub bit_xor_step : (a b : ℕ) → bit_xor a b ≡ bit_xor (a / 2) (b / 2) * 2 + differ (a % 2) (b % 2)
bit_xor_step zero b = simp bit_xor-bitwise (omega arith)
bit_xor_step (suc a) b = simp bit_xor-bitwise (lowest_digit (λ y. y) differ a b)

differ-lt : (x y : ℕ) → x < 2 → y < 2 → differ x y < 2
differ-lt zero y p q = q
differ-lt (suc x) zero p q = p
differ-lt (suc x) (suc y) p q = differ-lt x y (omega arith) (omega arith)

double_pow : (q k : ℕ) → q * 2 ^ suc k ≡ 2 * (q * 2 ^ k)
double_pow q k = omega (arith, ap (λ (t : ℕ). q * t) (pow-suc 2 k))

mod-double : (k a : ℕ) → a % 2 ^ suc k ≡ a / 2 % 2 ^ k * 2 + a % 2
mod-double k a =
    let p : ℕ = 2 ^ k in
    let q : ℕ = a / 2 / p in
    let r : ℕ = a / 2 % p in
    let small : r * 2 + a % 2 < 2 ^ suc k =
      omega (arith, pow-suc 2 k, mod-lt (a / 2) {m = p} (one-le-pow k 2 (omega arith))) in
    let parts : a ≡ r * 2 + a % 2 + 2 ^ suc k * q =
      omega (arith, div-add-mod (a / 2) p, ap (λ (t : ℕ). t * q) (pow-suc 2 k)) in
    ap (λ (t : ℕ). t % 2 ^ suc k) parts
    ∙ add-mul-mod_self_left (r * 2 + a % 2) (2 ^ suc k) q
    ∙ mod-eq_of_lt small

-- The bound only feeds the recursion.
bit_and-zero : (n a : ℕ) → a ≤ n → bit_and a 0 ≡ 0
bit_and-zero n zero h = refl
bit_and-zero zero (suc a) h = absurd (omega arith)
bit_and-zero (suc n) (suc a) h =
    omega (arith, bit_and_step (suc a) 0, bit_and-zero n (suc a / 2) (omega arith))

-- The `k` low bits.
pub bit_and_low : (k a : ℕ) → bit_and a (2 ^ k - 1) ≡ a % 2 ^ k
bit_and_low zero a = omega (arith, bit_and-zero a a (le_refl a))
bit_and_low (suc k) a = ground (
  arith,
  bit_and_step a (2 ^ suc k - 1),
  pow-suc 2 k,
  one-le-pow k 2,
  bit_and_low k (a / 2),
  mod-double k a,
)

-- A mask that is shifted up reads the field above.
pub bit_and_field : (s a m : ℕ) → bit_and a (m * 2 ^ s) ≡ bit_and (a / 2 ^ s) m * 2 ^ s
bit_and_field zero a m = ground (arith, div-one a)
bit_and_field (suc s) a m = ground (
  arith,
  bit_and_step a (m * 2 ^ suc s),
  double_pow m s,
  double_pow (bit_and (a / 2 ^ suc s) m) s,
  bit_and_field s (a / 2) m,
  pow-suc 2 s,
  div-div-eq-div-mul a 2 (2 ^ s),
)

-- `|` of a low field and a field above it is their sum.
pub bit_or_above : (k q r : ℕ) → r < 2 ^ k → bit_or r (q * 2 ^ k) ≡ r + q * 2 ^ k
bit_or_above zero q zero fits = omega (arith, zero-bit_or (q * 2 ^ 0))
bit_or_above zero q (suc r) fits = absurd (omega arith)
bit_or_above (suc k) q r fits = ground (
  arith,
  bit_or_step r (q * 2 ^ suc k),
  double_pow q k,
  pow-suc 2 k,
  bit_or_above k q (r / 2) (omega (arith, pow-suc 2 k)),
)

bit_or-zero : (n b : ℕ) → b ≤ n → bit_or b 0 ≡ b
bit_or-zero n zero h = zero-bit_or 0
bit_or-zero zero (suc b) h = absurd (omega arith)
bit_or-zero (suc n) (suc b) h =
    omega (arith, bit_or_step (suc b) 0, bit_or-zero n (suc b / 2) (omega arith))

-- The same with the field first.
pub bit_or_below : (k q r : ℕ) → r < 2 ^ k → bit_or (q * 2 ^ k) r ≡ q * 2 ^ k + r
bit_or_below zero q zero fits =
    omega (arith, bit_or-zero (q * 2 ^ 0) (q * 2 ^ 0) (le_refl (q * 2 ^ 0)))
bit_or_below zero q (suc r) fits = absurd (omega arith)
bit_or_below (suc k) q r fits = ground (
  arith,
  bit_or_step (q * 2 ^ suc k) r,
  double_pow q k,
  pow-suc 2 k,
  bit_or_below k q (r / 2) (omega (arith, pow-suc 2 k)),
)

pub bit_and-le : (k a b : ℕ) → a < 2 ^ k → bit_and a b ≤ a
bit_and-le zero zero b h = omega (arith, zero-bit_and b)
bit_and-le zero (suc a) b h = absurd (omega arith)
bit_and-le (suc k) a b h = omega (
  arith,
  bit_and_step a b,
  pow-suc 2 k,
  bit_and-le k (a / 2) (b / 2) (omega (arith, pow-suc 2 k)),
)

pub bit_or-lt : (k a b : ℕ) → a < 2 ^ k → b < 2 ^ k → bit_or a b < 2 ^ k
bit_or-lt zero zero b h h' = omega (arith, zero-bit_or b)
bit_or-lt zero (suc a) b h h' = absurd (omega arith)
bit_or-lt (suc k) a b h h' = omega (
  arith,
  bit_or_step a b,
  pow-suc 2 k,
  bit_or-lt k (a / 2) (b / 2) (omega (arith, pow-suc 2 k)) (omega (arith, pow-suc 2 k)),
)

pub bit_xor-lt : (k a b : ℕ) → a < 2 ^ k → b < 2 ^ k → bit_xor a b < 2 ^ k
bit_xor-lt zero zero b h h' = omega (arith, zero-bit_xor b)
bit_xor-lt zero (suc a) b h h' = absurd (omega arith)
bit_xor-lt (suc k) a b h h' = omega (
  arith,
  bit_xor_step a b,
  pow-suc 2 k,
  differ-lt (a % 2) (b % 2),
  bit_xor-lt k (a / 2) (b / 2) (omega (arith, pow-suc 2 k)) (omega (arith, pow-suc 2 k)),
)

-- The bound only feeds the recursion.
bit_and_comm_below : (n a b : ℕ) → a ≤ n → bit_and a b ≡ bit_and b a
bit_and_comm_below n zero b h = omega (arith, zero-bit_and b, bit_and-zero b b (le_refl b))
bit_and_comm_below zero (suc a) b h = absurd (omega arith)
bit_and_comm_below (suc n) (suc a) b h = omega (
  arith,
  bit_and_step (suc a) b,
  bit_and_step b (suc a),
  bit_and_comm_below n (suc a / 2) (b / 2) (omega arith),
)

pub bit_and_comm : (a b : ℕ) → bit_and a b ≡ bit_and b a
bit_and_comm a b = bit_and_comm_below a a b (le_refl a)

pub bit_and-le_right : (k a b : ℕ) → b < 2 ^ k → bit_and a b ≤ b
bit_and-le_right k a b h = omega (arith, bit_and_comm a b, bit_and-le k b a h)
