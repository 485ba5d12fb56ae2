-- ===== src/Memory/Copies.antt =====
-- What the copies into the memory leave in its cells.
use switch_v.Common.{ℕ, zero, suc, ◌+◌, ◌-◌, ◌<◌, ◌≡◌, refl, ap, fun_ext, ◌∙◌, arith, ◌&&◌}
use switch_v.Common.{◌⊎◌, inl, inr, ltb, leb, if◌then◌else◌, update}
use switch_v.Common.Word.{u8}
use switch_v.Memory.{length, read_bytes, write_bytes, fill_bytes}

-- The cells from `addr` to before `addr + n`, each with a value by its place, and the others.
abbrev pub overlaid : (ℕ → ℕ) → ℕ → ℕ → (ℕ → ℕ) → ℕ → ℕ
overlaid cell addr n value j = if leb addr j && ltb j (addr + n) then value (j - addr) else cell j

pub length-read_bytes : (c : ℕ → ℕ) (from n : ℕ) → length (read_bytes c from n) ≡ n
unfolding read_bytes
length-read_bytes c from zero = refl
length-read_bytes c from (suc n) = ap suc (length-read_bytes c (from + 1) n)

trichotomy : (a b : ℕ) → (a < b) ⊎ ((a ≡ b) ⊎ (b < a))
trichotomy a b = ground arith

overlaid-suc :
    (cell : ℕ → ℕ) (addr n v : ℕ) (later value : ℕ → ℕ)
    → v ≡ value 0
    → ((k : ℕ) → later k ≡ value (1 + k))
    → overlaid (update cell addr v) (addr + 1) n later ≡ overlaid cell addr (suc n) value
overlaid-suc cell addr n v later value first others = fun_ext λ j. elim (trichotomy j addr) [
  | inl below ↦ ground arith
  | inr (inl here) ↦ rw here (grind (arith, first))
  | inr (inr above) ↦
      let same : 1 + (j - (addr + 1)) ≡ j - addr = omega arith in
      rw (others (j - (addr + 1)), same) (grind arith)
]

pub write_bytes-read_bytes :
    (c cell : ℕ → ℕ) (addr from n : ℕ)
    → write_bytes cell addr (read_bytes c from n) ≡ overlaid cell addr n (λ k. u8 (c (from + k)))
unfolding read_bytes write_bytes
write_bytes-read_bytes c cell addr from zero = fun_ext λ j. ground arith
write_bytes-read_bytes c cell addr from (suc n) =
    write_bytes-read_bytes c (update cell addr (u8 (c from))) (addr + 1) (from + 1) n
    ∙ overlaid-suc cell addr n (u8 (c from)) (λ k. u8 (c (from + 1 + k))) (λ k. u8 (c (from + k)))
        (let start : from ≡ from + 0 = omega arith in ap (λ x. u8 (c x)) start)
        (λ k. let shift : from + 1 + k ≡ from + (1 + k) = omega arith in ap (λ x. u8 (c x)) shift)

pub fill_bytes_lem :
    (cell : ℕ → ℕ) (addr input n : ℕ)
    → fill_bytes cell addr input n ≡ overlaid cell addr n (λ k. u8 input)
unfolding fill_bytes
fill_bytes_lem cell addr input zero = fun_ext λ j. ground arith
fill_bytes_lem cell addr input (suc n) =
    fill_bytes_lem (update cell addr (u8 input)) (addr + 1) input n
    ∙ overlaid-suc cell addr n _ _ (λ k. u8 input) refl (λ k. refl)
