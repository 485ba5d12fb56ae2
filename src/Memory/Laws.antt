-- ===== src/Memory/Laws.antt =====
-- Reads after writes of src/memory.h, and the range of what a read gives.
use switch_v.Common.{◌/◌, ℕ, ◌+◌, ◌%◌, ◌^◌, ◌≤◌, ◌<◌, ◌≡◌, arith, ◌⊎◌}
use switch_v.Common.Outcome.{ok}
use switch_v.Memory.{Memory, mem_rb, mem_rh, mem_rw, mem_wb, mem_wh, mem_ww, word_bytes}

-- Every cell is a byte.
pub record IsBytes (m : Memory) : Type 0 where
  pub byte : (a : ℕ) → m.cell a < 2 ^ 8

-- The memory after a word has been stored.
abbrev pub with_word : Memory → ℕ → ℕ → Memory
with_word m addr v = record m { cell = word_bytes m.cell addr v }

pub mem_ww-mapped :
    (m : Memory) (addr v : ℕ) → addr + 4 ≤ m.size → mem_ww m addr v ≡ ok (with_word m addr v)
unfolding mem_ww
mem_ww-mapped m addr v fits = ground arith

pub mem_rw-with_word :
    (m : Memory) (addr v : ℕ)
    → v < 2 ^ 32
    → addr + 4 ≤ m.size
    → mem_rw (with_word m addr v) addr ≡ ok v
unfolding mem_rw
mem_rw-with_word m addr v small fits = ground arith

-- A word that is written is read back, at every mapped address, aligned or not, and so are its two
-- halves and its four bytes, the lowest first.
pub mem_rw-mem_ww :
    (m : Memory) (addr v : ℕ)
    → v < 2 ^ 32
    → addr + 4 ≤ m.size
    → (m' : Memory) × (mem_ww m addr v ≡ ok m')
      × (mem_rw m' addr ≡ ok v)
      × (mem_rh m' addr ≡ ok (v % 2 ^ 16))
      × (mem_rh m' (addr + 2) ≡ ok (v / 2 ^ 16))
      × (mem_rb m' addr ≡ ok (v % 2 ^ 8))
      × (mem_rb m' (addr + 1) ≡ ok (v / 2 ^ 8 % 2 ^ 8))
      × (mem_rb m' (addr + 2) ≡ ok (v / 2 ^ 16 % 2 ^ 8))
      × (mem_rb m' (addr + 3) ≡ ok (v / 2 ^ 24))
unfolding mem_rh mem_rb
mem_rw-mem_ww m addr v small fits = (
  with_word m addr v,
  mem_ww-mapped m addr v fits,
  mem_rw-with_word m addr v small fits,
  ground arith,
  ground arith,
  ground arith,
  ground arith,
  ground arith,
  ground arith,
)

-- A store of a word leaves every word apart from it alone.
pub mem_rw-mem_ww_apart :
    (m m' : Memory) (addr other v : ℕ)
    → mem_ww m addr v ≡ ok m'
    → (addr + 4 ≤ other) ⊎ (other + 4 ≤ addr)
    → mem_rw m' other ≡ mem_rw m other
unfolding mem_rw mem_ww
mem_rw-mem_ww_apart m m' addr other v h apart = ground arith

-- A word, and nothing else, is read of bytes.
pub mem_rw-lt : (m : Memory) (addr v : ℕ) → IsBytes m → mem_rw m addr ≡ ok v → v < 2 ^ 32
unfolding mem_rw
mem_rw-lt m addr v b h =
    ground (arith, b.byte addr, b.byte (addr + 1), b.byte (addr + 2), b.byte (addr + 3))

pub mem_rh-lt : (m : Memory) (addr v : ℕ) → IsBytes m → mem_rh m addr ≡ ok v → v < 2 ^ 16
unfolding mem_rh
mem_rh-lt m addr v b h = ground (arith, b.byte addr, b.byte (addr + 1))

pub mem_rb-lt : (m : Memory) (addr v : ℕ) → IsBytes m → mem_rb m addr ≡ ok v → v < 2 ^ 8
unfolding mem_rb
mem_rb-lt m addr v b h = ground (arith, b.byte addr)

-- A store that succeeds keeps the size of the memory and keeps every cell a byte.
pub record Kept (m m' : Memory) : Type 0 where
  pub same_size : m'.size ≡ m.size
  pub bytes : IsBytes m'

pub mem_ww-Kept : (m m' : Memory) (addr v : ℕ) → IsBytes m → mem_ww m addr v ≡ ok m' → Kept m m'
unfolding mem_ww
mem_ww-Kept m m' addr v b h = record {
  same_size = ground arith;
  bytes = record { byte = λ a. ground (arith, b.byte a) };
}

pub mem_wh-Kept : (m m' : Memory) (addr v : ℕ) → IsBytes m → mem_wh m addr v ≡ ok m' → Kept m m'
unfolding mem_wh
mem_wh-Kept m m' addr v b h = record {
  same_size = ground arith;
  bytes = record { byte = λ a. ground (arith, b.byte a) };
}

pub mem_wb-Kept : (m m' : Memory) (addr v : ℕ) → IsBytes m → mem_wb m addr v ≡ ok m' → Kept m m'
unfolding mem_wb
mem_wb-Kept m m' addr v b h = record {
  same_size = ground arith;
  bytes = record { byte = λ a. ground (arith, b.byte a) };
}
