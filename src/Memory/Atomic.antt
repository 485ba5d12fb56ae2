-- ===== src/Memory/Atomic.antt =====
-- The atomic operations of src/memory.h: what they give back and what they leave in memory.
use switch_v.Common.{ℕ, suc, ◌+◌, ◌^◌, ◌≤◌, ◌<◌, ◌≡◌, refl, arith}
use switch_v.Common.{Bool, ltb, if◌then◌else◌, Bool-cases, inl, inr}
use switch_v.Common.Int.{ltb_ℤ}
use switch_v.Common.Word.{signed32, add32, not32}
use switch_v.Common.Outcome.{ok, ◌>>=◌}
use switch_v.Memory.{
  Memory, mem_rw, mem_ww, mem_fetch, mem_cas, mem_cas_loop, mem_aread, keep_or_cas,
}
use switch_v.Memory.{Fetched, mem_aadd, mem_aand, mem_aor, mem_axor, mem_aswp}
use switch_v.Common.{◌*◌, ◌⊎◌, bit_and, bit_or, bit_xor}
use switch_v.Common.Bits.{bit_and-le, bit_or-lt, bit_xor-lt}
use switch_v.Memory.{mem_amax, mem_amin, mem_amaxu, mem_aminu, mem_anand}
use switch_v.Memory.Laws.{with_word, mem_rw-mem_ww_apart, mem_ww-mapped, mem_rw-with_word, IsBytes}

-- The word at an address, whether or not it is mapped.
abbrev pub word_at : Memory → ℕ → ℕ
word_at m addr =
    m.cell addr
    + m.cell (addr + 1) * 2 ^ 8
    + m.cell (addr + 2) * 2 ^ 16
    + m.cell (addr + 3) * 2 ^ 24

pub mem_rw-mapped :
    (m : Memory) (addr : ℕ) → addr + 4 ≤ m.size → mem_rw m addr ≡ ok (word_at m addr)
unfolding mem_rw
mem_rw-mapped m addr fits = ground arith

-- A compare-and-exchange that is run with two attempts or more ends, whatever it expects, and it
-- stores the new word even if the memory holds another word than the expected one.
pub mem_cas_loop_stores :
    (n : ℕ) (m : Memory) (addr val expected : ℕ)
    → addr + 4 ≤ m.size
    → mem_cas_loop (suc (suc n)) m addr val expected ≡ mem_ww m addr val
unfolding mem_cas_loop
mem_cas_loop_stores n m addr val expected fits =
    ground (arith, mem_ww-mapped m addr val fits, mem_rw-mapped m addr fits)

-- The operation gives the word that was there, leaves `f` of it and the operand there, and leaves
-- every word apart from it alone.
pub record Fetches (f : ℕ → ℕ → ℕ) (m : Memory) (addr val : ℕ) (result : Fetched) : Type 0 where
  pub m' : Memory
  pub fetches : result ≡ ok (word_at m addr, m')
  pub now : mem_rw m' addr ≡ ok (f (word_at m addr) val)
  pub elsewhere :
      (other : ℕ) → (addr + 4 ≤ other) ⊎ (other + 4 ≤ addr) → mem_rw m' other ≡ mem_rw m other

mem_fetch-Fetches :
    (f : ℕ → ℕ → ℕ) (m : Memory) (addr val : ℕ)
    → addr + 4 ≤ m.size
    → f (word_at m addr) val < 2 ^ 32
    → Fetches f m addr val (mem_fetch (λ old. f old val) m addr)
mem_fetch-Fetches f m addr val fits small = record {
  m' = with_word m addr new;
  fetches = unfold mem_fetch in rw (mem_rw-mapped m addr fits, stored);
  now = mem_rw-with_word m addr new small fits;
  elsewhere = λ other apart. mem_rw-mem_ww_apart m _ addr other new stored apart;
}
  where
    new : ℕ
    new = f (word_at m addr) val

    stored : mem_ww m addr new ≡ ok (with_word m addr new)
    stored = mem_ww-mapped m addr new fits

pub word_at-lt : (m : Memory) (addr : ℕ) → IsBytes m → word_at m addr < 2 ^ 32
word_at-lt m addr b =
    omega (arith, b.byte addr, b.byte (addr + 1), b.byte (addr + 2), b.byte (addr + 3))

-- An AMO that keeps the old word by a test, and else exchanges it.
keep_or_cas-Fetches :
    (keep : ℕ → ℕ → Bool) (m : Memory) (addr val : ℕ)
    → addr + 4 ≤ m.size
    → val < 2 ^ 32
    → Fetches
        (λ old v. if keep old v then old else v)
        m
        addr
        val
        (mem_aread m addr >>= λ old. keep_or_cas (keep old val) m addr val old)
unfolding mem_aread mem_cas
keep_or_cas-Fetches keep m addr val fits small = elim (Bool-cases (keep (word_at m addr) val)) [
  | inl kept ↦ record {
    m' = m;
    fetches = rw (mem_rw-mapped m addr fits, kept);
    now = rw kept (mem_rw-mapped m addr fits);
    elsewhere = λ other apart. refl;
  }
  | inr moved ↦ record {
    m' = with_word m addr val;
    fetches = rw (
      mem_rw-mapped m addr fits,
      moved,
      mem_cas_loop_stores 0 m addr val (word_at m addr) fits,
      mem_ww-mapped m addr val fits,
    );
    now = rw moved (mem_rw-with_word m addr val small fits);
    elsewhere =
        λ other apart. mem_rw-mem_ww_apart m _ addr other val (mem_ww-mapped m addr val fits) apart;
  }
]

abbrev pub signed_max : ℕ → ℕ → ℕ
signed_max a b = if ltb_ℤ (signed32 b) (signed32 a) then a else b

abbrev pub signed_min : ℕ → ℕ → ℕ
signed_min a b = if ltb_ℤ (signed32 a) (signed32 b) then a else b

abbrev pub unsigned_max : ℕ → ℕ → ℕ
unsigned_max a b = if ltb b a then a else b

abbrev pub unsigned_min : ℕ → ℕ → ℕ
unsigned_min a b = if ltb a b then a else b

-- Every AMO of the emulator, and NAND, on a mapped word and a 32-bit operand gives the old word, leaves the
-- sum modulo 2 ^ 32, the bitwise function, the operand or the greater or lesser of the two there,
-- and changes no word apart from it.
pub amo-Fetches :
    (m : Memory) (addr val : ℕ)
    → addr + 4 ≤ m.size
    → IsBytes m
    → val < 2 ^ 32
    → Fetches add32 m addr val (mem_aadd m addr val)
      × Fetches bit_and m addr val (mem_aand m addr val)
      × Fetches bit_or m addr val (mem_aor m addr val)
      × Fetches bit_xor m addr val (mem_axor m addr val)
      × Fetches (λ old v. v) m addr val (mem_aswp m addr val)
      × Fetches signed_max m addr val (mem_amax m addr val)
      × Fetches signed_min m addr val (mem_amin m addr val)
      × Fetches unsigned_max m addr val (mem_amaxu m addr val)
      × Fetches unsigned_min m addr val (mem_aminu m addr val)
      × Fetches (λ old v. not32 (bit_and old v)) m addr val (mem_anand m addr val)
unfolding mem_aadd mem_aand mem_aor mem_axor mem_aswp mem_amax mem_amin mem_amaxu mem_aminu
    mem_anand
amo-Fetches m addr val fits b small = (
  mem_fetch-Fetches add32 m addr val fits (omega arith),
  mem_fetch-Fetches bit_and m addr val fits (omega (arith, word, bit_and-le 32 old val)),
  mem_fetch-Fetches bit_or m addr val fits (bit_or-lt 32 old val word small),
  mem_fetch-Fetches bit_xor m addr val fits (bit_xor-lt 32 old val word small),
  mem_fetch-Fetches (λ old v. v) m addr val fits small,
  keep_or_cas-Fetches (λ old v. ltb_ℤ (signed32 v) (signed32 old)) m addr val fits small,
  keep_or_cas-Fetches (λ old v. ltb_ℤ (signed32 old) (signed32 v)) m addr val fits small,
  keep_or_cas-Fetches (λ old v. ltb v old) m addr val fits small,
  keep_or_cas-Fetches (λ old v. ltb old v) m addr val fits small,
  mem_fetch-Fetches (λ old v. not32 (bit_and old v)) m addr val fits (omega arith),
)
  where
    old : ℕ
    old = word_at m addr

    word : old < 2 ^ 32
    word = word_at-lt m addr b
