-- ===== src/Memory.antt =====
-- The guest's memory, src/memory.c and src/memory.h: `vmem` is one mapping of `ctx.memory_size`
-- bytes, and `MAP_ADDR(addr)` adds the address to it with no check. A byte outside of the mapping
-- is not the guest's, and what an access there does is `undefined`. Words are little endian, as on the
-- hosts that the program is built for. Every access is one step here, in the order of the program
-- that makes it, and so the memory orders of the atomic operations change nothing. The read and the
-- loop of compare-and-exchange that make AMOMAX, AMOMIN, AMOMAXU and AMOMINU are one step too: what
-- another core stores between them is not seen.
use switch_v.Common.{ℕ, zero, suc, ◌+◌, ◌-◌, ◌*◌, ◌/◌, ◌^◌, bit_and, bit_or, bit_xor}
use switch_v.Common.{Bool, Option, none, some, List, [], ◌∷◌}
use switch_v.Common.{ltb, leb, ◌==◌, if◌then◌else◌, update}
use switch_v.Common.Int.{ℤ, ltb_ℤ}
use switch_v.Common.Word.{u8, u16, u32, add32, not32, signed32}
use switch_v.Common.Outcome.{Outcome, ok, stop, exits, aborts, undefined, hangs, ◌>>=◌}
pub mod Laws
pub mod Atomic
pub mod Words
pub mod Copies

pub record Memory : Type 0 where
  pub size : ℕ
  pub cell : ℕ → ℕ

abbrev pub page_size : ℕ
page_size = 4096

-- `mmap` gives the address of zeroed memory, or fails.
unfoldable pub mem_init : Option ℕ → ℕ → Outcome Memory
mem_init none memory_size = stop (exits 1)
mem_init (some vmem) memory_size =
    if bit_and vmem (page_size - 1) == 0
    then ok (record { size = memory_size; cell = λ _. 0 })
    else stop aborts

-- `munmap` succeeds, or not.
unfoldable pub mem_deinit : Bool → Outcome {0} Unit
mem_deinit unmapped = if unmapped then ok tt else stop (exits 1)

unfoldable pub valid_addr : ℕ → ℕ → ℕ → Bool
valid_addr memory_size addr io_sz = ltb (addr + io_sz) memory_size

-- `n` bytes from `addr` on, if they are mapped.
abbrev pub in_map {ℓ} : {A : Type ℓ} → Memory → ℕ → ℕ → A → Outcome A
in_map m addr n a = if leb (addr + n) m.size then ok a else stop undefined

unfoldable pub mem_rb : Memory → ℕ → Outcome ℕ
mem_rb m addr = in_map m addr 1 (m.cell addr)

unfoldable pub mem_rh : Memory → ℕ → Outcome ℕ
mem_rh m addr = in_map m addr 2 (m.cell addr + m.cell (addr + 1) * 2 ^ 8)

unfoldable pub mem_rw : Memory → ℕ → Outcome ℕ
mem_rw m addr = in_map m addr 4 (
    m.cell addr
    + m.cell (addr + 1) * 2 ^ 8
    + m.cell (addr + 2) * 2 ^ 16
    + m.cell (addr + 3) * 2 ^ 24)

unfoldable pub mem_wb : Memory → ℕ → ℕ → Outcome Memory
mem_wb m addr v = in_map m addr 1 (record m { cell = update m.cell addr (u8 v) })

unfoldable pub mem_wh : Memory → ℕ → ℕ → Outcome Memory
mem_wh m addr v =
    in_map m addr 2
      (record m { cell = update (update m.cell addr (u8 v)) (addr + 1) (u8 (v / 2 ^ 8)) })

abbrev word_bytes : (ℕ → ℕ) → ℕ → ℕ → ℕ → ℕ
word_bytes cell addr v =
    update
      (update (update (update cell addr (u8 v)) (addr + 1) (u8 (v / 2 ^ 8))) (addr + 2)
        (u8 (v / 2 ^ 16)))
      (addr + 3) (u8 (v / 2 ^ 24))

unfoldable pub mem_ww : Memory → ℕ → ℕ → Outcome Memory
mem_ww m addr v = in_map m addr 4 (record m { cell = word_bytes m.cell addr v })

-- An atomic operation gives the old word and the new memory.
abbrev pub Fetched : Type 0
Fetched = Outcome (ℕ × Memory)

unfoldable pub mem_fetch : (ℕ → ℕ) → Memory → ℕ → Fetched
mem_fetch f m addr = do old ← mem_rw m addr; m' ← mem_ww m addr (f old); ok (old, m')

unfoldable pub mem_aadd : Memory → ℕ → ℕ → Fetched
mem_aadd m addr val = mem_fetch (λ old. add32 old val) m addr

unfoldable pub mem_aand : Memory → ℕ → ℕ → Fetched
mem_aand m addr val = mem_fetch (λ old. bit_and old val) m addr

unfoldable pub mem_axor : Memory → ℕ → ℕ → Fetched
mem_axor m addr val = mem_fetch (λ old. bit_xor old val) m addr

unfoldable pub mem_aor : Memory → ℕ → ℕ → Fetched
mem_aor m addr val = mem_fetch (λ old. bit_or old val) m addr

unfoldable pub mem_anand : Memory → ℕ → ℕ → Fetched
mem_anand m addr val = mem_fetch (λ old. not32 (bit_and old val)) m addr

unfoldable pub mem_aswp : Memory → ℕ → ℕ → Fetched
mem_aswp m addr val = mem_fetch (λ old. val) m addr

unfoldable pub mem_aread : Memory → ℕ → Outcome ℕ
mem_aread m addr = mem_rw m addr

-- The loop around the compare-and-exchange: a failed attempt leaves the word that it found in
-- `expected`. The first argument bounds the attempts, and a loop that is cut off `hangs`.
unfoldable pub mem_cas_loop : ℕ → Memory → ℕ → ℕ → ℕ → Outcome Memory
mem_cas_loop zero m addr val expected = stop hangs
mem_cas_loop (suc attempts) m addr val expected =
    let retry = λ (found : ℕ). mem_cas_loop attempts m addr val found in
    mem_rw m addr >>= λ found. if found == expected then mem_ww m addr val else retry found

unfoldable pub mem_cas : Memory → ℕ → ℕ → ℕ → Outcome Memory
mem_cas m addr val expected = mem_cas_loop 2 m addr val expected

abbrev pub keep_or_cas : Bool → Memory → ℕ → ℕ → ℕ → Fetched
keep_or_cas keep m addr val old =
    if keep then ok (old, m) else (mem_cas m addr val old >>= λ m'. ok (old, m'))

unfoldable pub mem_amaxu : Memory → ℕ → ℕ → Fetched
mem_amaxu m addr val = mem_aread m addr >>= λ old. keep_or_cas (ltb val old) m addr val old

unfoldable pub mem_aminu : Memory → ℕ → ℕ → Fetched
mem_aminu m addr val = mem_aread m addr >>= λ old. keep_or_cas (ltb old val) m addr val old

unfoldable pub mem_amax : Memory → ℕ → ℕ → Fetched
mem_amax m addr val =
    mem_aread m addr >>= λ old. keep_or_cas (ltb_ℤ (signed32 val) (signed32 old)) m addr val old

unfoldable pub mem_amin : Memory → ℕ → ℕ → Fetched
mem_amin m addr val =
    mem_aread m addr >>= λ old. keep_or_cas (ltb_ℤ (signed32 old) (signed32 val)) m addr val old

abbrev pub length : List ℕ → ℕ
length [] = 0
length (x ∷ xs) = suc (length xs)

-- `memcpy` out of the memory, into it, and `memset`.
unfoldable pub read_bytes : (ℕ → ℕ) → ℕ → ℕ → List ℕ
read_bytes cell addr zero = []
read_bytes cell addr (suc n) = cell addr ∷ read_bytes cell (addr + 1) n

unfoldable pub write_bytes : (ℕ → ℕ) → ℕ → List ℕ → ℕ → ℕ
write_bytes cell addr [] = cell
write_bytes cell addr (b ∷ bs) = write_bytes (update cell addr (u8 b)) (addr + 1) bs

unfoldable pub fill_bytes : (ℕ → ℕ) → ℕ → ℕ → ℕ → ℕ → ℕ
fill_bytes cell addr input zero = cell
fill_bytes cell addr input (suc n) = fill_bytes (update cell addr (u8 input)) (addr + 1) input n

unfoldable pub mem_rb_ptr_s : Memory → ℕ → ℕ → Outcome (List ℕ)
mem_rb_ptr_s m addr n = in_map m addr n (read_bytes m.cell addr n)

unfoldable pub mem_wb_ptr_s : Memory → ℕ → List ℕ → Outcome Memory
mem_wb_ptr_s m addr input =
    in_map m addr (length input) (record m { cell = write_bytes m.cell addr input })

unfoldable pub mem_wb_s : Memory → ℕ → ℕ → ℕ → Outcome Memory
mem_wb_s m addr input n = in_map m addr n (record m { cell = fill_bytes m.cell addr input n })
