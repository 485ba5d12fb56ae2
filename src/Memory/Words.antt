-- ===== src/Memory/Words.antt =====
-- Every operation of src/memory.h that succeeds keeps the cells bytes, and gives words.
use switch_v.Common.{
  ℕ, zero, suc, ◌+◌, ◌^◌, ◌<◌, Bool, ◌==◌, leb, List, [], ◌∷◌, update, update-lt, arith, refl, ◌∙◌,
}
use switch_v.Common.Word.{u8}
use switch_v.Memory.{mem_rb, mem_rh}
use switch_v.Memory.{length, write_bytes, fill_bytes, mem_wb_ptr_s, mem_wb_s}
use switch_v.Common.Outcome.{Holds, Holds-intro, Holds->>=, Holds-if, ◌>>=◌}
use switch_v.Memory.{
  Memory, mem_rw, mem_ww, mem_wb, mem_wh, mem_fetch, mem_cas, mem_cas_loop, mem_aread, keep_or_cas,
}
use switch_v.Memory.{
  mem_aadd, mem_aand, mem_aor, mem_axor, mem_aswp, mem_amax, mem_amin, mem_amaxu, mem_aminu,
  mem_anand,
}
use switch_v.Memory.Laws.{Kept, mem_rb-lt, mem_rh-lt}
use switch_v.Memory.Laws.{IsBytes, mem_rw-lt, mem_ww-Kept, mem_wh-Kept, mem_wb-Kept}

abbrev IsWord : ℕ → Type 0
IsWord v = v < 2 ^ 32

-- An old word, and a memory of bytes.
abbrev pub IsFetched : ℕ × Memory → Type 0
IsFetched p = (p.0 < 2 ^ 32) × IsBytes p.1

pub mem_rw-Holds : (m : Memory) (addr : ℕ) → IsBytes m → Holds (λ v. v < 2 ^ 32) (mem_rw m addr)
mem_rw-Holds m addr b = Holds-intro _ _ (λ v e. mem_rw-lt m addr v b e)

pub mem_rh-Holds : (m : Memory) (addr : ℕ) → IsBytes m → Holds (λ v. v < 2 ^ 16) (mem_rh m addr)
mem_rh-Holds m addr b = Holds-intro _ _ (λ v e. mem_rh-lt m addr v b e)

pub mem_rb-Holds : (m : Memory) (addr : ℕ) → IsBytes m → Holds (λ v. v < 2 ^ 8) (mem_rb m addr)
mem_rb-Holds m addr b = Holds-intro _ _ (λ v e. mem_rb-lt m addr v b e)

pub mem_ww-Holds : (m : Memory) (addr v : ℕ) → IsBytes m → Holds IsBytes (mem_ww m addr v)
mem_ww-Holds m addr v b = Holds-intro _ _ (λ m' e. (mem_ww-Kept m m' addr v b e).bytes)

pub mem_wh-Holds : (m : Memory) (addr v : ℕ) → IsBytes m → Holds IsBytes (mem_wh m addr v)
mem_wh-Holds m addr v b = Holds-intro _ _ (λ m' e. (mem_wh-Kept m m' addr v b e).bytes)

pub mem_wb-Holds : (m : Memory) (addr v : ℕ) → IsBytes m → Holds IsBytes (mem_wb m addr v)
mem_wb-Holds m addr v b = Holds-intro _ _ (λ m' e. (mem_wb-Kept m m' addr v b e).bytes)

mem_fetch-Holds :
    (f : ℕ → ℕ) (m : Memory) (addr : ℕ) → IsBytes m → Holds IsFetched (mem_fetch f m addr)
unfolding mem_fetch
mem_fetch-Holds f m addr b =
    Holds->>= IsWord IsFetched (mem_rw m addr) _ (mem_rw-Holds m addr b) (λ old h.
      Holds->>= IsBytes IsFetched (mem_ww m addr (f old)) _ (mem_ww-Holds m addr (f old) b)
        (λ m' b'. (h, b')))

mem_cas_loop-Holds :
    (n : ℕ) (m : Memory) (addr val expected : ℕ)
    → IsBytes m
    → Holds IsBytes (mem_cas_loop n m addr val expected)
unfolding mem_cas_loop
mem_cas_loop-Holds zero m addr val expected b = tt
mem_cas_loop-Holds (suc n) m addr val expected b =
    Holds->>= IsWord IsBytes (mem_rw m addr) _ (mem_rw-Holds m addr b) (λ found h.
      Holds-if IsBytes (found == expected) _ _ (mem_ww-Holds m addr val b)
        (mem_cas_loop-Holds n m addr val found b))

pub mem_cas-Holds :
    (m : Memory) (addr val expected : ℕ) → IsBytes m → Holds IsBytes (mem_cas m addr val expected)
unfolding mem_cas
mem_cas-Holds m addr val expected b = mem_cas_loop-Holds 2 m addr val expected b

keep_or_cas-Holds :
    (keep : ℕ → Bool) (m : Memory) (addr val : ℕ)
    → IsBytes m
    → Holds IsFetched (mem_aread m addr >>= λ old. keep_or_cas (keep old) m addr val old)
unfolding mem_aread
keep_or_cas-Holds keep m addr val b =
    Holds->>= IsWord IsFetched (mem_rw m addr) _ (mem_rw-Holds m addr b) (λ old h.
      Holds-if IsFetched (keep old) _ _ (h, b)
        (Holds->>= IsBytes IsFetched (mem_cas m addr val old) _ (mem_cas-Holds m addr val old b)
          (λ m' b'. (h, b'))))

pub amo-Holds :
    (m : Memory) (addr val : ℕ)
    → IsBytes m
    → Holds IsFetched (mem_aadd m addr val)
      × Holds IsFetched (mem_aand m addr val)
      × Holds IsFetched (mem_aor m addr val)
      × Holds IsFetched (mem_axor m addr val)
      × Holds IsFetched (mem_aswp m addr val)
      × Holds IsFetched (mem_amax m addr val)
      × Holds IsFetched (mem_amin m addr val)
      × Holds IsFetched (mem_amaxu m addr val)
      × Holds IsFetched (mem_aminu m addr val)
      × Holds IsFetched (mem_anand m addr val)
unfolding mem_aadd mem_aand mem_aor mem_axor mem_aswp mem_amax mem_amin mem_amaxu mem_aminu
    mem_anand
amo-Holds m addr val b = (
  mem_fetch-Holds _ m addr b,
  mem_fetch-Holds _ m addr b,
  mem_fetch-Holds _ m addr b,
  mem_fetch-Holds _ m addr b,
  mem_fetch-Holds _ m addr b,
  keep_or_cas-Holds _ m addr val b,
  keep_or_cas-Holds _ m addr val b,
  keep_or_cas-Holds _ m addr val b,
  keep_or_cas-Holds _ m addr val b,
  mem_fetch-Holds _ m addr b,
)

write_bytes-lt :
    (bs : List ℕ) (cell : ℕ → ℕ) (addr : ℕ)
    → ((a : ℕ) → cell a < 2 ^ 8)
    → (a : ℕ) → write_bytes cell addr bs a < 2 ^ 8
unfolding write_bytes
write_bytes-lt [] cell addr b = b
write_bytes-lt (x ∷ bs) cell addr b =
    write_bytes-lt bs (update cell addr (u8 x)) (addr + 1)
      (update-lt cell addr (u8 x) (2 ^ 8) b (omega arith))

pub mem_wb_ptr_s-Holds :
    (m : Memory) (addr : ℕ) (bs : List ℕ) → IsBytes m → Holds IsBytes (mem_wb_ptr_s m addr bs)
unfolding mem_wb_ptr_s
mem_wb_ptr_s-Holds m addr bs b =
    Holds-if IsBytes (leb (addr + length bs) m.size) _ _
      (record { byte = write_bytes-lt bs m.cell addr b.byte }) tt

fill_bytes-lt :
    (n : ℕ) (cell : ℕ → ℕ) (addr input : ℕ)
    → ((a : ℕ) → cell a < 2 ^ 8)
    → (a : ℕ) → fill_bytes cell addr input n a < 2 ^ 8
unfolding fill_bytes
fill_bytes-lt zero cell addr input b = b
fill_bytes-lt (suc n) cell addr input b =
    fill_bytes-lt n (update cell addr (u8 input)) (addr + 1) input
      (update-lt cell addr (u8 input) (2 ^ 8) b (omega arith))

-- The copies also keep the size.
pub mem_wb_ptr_s-Kept :
    (m : Memory) (addr : ℕ) (bs : List ℕ) → IsBytes m → Holds (Kept m) (mem_wb_ptr_s m addr bs)
unfolding mem_wb_ptr_s
mem_wb_ptr_s-Kept m addr bs b =
    Holds-if (Kept m) (leb (addr + length bs) m.size) _ _
      (record { same_size = refl; bytes = record { byte = write_bytes-lt bs m.cell addr b.byte } })
      tt

pub mem_wb_s-Kept :
    (m : Memory) (addr input n : ℕ) → IsBytes m → Holds (Kept m) (mem_wb_s m addr input n)
unfolding mem_wb_s
mem_wb_s-Kept m addr input n b =
    Holds-if (Kept m) (leb (addr + n) m.size) _ _
      (record {
        same_size = refl;
        bytes = record { byte = fill_bytes-lt n m.cell addr input b.byte };
      })
      tt

pub Kept-trans : (m m' m'' : Memory) → Kept m m' → Kept m' m'' → Kept m m''
Kept-trans m m' m'' k l = record { same_size = l.same_size ∙ k.same_size; bytes = l.bytes }
