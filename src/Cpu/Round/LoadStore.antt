-- ===== src/Cpu/Round/LoadStore.antt =====
-- Stores and loads as instructions, and the reservation of LR and SC.
use switch_v.Common.{ℕ, ◌+◌, ◌^◌, ◌≤◌, ◌<◌, ◌≡◌, ◌≢◌, refl, arith}
use switch_v.Common.{true, false}
use switch_v.Common.Word.{add32}
use switch_v.Common.Outcome.{ok}
use switch_v.Memory.{mem_cas, mem_aread}
use switch_v.Memory.Laws.{with_word, mem_ww-mapped, mem_rw-with_word}
use switch_v.Memory.Atomic.{mem_cas_loop_stores, mem_rw-mapped, word_at}
use switch_v.Cpu.Op
use switch_v.Cpu.Reg
use switch_v.Cpu.Decode.{rd, rs1, rs2, func, a_func, i_imm, s_imm}
use switch_v.Cpu.State.{Machine, reg, write, Platform}
use switch_v.Cpu.Instructions.{
  advance, vcore_il_type, vcore_s_type, vcore_a_type, load_reserved, store_conditional,
}

-- The address of a load or a store.
abbrev pub load_addr : {W : Type 0} → Machine W → ℕ → ℕ
load_addr m ins = add32 (reg m (rs1 ins)) (i_imm ins)

abbrev pub store_addr : {W : Type 0} → Machine W → ℕ → ℕ
store_addr m ins = add32 (reg m (rs1 ins)) (s_imm ins)

module _ {W : Type 0} (platform : Platform W) where
  -- A word that SW has stored is loaded by LW from the same address, in any state with that memory;
  -- both go on to the next instruction.
  pub vcore_il_type-vcore_s_type :
      (m m2 : Machine W) (store load : ℕ)
      → func store ≡ Op.sw
      → func load ≡ Op.lw
      → reg m (rs2 store) < 2 ^ 32
      → store_addr m store + 4 ≤ m.mem.size
      → m2.mem ≡ with_word m.mem (store_addr m store) (reg m (rs2 store))
      → load_addr m2 load ≡ store_addr m store
      → (vcore_s_type platform store m ≡ ok (advance (record m { mem = m2.mem }) 4))
        × (vcore_il_type platform load m2 ≡ ok (advance (write m2 (rd load) (reg m (rs2 store))) 4))
  unfolding vcore_il_type vcore_s_type
  vcore_il_type-vcore_s_type m m2 store load fs fl small fits same addr = (
    rw (fs, mem_ww-mapped m.mem (store_addr m store) (reg m (rs2 store)) fits, ← same),
    rw (fl, addr, same, mem_rw-with_word m.mem (store_addr m store) (reg m (rs2 store)) small fits),
  )

  -- SC after an LR stores its operand and reports success whatever the memory holds by then: it
  -- does not fail when the word has changed since the LR.
  pub store_conditional-stores :
      (m : Machine W) (ins : ℕ)
      → a_func ins ≡ Op.sc
      → m.core.ll_sc_flag ≡ true
      → reg m (rs1 ins) + 4 ≤ m.mem.size
      → vcore_a_type platform ins m
        ≡ ok (
            advance
              (write
                (record m {
                  core = record m.core { ll_sc_flag = false };
                  mem = with_word m.mem (reg m (rs1 ins)) (reg m (rs2 ins));
                })
                (rd ins)
                0)
              4)
  unfolding vcore_a_type store_conditional mem_cas
  store_conditional-stores m ins f flag fits = rw (
    f,
    flag,
    mem_cas_loop_stores 0 m.mem (reg m (rs1 ins)) (reg m (rs2 ins)) m.core.reserved fits,
    mem_ww-mapped m.mem (reg m (rs1 ins)) (reg m (rs2 ins)) fits,
  )

  -- SC with no LR before it leaves the program counter where it is, so it is executed again.
  pub store_conditional-stays :
      (m : Machine W) (ins : ℕ)
      → a_func ins ≡ Op.sc
      → m.core.ll_sc_flag ≡ false
      → rd ins < Reg.pc
      → (m' : Machine W) × (vcore_a_type platform ins m ≡ ok m')
        × (reg m' Reg.pc ≡ reg m Reg.pc)
        × (m'.core.ll_sc_flag ≡ false)
  unfolding vcore_a_type store_conditional
  store_conditional-stays m ins f flag h = (write m (rd ins) 1, rw (f, flag), ground arith, flag)

  -- LR leaves every register but the program counter as it was: the word that it reads goes to the
  -- reservation only.
  pub load_reserved_keeps :
      (m : Machine W) (ins i : ℕ)
      → a_func ins ≡ Op.lr
      → reg m (rs1 ins) + 4 ≤ m.mem.size
      → i ≢ Reg.pc
      → (m' : Machine W) × (vcore_a_type platform ins m ≡ ok m')
        × (reg m' i ≡ reg m i)
        × (m'.core.reserved ≡ word_at m.mem (reg m (rs1 ins)))
        × (m'.core.ll_sc_flag ≡ true)
  unfolding vcore_a_type load_reserved mem_aread
  load_reserved_keeps m ins i f fits other = (
    advance
        (record m {
          core = record m.core { ll_sc_flag = true; reserved = word_at m.mem (reg m (rs1 ins)) };
        })
        4,
    rw (f, mem_rw-mapped m.mem (reg m (rs1 ins)) fits),
    ground arith,
    refl,
    refl,
  )
