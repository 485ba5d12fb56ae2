-- ===== src/Supervisor/Csr.antt =====
-- The bits of the control and status registers, src/supervisor/csr.h. The `SET_` and `RESET_`
-- macros are expressions: they give a value and store nothing.
use switch_v.Common.{ℕ, ◌*◌, ◌^◌, bit_and, bit_or, Bool, not, ◌==◌}
use switch_v.Common.Word.{not32}

abbrev pub bit : ℕ → ℕ → Bool
bit k x = not (bit_and x (1 * 2 ^ k) == 0)

unfoldable pub satp_mode : ℕ → Bool
satp_mode satp = bit 31 satp

unfoldable pub satp_ppn : ℕ → ℕ
satp_ppn satp = bit_and satp 0x3FFFFF

unfoldable pub set_sstatus_sie : ℕ → ℕ
set_sstatus_sie sstatus = bit_or sstatus (1 * 2 ^ 1)

unfoldable pub reset_sstatus_sie : ℕ → ℕ
reset_sstatus_sie sstatus = bit_and sstatus (not32 (1 * 2 ^ 1))

unfoldable pub set_sstatus_spie : ℕ → ℕ
set_sstatus_spie sstatus = bit_or sstatus (1 * 2 ^ 5)

unfoldable pub set_sstatus_spp : ℕ → ℕ
set_sstatus_spp sstatus = bit_or sstatus (1 * 2 ^ 8)

unfoldable pub reset_sstatus_spp : ℕ → ℕ
reset_sstatus_spp sstatus = bit_and sstatus (not32 (1 * 2 ^ 8))

unfoldable pub sstatus_sie : ℕ → Bool
sstatus_sie sstatus = bit 1 sstatus

unfoldable pub sstatus_mxr : ℕ → Bool
sstatus_mxr sstatus = bit 19 sstatus

unfoldable pub sstatus_sum : ℕ → Bool
sstatus_sum sstatus = bit 18 sstatus

unfoldable pub sip_ssip : ℕ → Bool
sip_ssip sip = bit 1 sip

unfoldable pub sip_stip : ℕ → Bool
sip_stip sip = bit 5 sip

unfoldable pub sip_seip : ℕ → Bool
sip_seip sip = bit 9 sip

unfoldable pub sie_ssie : ℕ → Bool
sie_ssie sie = bit 1 sie

unfoldable pub sie_stie : ℕ → Bool
sie_stie sie = bit 5 sie

unfoldable pub sie_seie : ℕ → Bool
sie_seie sie = bit 9 sie

unfoldable pub stvec_mode : ℕ → ℕ
stvec_mode stvec = bit_and stvec 0x3

unfoldable pub stvec_base : ℕ → ℕ
stvec_base stvec = bit_and stvec 0xFFFFFFFC
