-- ===== src/Args.antt =====
-- The command line, src/args.c. `getopt` and `atoi` are the C library's: an option comes as the
-- value that it makes of it, with the number that `atoi` makes of a numeric argument. A text is its
-- bytes up to its end. The defaults are those of src/main.c.
use switch_v.Common.{ℕ, zero, suc, ◌+◌, ◌-◌, ◌*◌, ◌/◌, ◌^◌, Bool, true, false, not, ◌||◌}
use switch_v.Common.{Option, none, some, List, [], ◌∷◌, ltb, leb, ◌==◌, if◌then◌else◌, update}
use switch_v.Common.Int.{ℤ}
use switch_v.Common.Word.{u32, to_u32, to_u64}
use switch_v.Common.Outcome.{Outcome, ok, stop, exits, undefined, ◌>>=◌}
use switch_v.Memory.{page_size}
pub mod Limits

-- The limits of src/defs.h.
abbrev pub max_nprocs : ℕ
max_nprocs = 4

abbrev pub max_mem_size_mb : ℕ
max_mem_size_mb = 4096

abbrev pub max_upscale : ℕ
max_upscale = 8

abbrev pub path_max : ℕ
path_max = 4096

abbrev pub def_mem_size : ℕ
def_mem_size = 2 ^ 30

-- The options by their letters; `other` is any that `getopt` does not know.
pub data Opt : Type 0 where
  opt_u opt_c opt_m : ℤ → Opt
  opt_i opt_o opt_e opt_f : List ℕ → Opt
  opt_d opt_b opt_h opt_other : Opt

-- `Args_Context`; `elf_name` is an array, `named` the local `i` of `ctx_init`.
pub record ArgsContext : Type 0 where
  pub elf_name : ℕ → ℕ
  pub named : ℕ
  pub elf_stdin : Option (List ℕ)
  pub elf_stdout : Option (List ℕ)
  pub elf_stderr : Option (List ℕ)
  pub elf_args : Option (List ℕ)
  pub sdl_upscale : ℕ
  pub cores : ℕ
  pub debug : Bool
  pub binary : Bool
  pub memory_size : ℕ
  pub stack_base : ℕ
  pub brk_limit : ℕ

abbrev pub defaults : ArgsContext
defaults = record {
  elf_name = λ _. 0;
  named = 0;
  elf_stdin = none;
  elf_stdout = none;
  elf_stderr = none;
  elf_args = none;
  sdl_upscale = 1;
  cores = 1;
  debug = false;
  binary = false;
  memory_size = def_mem_size;
  stack_base = def_mem_size - page_size;
  brk_limit = def_mem_size / 2 ^ 4;
}

-- The text from an index on; an index behind its end is outside of it.
unfoldable pub text_from : ℕ → List ℕ → Outcome (List ℕ)
text_from zero text = ok text
text_from (suc n) [] = stop undefined
text_from (suc n) (x ∷ xs) = text_from n xs

-- The loop that copies the name, from the index on, and then the end of the text.
unfoldable pub copy_name : List ℕ → ℕ → (ℕ → ℕ) → Outcome (ℕ × (ℕ → ℕ))
copy_name [] at name = if at == path_max then stop (exits 1) else ok (at, update name at 0)
copy_name (x ∷ xs) at name =
    let rest = copy_name xs (at + 1) (update name at x) in
    if x == 32 || not (ltb at path_max)
    then if at == path_max then stop (exits 1) else ok (at, update name at 0)
    else rest

-- The `switch` over the option.
unfoldable pub ctx_option : Bool → Opt → ArgsContext → Outcome ArgsContext
ctx_option is_user (opt_u n) ctx =
    let upscale = to_u32 n in
    if upscale == 0 || ltb max_upscale upscale
    then ok ctx
    else ok (record ctx { sdl_upscale = upscale })
ctx_option is_user (opt_i text) ctx = ok (record ctx { elf_stdin = some text })
ctx_option is_user (opt_o text) ctx = ok (record ctx { elf_stdout = some text })
ctx_option is_user (opt_e text) ctx = ok (record ctx { elf_stderr = some text })
ctx_option is_user (opt_f text) ctx = text_from ctx.named text >>= λ rest.
    copy_name rest ctx.named ctx.elf_name >>= λ p.
    ok (record ctx { elf_args = some text; named = p.0; elf_name = p.1 })
ctx_option is_user (opt_c n) ctx =
    let cores = to_u32 n in
    if is_user
    then ok ctx
    else if cores == 0 || ltb max_nprocs cores
    then stop (exits 1)
    else ok (record ctx { cores = cores })
ctx_option is_user (opt_m n) ctx =
    let mem_tmp = to_u64 n in
    let memory_size = mem_tmp * 1024 * 1024 in
    if mem_tmp == 0 || ltb max_mem_size_mb mem_tmp
    then stop (exits 1)
    else ok (record ctx {
      memory_size = memory_size;
      stack_base = u32 (memory_size - page_size);
      brk_limit = if is_user then u32 (memory_size / 2 ^ 4) else ctx.brk_limit;
    })
ctx_option is_user opt_d ctx = ok (record ctx { debug = true })
ctx_option is_user opt_b ctx = if is_user then ok ctx else ok (record ctx { binary = true })
ctx_option is_user opt_h ctx = stop (exits 0)
ctx_option is_user opt_other ctx = stop (exits 1)

unfoldable pub ctx_options : Bool → List Opt → ArgsContext → Outcome ArgsContext
ctx_options is_user [] ctx = ok ctx
ctx_options is_user (x ∷ xs) ctx = ctx_option is_user x ctx >>= λ ctx'. ctx_options is_user xs ctx'

abbrev pub has_file : ArgsContext → Outcome ArgsContext
has_file ctx = elim ctx.elf_args [ none ↦ stop (exits 1) | some text ↦ ok ctx ]

unfoldable pub ctx_init : Bool → List Opt → Outcome ArgsContext
ctx_init is_user opts = ctx_options is_user opts defaults >>= has_file
