-- ===== src/Args/Limits.antt =====
-- What `ctx_init` leaves in the context, whatever the options.
use switch_v.Common.{ℕ, ◌+◌, ◌-◌, ◌*◌, ◌/◌, ◌^◌, ◌≤◌, ◌≡◌, refl, arith, Bool, true, false, ◌||◌}
use switch_v.Common.{Option, none, some, List, [], ◌∷◌, ltb, ◌==◌, if◌then◌else◌}
use switch_v.Common.Word.{u32, to_u32, to_u64}
use switch_v.Common.Outcome.{Outcome, ok, stop, exits, Holds, Holds->>=, Holds-if, ◌>>=◌}
use switch_v.Memory.{page_size}
use switch_v.Args.{
  Opt, opt_u, opt_c, opt_m, opt_i, opt_o, opt_e, opt_f, opt_d, opt_b, opt_h, opt_other, ArgsContext,
  defaults, max_nprocs, max_mem_size_mb, max_upscale, text_from, copy_name, ctx_option, ctx_options,
  has_file, ctx_init,
}

-- The numbers of the context are in their limits, and the base of the stack and the limit of the
-- heap are those of the memory's size.
pub record AreLimits (is_user : Bool) (n scale memory_size stack_base brk_limit : ℕ) : Type 0 where
  pub some_core : 1 ≤ n
  pub cores : n ≤ max_nprocs
  pub one_core : is_user ≡ true → n ≡ 1
  pub some_scale : 1 ≤ scale
  pub scale_limit : scale ≤ max_upscale
  pub megabytes : ℕ
  pub memory : memory_size ≡ megabytes * 2 ^ 20
  pub some_memory : 1 ≤ megabytes
  pub memory_limit : megabytes ≤ max_mem_size_mb
  pub stack : stack_base + page_size ≡ memory_size
  pub heap : is_user ≡ true → brk_limit * 2 ^ 4 ≡ memory_size

abbrev pub IsLimited : Bool → ArgsContext → Type 0
IsLimited is_user ctx =
    AreLimits is_user ctx.cores ctx.sdl_upscale ctx.memory_size ctx.stack_base ctx.brk_limit

-- A result that a failed test guards.
guarded :
    {A : Type 0} (P : A → Type 0) (b : Bool) (r s : Outcome A)
    → Holds P r
    → (b ≡ false → Holds P s)
    → Holds P (if b then r else s)
guarded P true r s h k = h
guarded P false r s h k = k refl

defaults-IsLimited : (is_user : Bool) → IsLimited is_user defaults
defaults-IsLimited is_user = record {
  some_core = omega arith;
  cores = omega arith;
  one_core = λ user. refl;
  some_scale = omega arith;
  scale_limit = omega arith;
  megabytes = 1024;
  memory = omega arith;
  some_memory = omega arith;
  memory_limit = omega arith;
  stack = omega arith;
  heap = λ user. omega arith;
}

module _ (is_user : Bool) where
  silent :
      {A : Type 0} (r : Outcome A) (g : A → Outcome ArgsContext)
      → ((a : A) → Holds (IsLimited is_user) (g a))
      → Holds (IsLimited is_user) (r >>= g)
  silent (ok a) g k = k a
  silent (stop e) g k = tt

  scaled :
      (k : ℕ) (ctx : ArgsContext)
      → IsLimited is_user ctx
      → (k == 0 || ltb max_upscale k) ≡ false
      → IsLimited is_user (record ctx { sdl_upscale = k })
  scaled k ctx w h = record {
    some_core = w.some_core;
    cores = w.cores;
    one_core = w.one_core;
    some_scale = ground arith;
    scale_limit = ground arith;
    megabytes = w.megabytes;
    memory = w.memory;
    some_memory = w.some_memory;
    memory_limit = w.memory_limit;
    stack = w.stack;
    heap = w.heap;
  }

  counted :
      (k : ℕ) (ctx : ArgsContext)
      → IsLimited is_user ctx
      → is_user ≡ false
      → (k == 0 || ltb max_nprocs k) ≡ false
      → IsLimited is_user (record ctx { cores = k })
  counted k ctx w system h = record {
    some_core = ground arith;
    cores = ground arith;
    one_core = λ user. absurd (cc);
    some_scale = w.some_scale;
    scale_limit = w.scale_limit;
    megabytes = w.megabytes;
    memory = w.memory;
    some_memory = w.some_memory;
    memory_limit = w.memory_limit;
    stack = w.stack;
    heap = w.heap;
  }

  sized :
      (k : ℕ) (ctx : ArgsContext)
      → IsLimited is_user ctx
      → (k == 0 || ltb max_mem_size_mb k) ≡ false
      → IsLimited is_user (record ctx {
        memory_size = k * 1024 * 1024;
        stack_base = u32 (k * 1024 * 1024 - page_size);
        brk_limit = if is_user then u32 (k * 1024 * 1024 / 2 ^ 4) else ctx.brk_limit;
      })
  sized k ctx w h =
      let positive : 1 ≤ k = ground arith in
      let limit : k ≤ max_mem_size_mb = ground arith in
      record {
        some_core = w.some_core;
        cores = w.cores;
        one_core = w.one_core;
        some_scale = w.some_scale;
        scale_limit = w.scale_limit;
        megabytes = k;
        memory = omega arith;
        some_memory = positive;
        memory_limit = limit;
        stack = omega arith;
        heap = λ user. rw user (omega arith);
      }

  ctx_option-IsLimited :
      (x : Opt) (ctx : ArgsContext)
      → IsLimited is_user ctx
      → Holds (IsLimited is_user) (ctx_option is_user x ctx)
  unfolding ctx_option
  ctx_option-IsLimited (opt_u n) ctx w =
      guarded (IsLimited is_user) (to_u32 n == 0 || ltb max_upscale (to_u32 n)) _ _ w
        (scaled (to_u32 n) ctx w)
  ctx_option-IsLimited (opt_c n) ctx w = guarded (IsLimited is_user) is_user _ _ w (λ system.
      guarded (IsLimited is_user) (to_u32 n == 0 || ltb max_nprocs (to_u32 n)) (stop (exits 1)) _ tt
        (counted (to_u32 n) ctx w system))
  ctx_option-IsLimited (opt_m n) ctx w =
      guarded (IsLimited is_user) (to_u64 n == 0 || ltb max_mem_size_mb (to_u64 n)) (stop (exits 1))
        _ tt (sized (to_u64 n) ctx w)
  ctx_option-IsLimited (opt_i text) ctx w = w
  ctx_option-IsLimited (opt_o text) ctx w = w
  ctx_option-IsLimited (opt_e text) ctx w = w
  ctx_option-IsLimited (opt_f text) ctx w =
      silent (text_from ctx.named text) _
        (λ rest. silent (copy_name rest ctx.named ctx.elf_name) _ (λ p. w))
  ctx_option-IsLimited opt_d ctx w = w
  ctx_option-IsLimited opt_b ctx w = Holds-if (IsLimited is_user) is_user (ok ctx) _ w w
  ctx_option-IsLimited opt_h ctx w = tt
  ctx_option-IsLimited opt_other ctx w = tt

  ctx_options-IsLimited :
      (xs : List Opt) (ctx : ArgsContext)
      → IsLimited is_user ctx
      → Holds (IsLimited is_user) (ctx_options is_user xs ctx)
  unfolding ctx_options
  ctx_options-IsLimited [] ctx w = w
  ctx_options-IsLimited (x ∷ xs) ctx w =
      Holds->>= (IsLimited is_user) (IsLimited is_user) (ctx_option is_user x ctx) _
        (ctx_option-IsLimited x ctx w) (λ ctx' w'. ctx_options-IsLimited xs ctx' w')

  -- Whatever the options, a context that the command line gives has from 1 to 4 cores, one in a
  -- USER build, a scale from 1 to 8, from 1 to 4096 whole megabytes of memory, the base of the
  -- stack one page below the memory's end, and in a USER build a sixteenth of the memory as the
  -- heap's limit.
  pub ctx_init-IsLimited : (opts : List Opt) → Holds (IsLimited is_user) (ctx_init is_user opts)
  unfolding ctx_init
  ctx_init-IsLimited opts =
      Holds->>= (IsLimited is_user) (IsLimited is_user) (ctx_options is_user opts defaults) has_file
        (ctx_options-IsLimited opts defaults (defaults-IsLimited is_user)) checked
    where
      checked :
          (ctx : ArgsContext) → IsLimited is_user ctx → Holds (IsLimited is_user) (has_file ctx)
      checked ctx w = by_file ctx.elf_args
        where
          by_file :
              (file : Option (List ℕ))
              → Holds (IsLimited is_user) (elim file [ none ↦ stop (exits 1) | some text ↦ ok ctx ])
          by_file none = tt
          by_file (some text) = w
