-- ===== src/Main/Boot.antt =====
-- The state that `main` of src/main.c sets up, whatever the command line, the program and the
-- guest's arguments are.
use switch_v.Common.{ℕ, ◌-◌, ◌^◌, ◌<◌, ◌≡◌, refl, ◌∙◌, arith, inl, inr, Bool-cases, ltb}
use switch_v.Common.{Bool, Option, none, some, List, ◌==◌, if◌then◌else◌, bit_and}
use switch_v.Common.Outcome.{
  Outcome, ok, stop, undefined, Holds, Holds-if, Holds-after, Holds->>=, Holds-mono,
}
use switch_v.Memory.{Memory, page_size, mem_init}
use switch_v.Memory.Laws.{IsBytes, Kept}
use switch_v.Cpu.Run.{VCoreInit, vcore_init}
use switch_v.Cpu.Invariant.{IsCore}
use switch_v.ThreadsMgr.{Cthreads, idle_init, threads_mgr_init}
use switch_v.ThreadsMgr.Init.{AreThreads, threads_mgr_init-AreThreads}
use switch_v.User.Host.{Host}
use switch_v.User.Args.{emu_args}
use switch_v.User.Args.Kept.{emu_args-Kept}
use switch_v.User.Std.{emu_std}
use switch_v.Loader.{ld_bin, ld_elf}
use switch_v.Loader.Words.{HasBytes, IsInit, IsLoad, ld_bin-IsLoad, ld_elf-IsLoad}
use switch_v.Args.{ArgsContext, ctx_init}
use switch_v.Args.Limits.{IsLimited, ctx_init-IsLimited}
use switch_v.Main.{Booted, Env, ctx_of, with_args, user_setup, load, with_sp, setup}

-- The fields of `core0_init` are 32-bit words.
pub record AreWords (init : VCoreInit) : Type 0 where
  pub pc : init.pc < 2 ^ 32
  pub id : init.id < 2 ^ 32
  pub opaque : init.opaque < 2 ^ 32
  pub gp : init.gp < 2 ^ 32
  pub elf_brk : init.elf_brk < 2 ^ 32

-- What the parameters are bytes and words of.
pub record IsEnv {H : Type 0} (env : Env H) : Type 0 where
  pub files : (name : ℕ → ℕ) → HasBytes (env.files name)
  pub fresh : (i : ℕ) → IsCore (env.fresh i).core
  pub garbage : AreWords env.garbage

-- A memory of bytes, as large as the context says.
abbrev pub IsSized : ArgsContext → Memory → Type 0
IsSized args m = (m.size ≡ args.memory_size) × IsBytes m

-- The context is in its limits, the memory is as large as it says, and of the cores, which all hold
-- words, those in use are halted: core 0, which is to be started, with a configuration that the
-- loader has made of `core0_init`, and the others, which are to be stopped, with zeros and their
-- index.
pub record IsBooted {H : Type 0} (is_user : Bool) (env : Env H) (b : Booted H) : Type 0 where
  pub limits : IsLimited is_user b.args
  pub memory : IsSized b.args b.mem
  pub init : VCoreInit
  pub loaded : IsInit (with_sp env b.args) init
  pub threads : AreThreads (ctx_of b.args) init env.fresh b.cthreads
  pub words : (i : ℕ) → IsCore (b.cthreads i).core

idle-IsCore :
    (init : VCoreInit)
    → init.sp < 2 ^ 32
    → init.id < 2 ^ 32
    → init.opaque < 2 ^ 32
    → init.pc < 2 ^ 32
    → init.gp < 2 ^ 32
    → init.elf_brk < 2 ^ 32
    → IsCore (vcore_init (some init))
unfolding vcore_init
idle-IsCore init sp id opaque pc gp brk = record {
  word = λ i. ground arith;
  kept = omega arith;
  brk = brk;
}

module _ {H : Type 0} (env : Env H) (w : IsEnv env) where
  threads-IsCore :
      (is_user : Bool) (args : ArgsContext) (init : VCoreInit) (ts : Cthreads)
      → IsLimited is_user args
      → IsInit (with_sp env args) init
      → AreThreads (ctx_of args) init env.fresh ts
      → (i : ℕ) → IsCore (ts i).core
  threads-IsCore is_user args init ts limits loaded t i =
      let stack : init.sp < 2 ^ 32 = omega (arith, loaded.sp, limits.stack, limits.memory_limit) in
      let id : init.id < 2 ^ 32 = omega (arith, loaded.id, w.garbage.id) in
      let opaque : init.opaque < 2 ^ 32 = omega (arith, loaded.opaque, w.garbage.opaque) in
      let first = idle-IsCore init stack id opaque loaded.pc loaded.gp loaded.elf_brk in
      elim (Bool-cases (i == 0)) [
        | inl e ↦ let zeroth : i ≡ 0 = ground arith in rw (zeroth, t.first) first
        | inr e ↦ elim (Bool-cases (ltb i args.cores)) [
          | inl few ↦
              let used : i < args.cores = ground arith in
              let small : i < 2 ^ 32 = omega (arith, limits.cores) in
              rw (t.others i (ground arith) used) (
                idle-IsCore (idle_init i) (omega arith) small (omega arith) (omega arith)
                  (omega arith) (omega arith))
          | inr many ↦ rw (t.rest i (ground arith) (ground arith)) (w.fresh i)
        ]
      ]

  mem_init-IsSized :
      (args : ArgsContext) → Holds (IsSized args) (mem_init env.vmem args.memory_size)
  unfolding mem_init
  mem_init-IsSized args = by_address env.vmem
    where
      by_address : (vmem : Option ℕ) → Holds (IsSized args) (mem_init vmem args.memory_size)
      by_address none = tt
      by_address (some vmem) =
          Holds-if (IsSized args) (bit_and vmem (page_size - 1) == 0) _ _
            (refl, record { byte = λ a. omega arith }) tt

  abbrev Loaded : ArgsContext → VCoreInit × Memory → Type 0
  Loaded args p = IsInit (with_sp env args) p.0 × IsSized args p.1

  load-Holds :
      (is_user : Bool) (args : ArgsContext) (m : Memory)
      → IsSized args m
      → Holds (Loaded args) (load env is_user args (with_sp env args) m)
  unfolding load
  load-Holds is_user args m (size, b) =
      Holds-if (Loaded args) args.binary _ _
        (Holds-mono (IsLoad (with_sp env args) m) (Loaded args)
          (ld_bin (env.files args.elf_name) (with_sp env args) m) sized
          (ld_bin-IsLoad (with_sp env args) (env.files args.elf_name) (with_sp env args) m b same))
        (Holds-mono (IsLoad (with_sp env args) m) (Loaded args)
          (ld_elf is_user (env.files args.elf_name) (with_sp env args) m) sized
          (ld_elf-IsLoad (with_sp env args) is_user (env.files args.elf_name) (with_sp env args) m
            (w.files args.elf_name) b same))
    where
      sized : (p : VCoreInit × Memory) → IsLoad (with_sp env args) m p → Loaded args p
      sized p (init, k) = (init, (k.same_size ∙ size, k.bytes))

      same : IsInit (with_sp env args) (with_sp env args)
      same = record {
        pc = w.garbage.pc;
        sp = refl;
        id = refl;
        opaque = refl;
        gp = w.garbage.gp;
        elf_brk = w.garbage.elf_brk;
      }

  module _ (host : Host H) where
    user_setup-Holds :
        (args : ArgsContext) (m : Memory) (h : H)
        → IsSized args m
        → Holds (λ p. IsSized args p.0) (user_setup env host args m h)
    unfolding user_setup
    user_setup-Holds args m h (size, b) =
        Holds->>= (IsSized args) (λ p. IsSized args p.0) (with_args env args m) _
          (texts args.elf_args)
          (λ m' s.
            Holds-after (λ p. IsSized args p.0)
              (emu_std host args.elf_stdin args.elf_stdout args.elf_stderr h) _ (λ h'. s))
      where
        texts :
            (text : Option (List ℕ))
            → Holds (IsSized args) (elim text [
              | none ↦ stop undefined
              | some chars ↦ emu_args env.args_allocated args.stack_base chars m
            ])
        texts none = tt
        texts (some chars) =
            Holds-mono (Kept m) (IsSized args) (emu_args env.args_allocated args.stack_base chars m)
              (λ m' k. (k.same_size ∙ size, k.bytes))
              (emu_args-Kept env.args_allocated args.stack_base chars m b)

    pub setup-IsBooted :
        (is_user : Bool) (h : H) → Holds (IsBooted is_user env) (setup env host is_user h)
    unfolding setup
    setup-IsBooted is_user h =
        Holds->>= (IsLimited is_user) (IsBooted is_user env) (ctx_init is_user env.options) _
          (ctx_init-IsLimited is_user env.options)
          (λ args limits.
            Holds->>= (IsSized args) (IsBooted is_user env) (mem_init env.vmem args.memory_size) _
              (mem_init-IsSized args)
              (λ m s.
                Holds->>= (λ p. IsSized args p.0) (IsBooted is_user env) (prepared args m) _
                  (Holds-if (λ p. IsSized args p.0) is_user _ _ (user_setup-Holds args m h s) s)
                  (λ ready s'.
                    Holds->>= (Loaded args) (IsBooted is_user env)
                      (load env is_user args (with_sp env args) ready.0) _
                      (load-Holds is_user args ready.0 s')
                      (λ p l.
                        Holds->>= (AreThreads (ctx_of args) p.0 env.fresh) (IsBooted is_user env)
                          (threads_mgr_init env.threads_allocated env.conds env.fresh (ctx_of args)
                            p.0)
                          _
                          (threads_mgr_init-AreThreads env.threads_allocated env.conds env.fresh
                            (ctx_of args) p.0)
                          (λ ts t. record {
                            limits = limits;
                            memory = l.1;
                            init = p.0;
                            loaded = l.0;
                            threads = t;
                            words = threads-IsCore is_user args p.0 ts limits l.0 t;
                          })))))
      where
        prepared : ArgsContext → Memory → Outcome (Memory × H)
        prepared args m = if is_user then user_setup env host args m h else ok (m, h)
