-- ===== src/Jit/Whole/Loop.antt =====
-- extension/rv64_sljit.c: the code of a whole block, from its entry to the result of the call.
use pglinux.Base.{
  ℕ, zero, suc, ◌+◌, ◌^◌, ◌<◌, ◌≡◌, ◌⊎◌, inl, inr, refl, sym, ap, subst, ◌∙◌, Option, none, some,
  [], ◌∷◌, ◌++◌, if◌then◌else◌, arith,
}
use pglinux.Word.{u32}
use pglinux.Ram.{Memory}
use pglinux.Virtio.{VirtioDev}
use pglinux.Cpu.{Cpu, Access}
use pglinux.Mem.{Loaded, value, trapped, cpu_load}
use pglinux.Exec.{FpResult}
use pglinux.Jit.Calls.{Place, emit_label}
use pglinux.Jit.Emit.{mov_to}
use pglinux.Jit.Engine.{Sljit, IsSljit, Host, get, put, run}
use pglinux.Jit.Skips.{Skips}
use pglinux.Jit.Block.{Body, JitState, compile_body, emit_word, block_calls, run_block}
use pglinux.Jit.Whole.{Insns, body_insns, Interprets, AgreeAlong}
use pglinux.Jit.Whole.Turn.{Ran, compile_word-Skips, compile_word-Ran}

-- A turn that fetched a word, or did not.
fetched_both {ℓ} :
    (P : Body → Insns → Type ℓ) (got : Loaded) (b : Body) (turn : ℕ → Body) (is : Insns)
    (insns : ℕ → Insns)
    → P b is
    → ((v : ℕ) → P (turn v) (insns v))
    → P
        (elim got [ trapped e ↦ b | value v ↦ turn v ])
        (elim got [ trapped e ↦ is | value v ↦ insns v ])
fetched_both P (trapped e) b turn is insns p q = p
fetched_both P (value v) b turn is insns p q = q v

module _ (s : Sljit) (law : IsSljit s)
    (net_process : VirtioDev → ℕ → Memory → ℕ → VirtioDev × Memory)
    (fp_exec : Cpu → ℕ → FpResult × Cpu) (jit : JitState) where
  no_turn : (h : Host) → Ran s law net_process fp_exec [] h []
  no_turn h = record {
    after = h;
    target = none;
    n = 0;
    runs = λ rest. refl;
    at_end = inl refl;
    made = Interprets.stands refl;
    count = omega arith;
  }

  abbrev body : ℕ → Cpu → ℕ → ℕ → Body
  body = compile_body net_process jit

  abbrev at_pc : ℕ → Host → Host
  at_pc pc h = record h { cpu = record h.cpu { pc = pc } }

  compile_body-Skips :
      (turns : ℕ) (c : Cpu) (pc jumps : ℕ) (h : Host)
      → Skips s law net_process fp_exec (body turns c pc jumps).calls
  unfolding compile_body
  compile_body-Skips zero c pc jumps h = λ rest k. refl
  compile_body-Skips (suc turns) c pc jumps h =
      let r = cpu_load net_process c pc 4 Access.exec in
      fetched_both (λ (b : Body) (is : Insns). Skips s law net_process fp_exec b.calls) r.0 _ _ []
        (λ v. []) (λ rest k. refl)
        λ val.
          compile_word-Skips s law net_process fp_exec jit (u32 val) (at_pc pc h) jumps r.1
            (body turns r.1) (λ next n. []) (compile_body-Skips turns r.1 _ _ h)

  -- The code of the turns does what the interpreter does.
  compile_body-Ran :
      (turns : ℕ) (c : Cpu) (jumps : ℕ) (h : Host)
      → h.count + turns < 2 ^ 64
      → (body turns c h.cpu.pc jumps).num_epilogue_jumps < 61
      → AgreeAlong net_process fp_exec (body_insns net_process jit turns c h.cpu.pc jumps) h.cpu
      → Ran s law net_process fp_exec
          (body turns c h.cpu.pc jumps).calls
          h
          (body_insns net_process jit turns c h.cpu.pc jumps)
  unfolding compile_body body_insns
  compile_body-Ran zero c jumps h room = λ few agree. no_turn h
  compile_body-Ran (suc turns) c jumps h room =
      let r = cpu_load net_process c h.cpu.pc 4 Access.exec in
      let Turn = λ (b : Body) (is : Insns).
        b.num_epilogue_jumps < 61
        → AgreeAlong net_process fp_exec is h.cpu
        → Ran s law net_process fp_exec b.calls h is in
      fetched_both Turn r.0 _ _ _ _ (λ few agree. no_turn h)
        λ val.
          compile_word-Ran s law net_process fp_exec jit (u32 val) h jumps r.1 (body turns r.1)
            (body_insns net_process jit turns r.1) (omega (arith, room))
            (compile_body-Skips turns r.1 _ _ h)
            λ few k pc count agree.
              let n = if (emit_word jit h.cpu.pc (u32 val)).jumps then jumps + 1 else jumps in
              subst
                (λ (p : ℕ).
                  (body turns r.1 p n).num_epilogue_jumps < 61
                  → AgreeAlong net_process fp_exec (body_insns net_process jit turns r.1 p n) k.cpu
                  → Ran s law net_process fp_exec (body turns r.1 p n).calls k
                      (body_insns net_process jit turns r.1 p n))
                pc (compile_body-Ran turns r.1 n k (omega (arith, room, count))) few agree

  module _ (start : Cpu → Host) (turns : ℕ) (built c : Cpu) (room : turns < 2 ^ 64) where
    -- The block at a pc, and its instructions.
    abbrev block : ℕ → Body
    block pc = body turns built pc 0

    abbrev pub insns : ℕ → Insns
    insns pc = body_insns net_process jit turns built pc 0

    abbrev ran : ℕ → ℕ × Cpu
    ran pc =
        run_block net_process jit fp_exec s start (block_calls net_process jit (block pc).calls) c

    abbrev entry : Host
    entry = record (start c) { count = 0 }

    -- The epilogue.
    epilogue_runs :
        (target : Option ℕ) (k : Host)
        → (target ≡ none) ⊎ (target ≡ some 0)
        → run s net_process fp_exec target (emit_label 0 ∷ mov_to Place.r0 Place.count_reg ∷ []) k
          ≡ record k { r0 = k.count }
    unfolding run get put
    epilogue_runs target k (inl e) = rw (e, law.mov) refl
    epilogue_runs target k (inr e) = rw (e, law.mov) refl

    entered_runs :
        (pc : ℕ) (is : Insns)
        → Ran s law net_process fp_exec (block pc).calls entry is
        → Interprets net_process fp_exec is (start c).cpu (ran pc).1 (ran pc).0
    unfolding run_block run get put
    entered_runs pc is r =
        let tail = emit_label 0 ∷ mov_to Place.r0 Place.count_reg ∷ [] in
        let from_zero : r.after.count ≡ r.n = omega (arith, r.count) in
        let counted : Interprets net_process fp_exec is (start c).cpu r.after.cpu r.after.count =
          subst (Interprets net_process fp_exec is (start c).cpu r.after.cpu) (sym from_zero)
            r.made in
        subst (λ (k : Host). Interprets net_process fp_exec is (start c).cpu k.cpu k.r0)
          (sym (
            ap
              (λ (v : ℕ).
                run s net_process fp_exec none ((block pc).calls ++ tail)
                  (record (start c) { count = v }))
              (law.mov 0)
            ∙ r.runs tail
            ∙ epilogue_runs r.target r.after r.at_end))
          counted

    -- The call of the code of a block does what the interpreter does with the instructions of the block,
    -- one after the other, and returns how many it completed: it stops behind the last one, before one
    -- that traps or after an instruction has trapped. The limit is below 2 ^ 64, the entry leaves the
    -- machine alone, the block has at most 60 jumps to its epilogue, x0 is zero, and the two agree on
    -- each instruction where it is reached.
    pub run_block-Interprets :
        (start c).cpu ≡ c
        → (block c.pc).num_epilogue_jumps < 61
        → AgreeAlong net_process fp_exec (insns c.pc) c
        → Interprets net_process fp_exec (insns c.pc) c (ran c.pc).1 (ran c.pc).0
    run_block-Interprets same =
        subst
          (λ (d : Cpu).
            (block d.pc).num_epilogue_jumps < 61
            → AgreeAlong net_process fp_exec (insns d.pc) d
            → Interprets net_process fp_exec (insns d.pc) d (ran d.pc).1 (ran d.pc).0)
          same
          λ few agree.
            entered_runs (start c).cpu.pc (insns (start c).cpu.pc)
              (compile_body-Ran turns built 0 entry (omega (arith, room)) few agree)
