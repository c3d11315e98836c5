-- ===== src/Step/Zero.antt =====
-- extension/rv64_cpu.c: x0 is zero after every step.
use pglinux.Base.{
  ℕ, ◌+◌, ◌≡◌, refl, subst, Bool, false, if_both, if_split, if_yes, if_no, Option, none, some, ◌==◌,
  if◌then◌else◌,
}
use pglinux.Fpu.{Host, fp_exec}
use pglinux.Fpu.Leak.{leaks, fp_exec-ZeroX0}
use pglinux.Trap.{trap}
use pglinux.Word.{u64, ◌&&&◌, u16}
use pglinux.Ram.{Memory}
use pglinux.Virtio.{VirtioDev}
use pglinux.Cpu.{Cpu, Access}
use pglinux.Cpu.Zero.{ZeroX0, same_x}
use pglinux.Mem.{cpu_load}
use pglinux.Mem.Keeps.{x-cpu_load, match_Loaded}
use pglinux.Rvc.Expand.{expand}
use pglinux.Exec.{exec, Flow, done, left, FpResult}
use pglinux.Exec.Zero.{Zero-result, FpKeepsZero, exec-Zero, trap-ZeroX0}
use pglinux.Step.{Fetched, word, no_word, retire, fetch, step_word, rv64_step}

retire-ZeroX0 : (r : Flow × Cpu) → ZeroX0 r.1 → ZeroX0 (retire r)
unfolding retire
retire-ZeroX0 (done next_pc, c) z = same_x c _ refl z
retire-ZeroX0 (left, c) z = z

module _ (net_process : VirtioDev → ℕ → Memory → ℕ → VirtioDev × Memory)
    (fp_exec : Cpu → ℕ → FpResult × Cpu) where
  Held : Fetched × Cpu → Type 0
  Held r = ZeroX0 r.1

  held : (f : Fetched) (c : Cpu) → ZeroX0 c → Held (f, c)
  unfolding Held
  held f c z = z

  fetch-Held : (c : Cpu) → ZeroX0 c → Held (fetch net_process fp_exec c)
  unfolding fetch
  fetch-Held c z =
      let got = cpu_load net_process c c.pc 4 Access.exec in
      let z1 : ZeroX0 got.1 = same_x c _ (x-cpu_load net_process c c.pc 4 Access.exec) z in
      let got2 = cpu_load net_process got.1 got.1.pc 2 Access.exec in
      let z2 : ZeroX0 got2.1 =
        same_x got.1 _ (x-cpu_load net_process got.1 got.1.pc 2 Access.exec) z1 in
      match_Loaded Held got.0
        (λ e.
          match_Loaded Held got2.0 (λ e2. held _ _ (trap-ZeroX0 got2.1 e2 got2.1.pc z2))
            λ v.
              if_both Held ((v &&& 3) == 3) (held _ _ (trap-ZeroX0 got2.1 e got2.1.pc z2))
                (held _ _ z2))
        λ v. held _ _ z1

  -- The 32-bit instruction that a fetched word stands for, and that of the next step.
  unfoldable pub decoded : ℕ → Option ℕ
  decoded insn = if (insn &&& 3) == 3 then some insn else expand (u16 (insn &&& 0xFFFF))

  unfoldable pub next_insn : Cpu → Option ℕ
  next_insn c = elim (fetch net_process fp_exec c).0 [ no_word ↦ none | word insn ↦ decoded insn ]

  step_word-ZeroX0 :
      (c : Cpu) (insn : ℕ)
      → ((insn' : ℕ) → decoded insn ≡ some insn' → FpKeepsZero net_process fp_exec insn')
      → ZeroX0 c
      → ZeroX0 (step_word net_process fp_exec c insn)
  unfolding step_word decoded
  step_word-ZeroX0 c insn fp z =
      if_split ZeroX0 ((insn &&& 3) == 3)
        (λ long.
          retire-ZeroX0 _ (
            Zero-result _ (exec-Zero net_process fp_exec c insn _ (fp insn (if_yes _ _ _ long)) z)))
        λ short. expanded (expand (u16 (insn &&& 0xFFFF))) (if_no _ _ _ short)
    where
      expanded :
          (o : Option ℕ)
          → decoded insn ≡ o
          → ZeroX0 (elim o [
            | none ↦ trap c 2 (u16 (insn &&& 0xFFFF))
            | some insn' ↦ retire (exec net_process fp_exec c insn' (u64 (c.pc + 2)))
          ])
      expanded none e = trap-ZeroX0 c 2 _ z
      expanded (some insn') e =
          retire-ZeroX0 _ (Zero-result _ (exec-Zero net_process fp_exec c insn' _ (fp insn' e) z))

  step-ZeroX0 :
      (c : Cpu)
      → ((insn' : ℕ) → next_insn c ≡ some insn' → FpKeepsZero net_process fp_exec insn')
      → ZeroX0 c
      → ZeroX0 (rv64_step net_process fp_exec c)
  unfolding rv64_step Held next_insn
  step-ZeroX0 c fp z =
      if_both ZeroX0 c.halted z (after (fetch net_process fp_exec c) (fetch-Held c z) λ i e. fp i e)
    where
      after :
          (r : Fetched × Cpu)
          → Held r
          → ((insn' : ℕ)
              → elim r.0 [ no_word ↦ none | word insn ↦ decoded insn ] ≡ some insn'
              → FpKeepsZero net_process fp_exec insn')
          → ZeroX0 (elim r.0 [ no_word ↦ r.1 | word insn ↦ step_word net_process fp_exec r.1 insn ])
      after (no_word, d) h fp' = h
      after (word insn, d) h fp' = step_word-ZeroX0 d insn fp' h

module _ (host : Host) (net_process : VirtioDev → ℕ → Memory → ℕ → VirtioDev × Memory) where
  -- Does the next instruction have a floating-point operation with an integer result for x0?
  unfoldable pub next_leaks : Cpu → Bool
  next_leaks c = elim (next_insn net_process (fp_exec host net_process) c) [
    | none ↦ false
    | some insn ↦ leaks host insn
  ]

  -- A step with the floating-point unit keeps x0 at zero, on all instructions, traps and memory
  -- accesses, unless the instruction is a floating-point one with an integer result for x0.
  pub rv64_step-ZeroX0 :
      (c : Cpu)
      → next_leaks c ≡ false
      → ZeroX0 c
      → ZeroX0 (rv64_step net_process (fp_exec host net_process) c)
  unfolding next_leaks
  rv64_step-ZeroX0 c quiet z =
      step-ZeroX0 net_process (fp_exec host net_process) c
        (λ insn e d zd.
          fp_exec-ZeroX0 host insn net_process d
            (subst (λ (o : Option ℕ). elim o [ none ↦ false | some i ↦ leaks host i ] ≡ false) e
              quiet)
            zd)
        z
