-- ===== src/Jit/Whole/Turn.antt =====
-- extension/rv64_sljit.c: the code of a turn of the loop, followed by that of the later ones.
use mathlib.Core.Bool.{false≢true, true≢false}
use pglinux.Base.{
  ℕ, suc, ◌+◌, ◌^◌, ◌<◌, ◌≡◌, ◌⊎◌, inl, inr, refl, sym, ap, subst, ◌∙◌, Bool, true, false, not,
  ◌&&◌, ◌||◌, Option, none, some, List, [], ◌∷◌, ◌++◌, ◌==◌, ltb, if◌then◌else◌, if_both, arith,
}
use pglinux.Word.{u64}
use pglinux.Ram.{Memory}
use pglinux.Virtio.{VirtioDev}
use pglinux.Cpu.{Cpu}
use pglinux.Decode.{opcode}
use pglinux.Exec.{FpResult, done, exec}
use pglinux.Jit.Calls.{Call, Place}
use pglinux.Jit.Emit.{Emitted, emit_insn, unsupported, mov_to}
use pglinux.Jit.Engine.{Sljit, IsSljit, Host, get, put, run}
use pglinux.Jit.Runs.{RunsTo, then_runs}
use pglinux.Jit.Skips.{Skips, skipped_after, Skips-append, emit_insn-Skips}
use pglinux.Jit.Insn.{Does, goes, jumps, faults, leaves}
use pglinux.Jit.Every.{Agrees, emit_insn-Does}
use pglinux.Jit.Idle.{Idle, nothing_emitted, emit_insn-Idle}
use pglinux.Jit.Block.{Body, JitState, compile_word, emit_word, unpack, count_one, is_disabled}
use pglinux.Jit.Whole.{Insns, word_insns, Interprets, AgreeAlong}

-- The three ways in which a turn ends.
turn_cases {ℓ} :
    (P : Body → Insns → Type ℓ) (supported ended : Bool) {a b c : Body} {d e f : Insns}
    → (supported ≡ false → P a d)
    → (supported ≡ true → ended ≡ true → P b e)
    → (supported ≡ true → ended ≡ false → P c f)
    → P
        (if not supported then a else if ended then b else c)
        (if not supported then d else if ended then e else f)
turn_cases P false ended p q r = p refl
turn_cases P true true p q r = q refl refl
turn_cases P true false p q r = r refl refl

module _ (s : Sljit) (law : IsSljit s)
    (net_process : VirtioDev → ℕ → Memory → ℕ → VirtioDev × Memory)
    (fp_exec : Cpu → ℕ → FpResult × Cpu) where
  -- The calls do what the interpreter does with the instructions, count the ones that it completes, and
  -- go on behind the block or at the epilogue.
  pub record Ran (calls : List Call) (h : Host) (is : Insns) : Type 0 where
    pub after : Host
    pub target : Option ℕ
    pub n : ℕ
    pub runs : RunsTo s law net_process fp_exec calls h target after
    pub at_end : (target ≡ none) ⊎ (target ≡ some 0)
    pub made : Interprets net_process fp_exec is h.cpu after.cpu n
    pub count : after.count ≡ h.count + n

  -- A word that is not expanded, or whose opcode is disabled, or an instruction.
  emit_word_cases {ℓ} :
      (P : Emitted → Type ℓ) (jit : JitState) (pc word : ℕ)
      → P (unsupported [])
      → P (emit_insn pc (unpack word).0 (unpack word).1)
      → P (emit_word jit pc word)
  unfolding emit_word
  emit_word_cases P jit pc word p q =
      let i = unpack word in
      if_both P (i.1 == 2 && i.0 == 0) p (if_both P (is_disabled jit (opcode i.0)) p q)

  module _ (jit : JitState) (word : ℕ) (h : Host) where
    abbrev em : Emitted
    em = emit_word jit h.cpu.pc word

    abbrev next_pc : ℕ
    next_pc = u64 (h.cpu.pc + (unpack word).1)

    word_stays : h.cpu.x 0 ≡ 0 → em.supported ≡ false → Idle s law net_process fp_exec em.calls h
    word_stays zero =
        emit_word_cases
          (λ (em : Emitted). em.supported ≡ false → Idle s law net_process fp_exec em.calls h) jit
          h.cpu.pc word (λ off. nothing_emitted s law net_process fp_exec 0 0 0 h zero)
          (emit_insn-Idle s law net_process fp_exec (unpack word).0 h.cpu.pc (unpack word).1 h zero)

    word-Skips : Skips s law net_process fp_exec em.calls
    unfolding run
    word-Skips =
        emit_word_cases (λ (em : Emitted). Skips s law net_process fp_exec em.calls) jit h.cpu.pc
          word (λ rest k. refl)
          (emit_insn-Skips s law net_process fp_exec h.cpu.pc (unpack word).0 (unpack word).1)

    abbrev Same : Type 0
    Same =
        Does s law net_process fp_exec em h next_pc
          (exec net_process fp_exec h.cpu (unpack word).0 next_pc)

    word-Does : Agrees net_process (unpack word).0 h.cpu → em.supported ≡ true → Same
    word-Does a =
        emit_word_cases
          (λ (em : Emitted).
            em.supported ≡ true
            → Does s law net_process fp_exec em h next_pc
                (exec net_process fp_exec h.cpu (unpack word).0 next_pc))
          jit h.cpu.pc word (λ on. absurd (false≢true on))
          (emit_insn-Does s law net_process fp_exec (unpack word).0 (unpack word).1 h a)

    refused_turn : h.cpu.x 0 ≡ 0 → em.supported ≡ false → Ran em.calls h []
    refused_turn zero off =
        let idle = word_stays zero off in
        record {
          after = idle.after;
          target = none;
          n = 0;
          runs = idle.runs;
          at_end = inl refl;
          made = Interprets.stands idle.cpu;
          count = idle.count ∙ omega arith;
        }

    -- Behind the block, or at a jump to the epilogue.
    stopped_turn :
        (tail : List Call) (is : Insns) (k : Host)
        → RunsTo s law net_process fp_exec em.calls h (some 0) k
        → Skips s law net_process fp_exec tail
        → k.count ≡ h.count
        → Interprets net_process fp_exec is h.cpu k.cpu 0
        → Ran (em.calls ++ tail) h is
    stopped_turn tail is k runs skips count made = record {
      after = k;
      target = some 0;
      n = 0;
      runs = skipped_after s law net_process fp_exec em.calls tail h k runs skips;
      at_end = inr refl;
      made = made;
      count = count ∙ omega arith;
    }

    count_one-Skips : Skips s law net_process fp_exec (count_one ∷ [])
    unfolding run
    count_one-Skips rest k = refl

    counted : Host → Host
    counted k = record k { count = u64 (k.count + 1) }

    -- The last turn of a block that ends with a jump of the guest.
    last_turn :
        em.ended ≡ true
        → h.count + 1 < 2 ^ 64
        → Same
        → Ran (em.calls ++ (count_one ∷ [])) h (unpack word ∷ [])
    unfolding run get put counted
    last_turn end room (goes k runs off count e) = absurd (true≢false (sym end ∙ off))
    last_turn end room (jumps k n c runs on count cpu e) = record {
      after = counted k;
      target = none;
      n = 1;
      runs =
          then_runs s law net_process fp_exec em.calls (count_one ∷ []) h k (counted k) none runs
            λ rest. rw (law.add) refl;
      at_end = inl refl;
      made = Interprets.completes e (Interprets.stands cpu);
      count = omega (arith, room, count);
    }
    last_turn end room (faults k exc addr runs count e) =
        stopped_turn (count_one ∷ []) _ k runs count_one-Skips count (Interprets.faults exc addr e)
    last_turn end room (leaves k runs count e) =
        stopped_turn (count_one ∷ []) _ k runs count_one-Skips count (Interprets.leaves e)

    -- The machine behind an instruction that goes on.
    gone : Host → Host
    gone k = record (counted k) { cpu = record k.cpu { pc = next_pc } }

    abbrev step_calls : List Call
    step_calls = count_one ∷ mov_to Place.guest_pc (Place.imm next_pc) ∷ []

    step_runs : (k : Host) → RunsTo s law net_process fp_exec step_calls k none (gone k)
    unfolding run get put counted gone
    step_runs k rest = rw (law.add, law.mov) refl

    step-Skips :
        (more : List Call)
        → Skips s law net_process fp_exec more
        → Skips s law net_process fp_exec (step_calls ++ more)
    unfolding run
    step-Skips more p rest k = p rest k

    next_turn :
        (more : List Call) (is : Insns)
        → em.ended ≡ false
        → h.count + 1 < 2 ^ 64
        → Skips s law net_process fp_exec more
        → ((d : Cpu)
            → exec net_process fp_exec h.cpu (unpack word).0 next_pc ≡ (done next_pc, d)
            → (k : Host) → k.cpu ≡ record d { pc = next_pc }
            → k.count ≡ h.count + 1
            → Ran more k is)
        → Same
        → Ran (em.calls ++ (step_calls ++ more)) h (unpack word ∷ is)
    unfolding counted gone
    next_turn more is on room skips ih (goes k runs off count e) =
        let r = ih k.cpu e (gone k) refl (omega (arith, room, count)) in
        record {
          after = r.after;
          target = r.target;
          n = suc r.n;
          runs =
              then_runs s law net_process fp_exec em.calls (step_calls ++ more) h k r.after r.target
                runs
                (then_runs s law net_process fp_exec step_calls more k (gone k) r.after r.target
                  (step_runs k) r.runs);
          at_end = r.at_end;
          made = Interprets.completes e r.made;
          count = omega (arith, r.count, room, count);
        }
    next_turn more is on room skips ih (jumps k n c runs end count cpu e) =
        absurd (true≢false (sym end ∙ on))
    next_turn more is on room skips ih (faults k exc addr runs count e) =
        stopped_turn (step_calls ++ more) _ k runs (step-Skips more skips) count
          (Interprets.faults exc addr e)
    next_turn more is on room skips ih (leaves k runs count e) =
        stopped_turn (step_calls ++ more) _ k runs (step-Skips more skips) count
          (Interprets.leaves e)

    module _ (jumps : ℕ) (c : Cpu) (rest : ℕ → ℕ → Body) (rest_insns : ℕ → ℕ → Insns) where
      abbrev n : ℕ
      n = if em.jumps then jumps + 1 else jumps

      abbrev more : Body
      more = rest next_pc n

      pub compile_word-Skips :
          Skips s law net_process fp_exec more.calls
          → Skips s law net_process fp_exec (compile_word jit h.cpu.pc jumps word c rest).calls
      unfolding compile_word
      compile_word-Skips p =
          turn_cases (λ (b : Body) (is : Insns). Skips s law net_process fp_exec b.calls)
            em.supported (em.ended || (em.jumps && ltb 60 n)) {d = []} {e = []} {f = []}
            (λ off. word-Skips)
            (λ on end.
              Skips-append s law net_process fp_exec em.calls (count_one ∷ []) word-Skips
                count_one-Skips)
            (λ on goes_on.
              Skips-append s law net_process fp_exec em.calls (step_calls ++ more.calls) word-Skips
                (step-Skips more.calls p))

      -- One turn, where the later ones are right and there are no more than 60 jumps to the epilogue.
      pub compile_word-Ran :
          h.count + 1 < 2 ^ 64
          → Skips s law net_process fp_exec more.calls
          → (more.num_epilogue_jumps < 61
              → (k : Host) → k.cpu.pc ≡ next_pc
              → k.count ≡ h.count + 1
              → AgreeAlong net_process fp_exec (rest_insns next_pc n) k.cpu
              → Ran more.calls k (rest_insns next_pc n))
          → (compile_word jit h.cpu.pc jumps word c rest).num_epilogue_jumps < 61
          → AgreeAlong net_process fp_exec (word_insns jit h.cpu.pc jumps word rest_insns) h.cpu
          → Ran
              (compile_word jit h.cpu.pc jumps word c rest).calls
              h
              (word_insns jit h.cpu.pc jumps word rest_insns)
      unfolding compile_word word_insns AgreeAlong
      compile_word-Ran room skips ih =
          turn_cases
            (λ (b : Body) (is : Insns).
              b.num_epilogue_jumps < 61
              → AgreeAlong net_process fp_exec is h.cpu
              → Ran b.calls h is)
            em.supported (em.ended || (em.jumps && ltb 60 n))
            (λ off few zero. refused_turn zero off)
            (λ on end few agree. last_turn (ground (arith, end, few)) room (word-Does agree.0 on))
            (λ on goes_on few agree.
              next_turn more.calls (rest_insns next_pc n) (ground (arith, goes_on)) room skips
                (λ d e k cpu count. ih few k (ap (λ (c : Cpu). c.pc) cpu) count (
                  subst (AgreeAlong net_process fp_exec (rest_insns next_pc n)) (sym cpu)
                    (agree.1 next_pc d e)))
                (word-Does agree.0 on))
