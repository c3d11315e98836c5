-- ===== src/Jit/Runs.antt =====
-- extension/rv64_sljit.c: what the short sequences of calls do that `jit_compile_block` is made of.
use mathlib.Core.List.{append_assoc}
use pglinux.Base.{
  ℕ, ◌≡◌, sym, ap, ◌∙◌, fun_ext, false, Option, none, List, ◌++◌, ◌==◌, if◌then◌else◌, if_split,
  ==→eq, update, arith,
}
use pglinux.Ram.{Memory}
use pglinux.Virtio.{VirtioDev}
use pglinux.Cpu.{Cpu, set_reg}
use pglinux.Exec.{FpResult}
use pglinux.Jit.Calls.{Op2, Condition, Place, Call}
use pglinux.Jit.Emit.{emit_load_guest, emit_store_guest, on_r0, set_less}
use pglinux.Jit.Engine.{Sljit, IsSljit, Host, get, put, run}

-- A write to x0 changes nothing.
set_reg_zero : (c : Cpu) (v : ℕ) → c.x 0 ≡ 0 → c ≡ set_reg c 0 v
unfolding set_reg
set_reg_zero c v h =
    ap (λ (x : ℕ → ℕ). let d : Cpu = record c { x = x } in d)
      (fun_ext λ j. ground (arith, h, ap c.x {x = j} {y = 0}))

-- Another one needs no second write.
set_reg_other :
    (c : Cpu) (rd v : ℕ)
    → c.x 0 ≡ 0
    → (rd == 0) ≡ false
    → record c { x = update c.x rd v } ≡ set_reg c rd v
unfolding set_reg
set_reg_other c rd v h ne =
    ap (λ (x : ℕ → ℕ). let d : Cpu = record c { x = x } in d)
      (fun_ext λ j. ground (arith, h, ne, ap c.x {x = j} {y = 0}))

module _ (s : Sljit) (law : IsSljit s)
    (net_process : VirtioDev → ℕ → Memory → ℕ → VirtioDev × Memory)
    (fp_exec : Cpu → ℕ → FpResult × Cpu) where
  -- The calls take `h` to `k`, and the code goes on behind them or at a label.
  abbrev pub RunsTo : List Call → Host → Option ℕ → Host → Type 0
  RunsTo calls h target k =
      (rest : List Call)
      → run s net_process fp_exec none (calls ++ rest) h ≡ run s net_process fp_exec target rest k

  pub then_runs :
      (a b : List Call) (h k l : Host) (target : Option ℕ)
      → RunsTo a h none k
      → RunsTo b k target l
      → RunsTo (a ++ b) h target l
  then_runs a b h k l target p q rest = rw (append_assoc a b rest) (p (b ++ rest) ∙ q rest)

  load_guest-put :
      (p : Place) (g : ℕ) (h : Host)
      → h.cpu.x 0 ≡ 0
      → RunsTo (emit_load_guest p g) h none (put s p (h.cpu.x g) h)
  unfolding emit_load_guest run get
  load_guest-put p g h zero =
      if_split (λ (cs : List Call). RunsTo cs h none (put s p (h.cpu.x g) h)) (g == 0)
        (λ e rest.
          ap (λ (v : ℕ). run s net_process fp_exec none rest (put s p v h))
            (law.mov 0 ∙ sym zero ∙ ap h.cpu.x (sym (==→eq g 0 e))))
        λ e rest.
          ap (λ (v : ℕ). run s net_process fp_exec none rest (put s p v h)) (law.mov (h.cpu.x g))

  pub load_guest-r0 :
      (g : ℕ) (h : Host)
      → h.cpu.x 0 ≡ 0
      → RunsTo (emit_load_guest Place.r0 g) h none (record h { r0 = h.cpu.x g })
  unfolding put
  load_guest-r0 g h zero = load_guest-put Place.r0 g h zero

  pub load_guest-r1 :
      (g : ℕ) (h : Host)
      → h.cpu.x 0 ≡ 0
      → RunsTo (emit_load_guest Place.r1 g) h none (record h { r1 = h.cpu.x g })
  unfolding put
  load_guest-r1 g h zero = load_guest-put Place.r1 g h zero

  pub load_guest-r3 :
      (g : ℕ) (h : Host)
      → h.cpu.x 0 ≡ 0
      → RunsTo (emit_load_guest Place.r3 g) h none (record h { r3 = h.cpu.x g })
  unfolding put
  load_guest-r3 g h zero = load_guest-put Place.r3 g h zero

  -- R0 into a guest register, as WR does it.
  pub store_guest :
      (g : ℕ) (h : Host)
      → h.cpu.x 0 ≡ 0
      → RunsTo (emit_store_guest g Place.r0) h none (record h { cpu = set_reg h.cpu g h.r0 })
  unfolding emit_store_guest run get put
  store_guest g h zero =
      if_split (λ (cs : List Call). RunsTo cs h none (record h { cpu = set_reg h.cpu g h.r0 }))
        (g == 0)
        (λ e rest.
          ap (λ (c : Cpu). run s net_process fp_exec none rest (record h { cpu = c }))
            (set_reg_zero h.cpu h.r0 zero
              ∙ ap (λ (t : ℕ). set_reg h.cpu t h.r0) (sym (==→eq g 0 e))))
        λ e rest.
          ap (λ (c : Cpu). run s net_process fp_exec none rest (record h { cpu = c }))
            (ap (λ (v : ℕ). let d : Cpu = record h.cpu { x = update h.cpu.x g v } in d)
                (law.mov h.r0)
              ∙ set_reg_other h.cpu g h.r0 zero e)

  -- The calls put `v` into R0, and touch nothing else but the operands of the last comparison.
  pub record Wrote (calls : List Call) (h : Host) (v : ℕ) : Type 0 where
    pub left : ℕ
    pub right : ℕ
    pub runs : RunsTo calls h none (record h { r0 = v; left = left; right = right })

  pub on_r0-Wrote :
      (op : Op2) (b : Place) (h : Host) (v : ℕ)
      → s.op2 op h.r0 (get s b h) ≡ v
      → Wrote (on_r0 op b) h v
  unfolding run get put
  on_r0-Wrote op b h v e = record {
    left = h.left;
    right = h.right;
    runs = λ rest. ap (λ (t : ℕ). run s net_process fp_exec none rest (record h { r0 = t })) e;
  }

  pub set_less-Wrote :
      (cond : Condition) (b : Place) (h : Host) (v : ℕ)
      → (if s.holds cond h.r0 (get s b h) then 1 else 0) ≡ v
      → Wrote (set_less cond b) h v
  unfolding run get put
  set_less-Wrote cond b h v e = record {
    left = h.r0;
    right = get s b h;
    runs = λ rest.
        ap
          (λ (t : ℕ).
            run s net_process fp_exec none rest
              (record h { r0 = t; left = h.r0; right = get s b h }))
          e;
  }
