-- ===== src/Tests/Floats.antt =====
-- Runs of the theorems on floating-point instructions.
use pglinux.Base.{◌≡◌, refl, true}
use pglinux.Tests.Data.{user_cpu, no_net, toy_host}
use pglinux.Fpu.{fp_exec}
use pglinux.Fpu.Boxed.{BoxedResult, single_insn, fp_exec-BoxedResult}
use pglinux.Fpu.Frame.{Frame, int_insn, fp_exec-Frame}

-- FMV.X.D x3, f5
fp_exec-Frame_example :
    Frame user_cpu 3 (int_insn toy_host 0xE20281D3) (fp_exec toy_host no_net user_cpu 0xE20281D3)
fp_exec-Frame_example = fp_exec-Frame toy_host no_net user_cpu 0xE20281D3

-- FCVT.S.D f3, f1
narrow_is_single : single_insn 0x401081D3 ≡ true
unfolding single_insn
narrow_is_single = refl

fp_exec-BoxedResult_example : BoxedResult 3 (fp_exec toy_host no_net user_cpu 0x401081D3)
fp_exec-BoxedResult_example =
    fp_exec-BoxedResult toy_host no_net user_cpu 0x401081D3 narrow_is_single
