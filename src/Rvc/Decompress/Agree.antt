-- ===== src/Rvc/Decompress/Agree.antt =====
-- extension/rv64_jit.c and rv64_cpu.c: the JIT's decompressor against the interpreter's.
use pglinux.Base.{ℕ, ◌≡◌, ◌≢◌, some, arith}
use pglinux.Word.{◌>>>◌}
use pglinux.Word.Bits.Fields.{and_mask}
use pglinux.Rvc.Expand.{expand, quadrant0, quadrant1, quadrant2, register_ops}
use pglinux.Rvc.Decompress.{decompress, decompress0, decompress1, decompress2, decompress_ops}

agree0 : (ci : ℕ) → decompress0 ci ≢ 0 → quadrant0 ci ≡ some (decompress0 ci)
unfolding decompress0 quadrant0
agree0 ci h = ground arith

agree_ops : (ci : ℕ) → decompress_ops ci ≢ 0 → register_ops ci ≡ some (decompress_ops ci)
unfolding decompress_ops register_ops
agree_ops ci h = ground arith

agree1 : (ci : ℕ) → decompress1 ci ≢ 0 → quadrant1 ci ≡ some (decompress1 ci)
unfolding decompress1 quadrant1
agree1 ci h = ground (arith, agree_ops ci, and_mask 3 (ci >>> 13), and_mask 2 (ci >>> 10))

agree2 : (ci : ℕ) → decompress2 ci ≢ 0 → quadrant2 ci ≡ some (decompress2 ci)
unfolding decompress2 quadrant2
agree2 ci h = ground arith

-- Whatever the JIT decompresses, the interpreter expands to the same instruction.
pub decompress-expand : (ci : ℕ) → decompress ci ≢ 0 → expand ci ≡ some (decompress ci)
unfolding decompress expand
decompress-expand ci h = ground (arith, agree0 ci, agree1 ci, agree2 ci)
