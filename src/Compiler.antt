-- ===== src/Compiler.antt =====
-- vm/compiler.go and rustlib/rustlib/src/compiler.rs: the options of the Luau compiler. A Go `int`
-- is its bit pattern, a number below 2 ^ 64.
use gluau.Prelude.{ℕ, ◌%◌, ◌^◌, ◌≡◌, refl}
use gluau.Mluau.{CompilerSettings}

-- The named levels, which stand for 0, 1 and 2 in their order.
pub data OptimizationLevel : Type 0 where
  none basic full : OptimizationLevel

pub data DebugLevel : Type 0 where
  none line_info full : DebugLevel

pub data TypeInfoLevel : Type 0 where
  native_modules all_modules : TypeInfoLevel

pub data CoverageLevel : Type 0 where
  none basic full : CoverageLevel

abbrev optimization_number : OptimizationLevel → ℕ
optimization_number OptimizationLevel.none = 0
optimization_number OptimizationLevel.basic = 1
optimization_number OptimizationLevel.full = 2

abbrev debug_number : DebugLevel → ℕ
debug_number DebugLevel.none = 0
debug_number DebugLevel.line_info = 1
debug_number DebugLevel.full = 2

abbrev type_info_number : TypeInfoLevel → ℕ
type_info_number TypeInfoLevel.native_modules = 0
type_info_number TypeInfoLevel.all_modules = 1

abbrev coverage_number : CoverageLevel → ℕ
coverage_number CoverageLevel.none = 0
coverage_number CoverageLevel.basic = 1
coverage_number CoverageLevel.full = 2

pub record CompilerOpts : Type 0 where
  pub optimization_level : ℕ
  pub debug_level : ℕ
  pub type_info_level : ℕ
  pub coverage_level : ℕ

-- `C.uint8_t(n)` keeps the low byte.
abbrev pub to_uint8 : ℕ → ℕ
to_uint8 n = n % 2 ^ 8

-- `struct CompilerOpts` of C
pub record CompilerLevels : Type 0 where
  pub optimization_level : ℕ
  pub debug_level : ℕ
  pub type_info_level : ℕ
  pub coverage_level : ℕ

abbrev pub to_c : CompilerOpts → CompilerLevels
to_c opts = record {
  optimization_level = to_uint8 opts.optimization_level;
  debug_level = to_uint8 opts.debug_level;
  type_info_level = to_uint8 opts.type_info_level;
  coverage_level = to_uint8 opts.coverage_level;
}

abbrev pub to_compiler : CompilerLevels → CompilerSettings
to_compiler c = record {
  optimization_level = c.optimization_level;
  debug_level = c.debug_level;
  type_info_level = c.type_info_level;
  coverage_level = c.coverage_level;
}

abbrev named_opts : OptimizationLevel → DebugLevel → TypeInfoLevel → CoverageLevel → CompilerOpts
named_opts o d t c = record {
  optimization_level = optimization_number o;
  debug_level = debug_number d;
  type_info_level = type_info_number t;
  coverage_level = coverage_number c;
}

optimization_byte :
    (o : OptimizationLevel) → to_uint8 (optimization_number o) ≡ optimization_number o
optimization_byte OptimizationLevel.none = refl
optimization_byte OptimizationLevel.basic = refl
optimization_byte OptimizationLevel.full = refl

debug_byte : (d : DebugLevel) → to_uint8 (debug_number d) ≡ debug_number d
debug_byte DebugLevel.none = refl
debug_byte DebugLevel.line_info = refl
debug_byte DebugLevel.full = refl

type_info_byte : (t : TypeInfoLevel) → to_uint8 (type_info_number t) ≡ type_info_number t
type_info_byte TypeInfoLevel.native_modules = refl
type_info_byte TypeInfoLevel.all_modules = refl

coverage_byte : (c : CoverageLevel) → to_uint8 (coverage_number c) ≡ coverage_number c
coverage_byte CoverageLevel.none = refl
coverage_byte CoverageLevel.basic = refl
coverage_byte CoverageLevel.full = refl

-- Named levels reach mluau's compiler as they are.
to_compiler-named_opts :
    (o : OptimizationLevel) (d : DebugLevel) (t : TypeInfoLevel) (c : CoverageLevel)
    → to_compiler (to_c (named_opts o d t c)) ≡ (record {
      optimization_level = optimization_number o;
      debug_level = debug_number d;
      type_info_level = type_info_number t;
      coverage_level = coverage_number c;
    })
to_compiler-named_opts o d t c =
    rw (optimization_byte o, debug_byte d, type_info_byte t, coverage_byte c)
