-- ===== src/Exception.antt =====
-- armboot/system/exception.c: the set-up and the handler of exceptions, which prints what happened and
-- ends in a blink code; the handler here has one pass of its endless loop. A read of a table or of the
-- saved registers out of their bounds gives no result. Names that messages show are read and left out.
pub mod Bounds
use vwii_nand_tools.Base.{
  ℕ, zero, suc, Bool, true, false, none, some, ◌+◌, ◌-◌, ◌^◌, u32, ◌&&&◌, ◌>>>◌, ◌|||◌, ◌==◌, ◌!=◌,
  ltb, if◌then◌else◌, List, [], ◌∷◌, get_elem?, String,
}
use vwii_nand_tools.Machine.{M, Call, call, pure, ask, run, when, read32, gecko_printf, ◌>>=◌, ◌>>◌}
use vwii_nand_tools.Console.Blink.{panic2_setup, panic2_pass}

abbrev pub exceptions : List String
exceptions =
    "RESET" ∷ "UNDEFINED INSTR" ∷ "SWI" ∷ "INSTR ABORT" ∷ "DATA ABORT" ∷ "RESERVED" ∷ "IRQ" ∷ "FIQ"
    ∷ "(unknown exception type)" ∷ []

abbrev pub aborts : List String
aborts =
    "UNDEFINED" ∷ "Alignment" ∷ "UNDEFINED" ∷ "Alignment" ∷ "UNDEFINED" ∷ "Translation"
    ∷ "UNDEFINED" ∷ "Translation" ∷ "External abort" ∷ "Domain" ∷ "External abort" ∷ "Domain"
    ∷ "External abort on translation (first level)" ∷ "Permission"
    ∷ "External abort on translation (second level)" ∷ "Permission" ∷ []

abbrev pub domvalid : List ℕ
domvalid = 0 ∷ 0 ∷ 0 ∷ 0 ∷ 0 ∷ 0 ∷ 0 ∷ 1 ∷ 0 ∷ 1 ∷ 0 ∷ 1 ∷ 0 ∷ 1 ∷ 1 ∷ 1 ∷ []

abbrev pub panic_exception : List ℕ
panic_exception = 1 ∷ 3 ∷ 1 ∷ []

unfoldable pub exception_initialize : M (Unit {0})
exception_initialize = do
  run Call.exc_setup_stack
  cr ← ask (call Call.get_cr)
  run (Call.set_cr (u32 cr ||| 0x2))

-- An entry of an array.
unfoldable pub entry : {A : Type 0} → List A → ℕ → M A
entry xs i w = elim (get_elem? xs i) [ none ↦ none | some x ↦ some (x, w) ]

-- `type`, cut to the entries of the table.
unfoldable pub clamped : ℕ → ℕ
clamped kind = if ltb 8 kind then 8 else kind

-- `x - d` on 32 bits.
abbrev pub less : ℕ → ℕ → ℕ
less x d = u32 (x + (2 ^ 32 - d))

-- The address that the exception is laid to.
unfoldable pub fault_pc : ℕ → ℕ → ℕ
fault_pc kind r15 =
    if kind == 4
    then less r15 8
    else if kind == 1
    then less r15 4
    else if kind == 2
    then less r15 4
    else if kind == 3
    then less r15 4
    else if kind == 7
    then less r15 4
    else r15

-- Four registers on a line.
unfoldable pub show_four : String → List ℕ → ℕ → M (Unit {0})
unfolding entry
show_four text regs i = do
  a ← entry regs i
  b ← entry regs (i + 1)
  c ← entry regs (i + 2)
  d ← entry regs (i + 3)
  gecko_printf text (a ∷ b ∷ c ∷ d ∷ [])

unfoldable pub show_last : List ℕ → ℕ → M (Unit {0})
unfolding entry
show_last regs pc = do
  a ← entry regs 12
  b ← entry regs 13
  c ← entry regs 14
  gecko_printf "R12-R15: %08x %08x %08x %08x\n" (a ∷ b ∷ c ∷ pc ∷ [])

unfoldable pub show_system : ℕ → M (Unit {0})
show_system spsr = do
  gecko_printf "SPSR: %08x\n" (spsr ∷ [])
  cpsr ← ask (call Call.get_cpsr)
  gecko_printf "CPSR: %08x\n" (u32 cpsr ∷ [])
  cr ← ask (call Call.get_cr)
  gecko_printf "CR:   %08x\n" (u32 cr ∷ [])
  ttbr ← ask (call Call.get_ttbr)
  gecko_printf "TTBR: %08x\n" (u32 ttbr ∷ [])
  dacr ← ask (call Call.get_dacr)
  gecko_printf "DACR: %08x\n" (u32 dacr ∷ [])

-- The cause of an abort, from the status that was read.
unfoldable pub show_abort : ℕ → ℕ → M (Unit {0})
unfolding entry
show_abort kind fsr = do
  name ← entry aborts (fsr &&& 0xf)
  gecko_printf "Abort type: %s\n" []
  valid ← entry domvalid (fsr &&& 0xf)
  when (valid != 0) (gecko_printf "Domain: %d\n" (((fsr >>> 4) &&& 0xf) ∷ []))
  when (kind == 4)
      (do far ← ask (call Call.get_far); gecko_printf "Address: 0x%08x\n" (u32 far ∷ []))

unfoldable pub show_cause : ℕ → M (Unit {0})
unfolding show_abort
show_cause kind =
    if kind == 3
    then (do fsr ← ask (call Call.get_ifsr); show_abort kind (u32 fsr))
    else if kind == 4
    then (do fsr ← ask (call Call.get_dfsr); show_abort kind (u32 fsr))
    else pure tt

-- Four words of code on a line.
unfoldable pub show_code : String → ℕ → M (Unit {0})
show_code text at = do
  a ← read32 at
  b ← read32 (u32 (at + 4))
  c ← read32 (u32 (at + 8))
  d ← read32 (u32 (at + 12))
  gecko_printf text (at ∷ a ∷ b ∷ c ∷ d ∷ [])

unfoldable pub exc_handler : ℕ → ℕ → List ℕ → M (Unit {0})
unfolding clamped fault_pc show_four show_last show_system show_cause show_code
exc_handler type spsr regs = do
  let kind = clamped type
  name ← entry exceptions kind
  gecko_printf "\nException %d (%s):\n" (kind ∷ [])
  r15 ← entry regs 15
  let pc = fault_pc kind r15
  gecko_printf "Registers (%p):\n" []
  show_four "  R0-R3: %08x %08x %08x %08x\n" regs 0
  show_four "  R4-R7: %08x %08x %08x %08x\n" regs 4
  show_four " R8-R11: %08x %08x %08x %08x\n" regs 8
  show_last regs pc
  show_system spsr
  show_cause kind
  when (kind != 3) (do
    gecko_printf "Code dump:\n" []
    show_code "%08x:  %08x %08x %08x %08x\n" (less pc 16)
    show_code "%08x: *%08x %08x %08x %08x\n" pc
    show_code "%08x:  %08x %08x %08x %08x\n" (u32 (pc + 16)))
  panic2_setup
  panic2_pass panic_exception
