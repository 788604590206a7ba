-- ===== src/Console/Blink.antt =====
-- Blink codes: one pass of the endless loops of `panic` and `binaryPanic` (armboot/common/utils.c) and of `panic2`
-- (system/panic.c). The stop mark of `panic2` is the end of the list.
use vwii_nand_tools.Base.{
  ℕ, zero, suc, true, false, none, some, ◌*◌, ◌/◌, u32, ◌==◌, ◌&&&◌, ◌!=◌, if◌then◌else◌, List, [],
  ◌∷◌,
}
use vwii_nand_tools.Machine.{M, Call, run, set32, clear32, ◌>>◌}
use vwii_nand_tools.Hollywood.{
  hw_gpio1out, hw_gpio1bout, hw_gpio1dir, hw_gpio1owner, hw_gpio1_sense,
}

-- `sensorbarOn` and `sensorbarOff` of common/utils.h.
abbrev pub sensorbar_on : M (Unit {0})
sensorbar_on = set32 hw_gpio1out hw_gpio1_sense

abbrev pub sensorbar_off : M (Unit {0})
sensorbar_off = clear32 hw_gpio1out hw_gpio1_sense

-- One pass of the endless loop of `panic`.
unfoldable pub panic_pass : ℕ → M (Unit {0})
panic_pass v = do
  run (Call.debug_output v)
  set32 hw_gpio1bout hw_gpio1_sense
  run (Call.udelay 500000)
  run (Call.debug_output 0)
  clear32 hw_gpio1bout hw_gpio1_sense
  run (Call.udelay 500000)

-- `flashSensor`
unfoldable pub flash_sensor : ℕ → ℕ → ℕ → M (Unit {0})
flash_sensor before during after = do
  run (Call.udelay before)
  sensorbar_on
  run (Call.udelay during)
  sensorbar_off
  run (Call.udelay after)

-- The `do ... while (shifter)` loop of `binaryPanic`: the lowest bit first, a long flash for a 1. A
-- 32-bit value has at most 32 rounds.
unfoldable pub flash_bits : ℕ → ℕ → M (Unit {0})
flash_bits zero shifter w = none
flash_bits (suc n) shifter w =
    (do
      flash_sensor 300000 (if (shifter &&& 1) != 0 then 600000 else 300000) 0
      λ w'. elim (shifter / 2 == 0) [
        | true ↦ some (tt, w')
        | false ↦ flash_bits n (shifter / 2) w'
      ])
      w

-- The loop of `binaryPanic` stands behind this.
unfoldable pub binary_panic_setup : M (Unit {0})
binary_panic_setup = sensorbar_off

unfoldable pub binary_panic_pass : ℕ → M (Unit {0})
unfolding flash_bits
binary_panic_pass value = do run (Call.udelay 700000); flash_bits 32 value

-- The set-up of `panic2`, and one pass over its arguments.
unfoldable pub panic2_setup : M (Unit {0})
panic2_setup = do
  clear32 hw_gpio1out hw_gpio1_sense
  clear32 hw_gpio1dir hw_gpio1_sense
  clear32 hw_gpio1owner hw_gpio1_sense

unfoldable pub panic2_args : List ℕ → M (Unit {0})
panic2_args [] w = some (tt, w)
panic2_args (arg ∷ args) w =
    (do
      set32 hw_gpio1out hw_gpio1_sense
      run (Call.udelay (u32 (arg * 200000)))
      clear32 hw_gpio1out hw_gpio1_sense
      run (Call.udelay 300000)
      panic2_args args)
      w

unfoldable pub panic2_pass : List ℕ → M (Unit {0})
unfolding panic2_args
panic2_pass args = do panic2_args args; run (Call.udelay 1000000)
