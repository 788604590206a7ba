-- ===== src/Sdhc/Command/Checks.antt =====
-- What `sdhc_start_command` lets through to the registers.
use vwii_nand_tools.Base.{
  ℕ, ap₂, sym, ltb, ◌&&◌, ◌!=◌, lt→ltb, Bool, true, false, ◌*◌, ◌%◌, ◌^◌, ◌≤◌, ◌<◌, ◌≡◌, refl, ap,
  ◌∙◌, arith,
}
use vwii_nand_tools.Machine.{World}
use vwii_nand_tools.Sdhc.Constants.{block_count_max}
use vwii_nand_tools.Sdhc.Command.Start.{
  Command, positive, int_min, blksize_of, blkcount_of, issue, sdhc_start_command,
}

-- The first test that refuses a command.
abbrev uneven : Command → Bool
uneven cmd = positive cmd.datalen && (cmd.datalen % blksize_of cmd) != 0

and_false : {a b : Bool} → a ≡ true → (a && b) ≡ false → b ≡ false
and_false {a} {b} p e = sym (ap (λ x. x && b) p) ∙ e

ne_false : (r : ℕ) → (r != 0) ≡ false → r ≡ 0
ne_false r e = ground arith

not_above : (x : ℕ) → x ≤ block_count_max → ltb block_count_max x ≡ false
not_above x h = ground arith

positive_of : (x : ℕ) → 0 < x → x < 2 ^ 31 → positive x ≡ true
unfolding positive
positive_of x p q = rw (lt→ltb 0 x p, lt→ltb x (2 ^ 31) q) refl

whole_size :
    (cmd : Command) (n : ℕ)
    → cmd.datalen ≡ n * 512
    → cmd.blklen ≡ 512
    → 0 < n
    → n * 512 < 2 ^ 31
    → blksize_of cmd ≡ 512
unfolding blksize_of int_min
whole_size cmd n d b p q = rw (positive_of cmd.datalen (omega arith) (omega arith)) (grind arith)

whole_count :
    (cmd : Command) (n : ℕ)
    → cmd.datalen ≡ n * 512
    → cmd.blklen ≡ 512
    → 0 < n
    → n * 512 < 2 ^ 31
    → blkcount_of cmd ≡ n % 2 ^ 16
unfolding blkcount_of
whole_count cmd n d b p q =
    rw (positive_of cmd.datalen (omega arith) (omega arith), whole_size cmd n d b p q) (omega arith)

-- Such a command goes on to the registers, with its count cut to 16 bits.
pub sdhc_start_command-issue :
    (cmd : Command) (n : ℕ) (w : World)
    → cmd.datalen ≡ n * 512
    → cmd.blklen ≡ 512
    → 0 < n
    → n * 512 < 2 ^ 31
    → n % 2 ^ 16 ≤ block_count_max
    → sdhc_start_command cmd w ≡ issue 512 (n % 2 ^ 16) cmd w
unfolding sdhc_start_command
sdhc_start_command-issue cmd n w d b p q m =
    let size = whole_size cmd n d b p q in
    let count = whole_count cmd n d b p q in
    let divides : cmd.datalen % blksize_of cmd ≡ 0 = rw (size) (omega arith) in
    let even : uneven cmd ≡ false =
      ap (λ x. positive cmd.datalen && (x != 0)) divides
      ∙ ap (λ x. x && false) (positive_of cmd.datalen (omega arith) (omega arith)) in
    let few : ltb block_count_max (blkcount_of cmd) ≡ false = rw count (not_above _ m) in
    rw (even, few) (ap₂ (λ x y. issue x y cmd w) size count)
