-- ===== src/Sdhc/Bounded.antt =====
-- The wait of armboot/storage/sdhc.c for a state of the controller counts its rounds.
use vwii_nand_tools.Base.{
  ◌<◌, ℕ, ap, ◌∙◌, Option, ◌+◌, zero, suc, u32, ◌&&&◌, List, ◌≢◌, ◌==◌, ◌≡◌, ◌⊎◌, inl, inr, refl,
  arith, some, true, false, Bool, Bool-cases, ◌∷◌,
}
use vwii_nand_tools.Machine.{M, Call, World, load, call, word, log, Event}
use vwii_nand_tools.Sdhc.Command.Start.{state_rounds, sdhc_wait_state}
use vwii_nand_tools.Sdhc.Regs.{bus_space_read_4}
use vwii_nand_tools.Sdhc.Flags.{etimedout}

-- The trace behind `n` more reads of a register, each with a delay of 10 ms behind it.
abbrev pub polls : ℕ → ℕ → List Event → List Event
polls a zero t = t
polls a (suc n) t = polls a n (call (Call.udelay 10000) ∷ load word a ∷ t)

-- What the next read of the register gives under the mask, behind `n` reads of it.
abbrev pub polled : ℕ → ℕ → ℕ → World → ℕ
polled a mask n w = u32 (w.board.answer (load word a ∷ polls a n w.trace)) &&& mask

-- The run comes back: with 0 at once behind the first of `n` reads of the register that gives the value,
-- or, where none of them does, with ETIMEDOUT behind the last one.
abbrev pub WaitedAt : ℕ → ℕ → ℕ → ℕ → M ℕ → World → Type 0
WaitedAt a n mask value run w =
    (r : ℕ) × (w' : World) × (run w ≡ some (r, w'))
    × ((r ≡ 0)
          × ((k : ℕ) × (k < n)
              × (w'.trace ≡ load word a ∷ polls a k w.trace)
              × (polled a mask k w ≡ value)
              × ((j : ℕ) → j < k → polled a mask j w ≢ value))
        ⊎ (r ≡ etimedout)
          × (w'.trace ≡ polls a n w.trace)
          × ((j : ℕ) → j < n → polled a mask j w ≢ value))

-- The register is the one at 0x24, where the controller shows its present state.
abbrev pub Waited : ℕ → ℕ → ℕ → M ℕ → World → Type 0
Waited n mask value run w = WaitedAt (u32 (w.host.ioh + 0x24)) n mask value run w

-- A round, by the outcome of its test.
step : ℕ → ℕ → ℕ → World → Bool → Option (ℕ × World)
step mask value n w b = elim b [
  | true ↦ some (0, w)
  | false ↦ state_rounds mask value n (log (call (Call.udelay 10000)) w)
]

rounds_wait : (mask value n : ℕ) (w : World) → Waited n mask value (state_rounds mask value n) w
unfolding state_rounds bus_space_read_4 step
rounds_wait mask value zero w = (etimedout, w, refl, inr (refl, refl, λ j p. absurd (omega arith)))
rounds_wait mask value (suc n) w =
    let a = u32 (w.host.ioh + 0x24) in
    let w1 = log (load word a) w in
    elim (Bool-cases (polled a mask 0 w == value)) [
      | inl t ↦ (
        0,
        w1,
        ap (step mask value n w1) t,
        inl (refl, (0, omega arith, refl, ground arith, λ j p. absurd (omega arith))),
      )
      | inr f ↦
          let (r, w', runs, what) = rounds_wait mask value n (log (call (Call.udelay 10000)) w1) in
          (
            r,
            w',
            ap (step mask value n w1) f ∙ runs,
            elim what [
              | inl (z, (k, p, e, v, before)) ↦
                  inl (z, (suc k, omega arith, e, v, λ j q. earlier k f before j q))
              | inr (z, e, before) ↦ inr (z, e, λ j q. earlier n f before j q)
            ],
          )
    ]
  where
    earlier :
        (k : ℕ)
        → (polled (u32 (w.host.ioh + 0x24)) mask 0 w == value) ≡ false
        → ((j : ℕ) → j < k → polled (u32 (w.host.ioh + 0x24)) mask (suc j) w ≢ value)
        → (j : ℕ) → j < suc k
        → polled (u32 (w.host.ioh + 0x24)) mask j w ≢ value
    earlier k f before zero q = ground arith
    earlier k f before (suc j) q = before j (omega arith)

-- Each `udelay` comes back at once here. `sdhc_wait_state` reads the present state, at 0x24 of the controller,
-- at most 500 times, 10 ms apart. It returns 0 right behind the first read that gives the awaited value under
-- the mask, and ETIMEDOUT behind the last one if none does.
pub sdhc_wait_state_lem :
    (mask value : ℕ) (w : World) → Waited 500 mask value (sdhc_wait_state mask value) w
unfolding sdhc_wait_state
sdhc_wait_state_lem mask value w = rounds_wait mask value 500 w
