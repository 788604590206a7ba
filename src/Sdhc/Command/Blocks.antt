-- ===== src/Sdhc/Command/Blocks.antt =====
-- What `sdhc_start_command` of armboot/storage/sdhc.c tells the controller of the blocks of a command.
use vwii_nand_tools.Base.{
  ℕ, Bool, true, false, ◌/◌, ◌%◌, ◌^◌, ◌<◌, ◌≡◌, ◌⊎◌, none, some, Option, List, [], ◌∷◌, u32, ◌&&&◌,
  ◌==◌, if◌then◌else◌,
}
use vwii_nand_tools.Machine.{World, Event, Call, load, store, call, word, half, byte, log}
use vwii_nand_tools.Machine.Ends.{Ends}
use vwii_nand_tools.Sdhc.Constants.{cmd_inhibit_mask}
use vwii_nand_tools.Sdhc.Command.Start.{Command, state_rounds}

-- The word with the block size in its low half and the block count in its high half, as an event
-- writes it.
abbrev pub block_of : Event → Option ℕ
block_of (load width a) = none
block_of (store word a v) = if a == 0x0d070004 then some v else none
block_of (store half a v) = none
block_of (store byte a v) = none
block_of (call c) = none

-- The values written there, the last one first.
abbrev pub blocks : List Event → List ℕ
blocks [] = []
blocks (e ∷ t) = elim (block_of e) [ none ↦ blocks t | some v ↦ v ∷ blocks t ]

-- The block size 512, with the largest buffer boundary, and then the count, unless it is 0.
abbrev pub Told : ℕ → List ℕ → List ℕ → Type 0
Told count before after =
    (size : ℕ) × (size % 2 ^ 16 ≡ 0x7200)
    × ((count ≡ 0) × (after ≡ size ∷ before)
        ⊎ (0 < count)
          × ((counted : ℕ) × (counted / 2 ^ 16 ≡ count) × (after ≡ counted ∷ size ∷ before)))

-- The controller is the one at its address.
abbrev Based : World → Type 0
Based w = w.host.ioh ≡ 0x0d070000

-- Nothing is told.
abbrev Silent : World → World → Type 0
Silent w w' = (w'.host ≡ w.host) × (blocks w'.trace ≡ blocks w.trace)

-- The present state, with no command in progress.
abbrev pub Free : World → Type 0
Free w = (u32 (w.board.answer (load word 0x0d070024 ∷ w.trace)) &&& 3) ≡ 0

state_read : World → Bool → Option (ℕ × World)
state_read w b = elim b [
  | true ↦ some (0, w)
  | false ↦ state_rounds cmd_inhibit_mask 0 499 (log (call (Call.udelay 10000)) w)
]
