-- ===== src/Machine/State.antt =====
-- The state that the C files keep in static variables, the board, and the monad over both.
use vwii_nand_tools.Base.{ℕ, Bool, List, ◌∷◌, Option, none, some, if◌then◌else◌}
use vwii_nand_tools.Machine.Events.{Event}

pub record Board : Type 0 where
  -- the reply to the newest event of a trace
  pub answer : List Event → ℕ
  -- whether an interrupt is taken after a trace, where the code lets one in
  pub taken : List Event → Bool
  -- what a buffer at an address, of a length, holds after a trace
  pub buffer : List Event → ℕ → ℕ → List ℕ
  -- the rounds that a wait without a bound of its own is given
  pub polls : ℕ

-- storage/nand.c
pub record Nand : Type 0 where
  pub initialized : ℕ
  pub irq_flag : ℕ
  pub last_page_read : ℕ

-- `struct sdhc_host` of storage/sdhc.h, less the bus tag and the unused register shadow.
pub record Host : Type 0 where
  pub ioh : ℕ
  pub clkbase : ℕ
  pub flags : ℕ
  pub ocr : ℕ
  pub intr_status : ℕ
  pub intr_error_status : ℕ
  pub data_command : ℕ

-- `struct sdmmc_card` of storage/sdmmc.c. Its handle is the one host.
pub record Card : Type 0 where
  pub inserted : ℕ
  pub sdhc_blockmode : ℕ
  pub selected : ℕ
  pub new_card : ℕ
  pub timeout : ℕ
  pub num_sectors : ℕ
  pub cid : ℕ
  pub rca : ℕ

pub record World : Type 0 where
  pub board : Board
  pub trace : List Event
  pub nand : Nand
  pub host : Host
  pub card : Card
  pub alarm_frequency : ℕ
  pub aes_irq : ℕ
  pub gecko_enabled : ℕ

-- `none`: a wait used up the rounds that it was given.
abbrev pub M : Type 0 → Type 0
M A = World → Option (A × World)

abbrev pub pure : {A : Type 0} → A → M A
pure a w = some (a, w)

module _ {A B : Type 0} where
  abbrev pub and_then : Option (A × World) → (A → M B) → Option (B × World)
  and_then none k = none
  and_then (some (a, w)) k = k a w

  infixl 5 ◌>>=◌ ◌>>◌
  abbrev pub ◌>>=◌ : M A → (A → M B) → M B
  ◌>>=◌ m k w = and_then (m w) k

  abbrev pub ◌>>◌ : M A → M B → M B
  ◌>>◌ m k w = and_then (m w) (λ _. k)

abbrev pub get : M World
get w = some (w, w)

abbrev pub log : Event → World → World
log e w = record w { trace = e ∷ w.trace }

abbrev pub emit : Event → M (Unit {0})
emit e w = some (tt, log e w)

abbrev pub ask : Event → M ℕ
ask e w = some (w.board.answer (e ∷ w.trace), log e w)

abbrev pub skip : M (Unit {0})
skip w = some (tt, w)

abbrev pub when : Bool → M (Unit {0}) → M (Unit {0})
when b m w = if b then m w else some (tt, w)

abbrev pub set_nand : (Nand → Nand) → M (Unit {0})
set_nand f w = some (tt, record w { nand = f w.nand })

abbrev pub set_host : (Host → Host) → M (Unit {0})
set_host f w = some (tt, record w { host = f w.host })

abbrev pub set_card : (Card → Card) → M (Unit {0})
set_card f w = some (tt, record w { card = f w.card })
