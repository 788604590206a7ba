-- ===== src/Dump/Chip.antt =====
-- A NAND chip behind its controller, as the dump relies on it, read off the trace: the bank and
-- the page addressed last, those delivered last, and what was written to the file.
use vwii_nand_tools.Base.{
  bit_and, ℕ, Bool, true, ◌≡◌, ◌<◌, List, [], ◌∷◌, Option, none, some, if◌then◌else◌, ◌==◌, ◌&&◌,
  false, u32, is_set, leb, String,
}
use vwii_nand_tools.Machine.{World, Board, Event, Call, load, store, call, word, half, byte}
use vwii_nand_tools.Machine.Calm.{saved}
use vwii_nand_tools.Hollywood.{
  nand_bank, nand_addr1, nand_ctrl, nand_unk2, hw_armirqflag, hw_armirqmask,
}
use vwii_nand_tools.Nand.{page_size, nand_busy_mask}
use vwii_nand_tools.Irq.Handler.{irqf_nand}
use vwii_nand_tools.Dump.{ecc_buffer_alloc, file_buf_size}

-- The bank that an event selects, the page that it addresses, and whether it acknowledges the chip's interrupt.
abbrev pub bank_of : Event → Option ℕ
bank_of (load width a) = none
bank_of (store word a v) = if a == nand_bank then some v else none
bank_of (store half a v) = none
bank_of (store byte a v) = none
bank_of (call c) = none

abbrev pub row_of : Event → Option ℕ
row_of (load width a) = none
row_of (store word a v) = if a == nand_addr1 then some v else none
row_of (store half a v) = none
row_of (store byte a v) = none
row_of (call c) = none

abbrev pub acknowledges : Event → Bool
acknowledges (load width a) = false
acknowledges (store word a v) = (a == hw_armirqflag) && (v == irqf_nand)
acknowledges (store half a v) = false
acknowledges (store byte a v) = false
acknowledges (call c) = false

-- What an event writes to the command register of the chip.
abbrev pub command_of : Event → Option ℕ
command_of (load width a) = none
command_of (store word a v) = if a == nand_ctrl then some v else none
command_of (store half a v) = none
command_of (store byte a v) = none
command_of (call c) = none

-- The bank selected last.
abbrev pub selected : List Event → ℕ
selected [] = 0
selected (e ∷ t) = elim (bank_of e) [ none ↦ selected t | some v ↦ v ]

-- The page addressed last.
abbrev pub row : List Event → ℕ
row [] = 0
row (e ∷ t) = elim (row_of e) [ none ↦ row t | some v ↦ v ]

-- The bank and the page.
abbrev pub place : List Event → ℕ × ℕ
place t = (selected t, row t)

-- The bank and the page that were addressed when the chip's interrupt was acknowledged last.
abbrev pub delivered : List Event → ℕ × ℕ
delivered [] = (0, 0)
delivered (e ∷ t) = if acknowledges e then place t else delivered t

-- Whether the command sent last asks for an interrupt.
abbrev pub awaits : List Event → Bool
awaits [] = false
awaits (e ∷ t) = elim (command_of e) [
  | none ↦ awaits t
  | some v ↦ leb 0x80000000 v && is_set v 0x40000000
]

-- Where the driver has its buffers, and what the chip holds: by bank and number, its pages and their
-- spare areas.
pub record Chip : Type 0 where
  pub page_buf : ℕ
  pub ecc_buf : ℕ
  pub pages : ℕ → ℕ → List ℕ
  pub spares : ℕ → ℕ → List ℕ

-- The controller is never found busy, and once a page is asked for it interrupts, alone, with its interrupt
-- enabled; the buffers then hold the page of the bank that was delivered and its spare
-- area.
pub record Delivers (chip : Chip) (board : Board) : Type 0 where
  pub polls : 0 < board.polls
  pub free :
      (t : List Event)
      → is_set (u32 (board.answer (load word nand_ctrl ∷ t))) nand_busy_mask ≡ false
  pub settled :
      (t : List Event) → leb 0x80000000 (u32 (board.answer (load word nand_unk2 ∷ t))) ≡ false
  pub taken : (t : List Event) → awaits t ≡ true → board.taken t ≡ true
  pub enabled :
      (t : List Event)
      → awaits t ≡ true
      → bit_and irqf_nand (u32 (board.answer (load word hw_armirqmask ∷ t))) ≡ irqf_nand
  pub pending :
      (t : List Event)
      → awaits t ≡ true
      → u32 (board.answer (load word hw_armirqflag ∷ t)) ≡ irqf_nand
  pub page :
      (t : List Event)
      → board.buffer t chip.page_buf page_size ≡ chip.pages (delivered t).0 (delivered t).1
  pub spare :
      (t : List Event)
      → board.buffer t chip.ecc_buf ecc_buffer_alloc ≡ chip.spares (delivered t).0 (delivered t).1

-- Such a chip, and a card that takes every byte.
pub record Works (chip : Chip) (board : Board) : Type 0 where
  pub delivers : Delivers chip board
  pub opens : (path : String) (t : List Event) → board.answer (call (Call.f_open path) ∷ t) ≡ 0
  pub writes :
      (bytes : List ℕ) (t : List Event)
      → board.answer (call (Call.f_write bytes) ∷ t) ≡ file_buf_size
  pub closes : (t : List Event) → board.answer (call Call.f_close ∷ t) ≡ 0

-- What a step that neither selects a bank, nor addresses a page, nor delivers one, nor writes to the file leaves as it was.
abbrev pub Keeps : World → World → Type 0
Keeps w w' =
    (w'.board ≡ w.board)
    × (place w'.trace ≡ place w.trace)
    × (delivered w'.trace ≡ delivered w.trace)
    × (saved w'.trace ≡ saved w.trace)
