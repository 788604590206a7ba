-- ===== src/Examples/Boards.antt =====
-- Boards and worlds for the examples.
use vwii_nand_tools.Base.{ℕ, false, List, []}
use vwii_nand_tools.Machine.{Board, World, Event, Card}

-- A board that answers by a function, polls once, and takes no interrupt.
abbrev pub board_of : (List Event → ℕ) → Board
board_of answer = record { answer = answer; taken = λ t. false; buffer = λ t a n. []; polls = 1 }

abbrev pub card_of : ℕ → ℕ → ℕ → Card
card_of inserted selected new_card = record {
  inserted = inserted;
  sdhc_blockmode = 0;
  selected = selected;
  new_card = new_card;
  timeout = 0;
  num_sectors = 0;
  cid = 0;
  rca = 0;
}

abbrev pub world_of : Board → Card → World
world_of board card = record {
  board = board;
  trace = [];
  nand = record { initialized = 0; irq_flag = 1; last_page_read = 0 };
  host = record {
    ioh = 0x0d070000;
    clkbase = 48000;
    flags = 1;
    ocr = 0x300000;
    intr_status = 0;
    intr_error_status = 0;
    data_command = 0;
  };
  card = card;
  alarm_frequency = 0;
  aes_irq = 0;
  gecko_enabled = 0;
}

abbrev pub still : World
still = world_of (board_of (λ t. 0)) (card_of 0 0 0)
