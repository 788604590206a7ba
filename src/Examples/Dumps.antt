-- ===== src/Examples/Dumps.antt =====
-- The dump on a board with a chip that works.
use vwii_nand_tools.Base.{
  ◌+◌, ℕ, ◌≡◌, refl, arith, ◌%◌, List, [], ◌∷◌, replicate, ◌==◌, if◌then◌else◌, pos, inl,
}
use vwii_nand_tools.Machine.{Board, World, Event, Call, load, store, call}
use vwii_nand_tools.Machine.Ends.{Ends}
use vwii_nand_tools.Hollywood.{hw_armirqmask, hw_armirqflag}
use vwii_nand_tools.Nand.{nand_max_page}
use vwii_nand_tools.Dump.{dump_slc_raw, nand_bank_slc, file_buf_size, write_fails}
use vwii_nand_tools.Machine.Calm.{saved}
use vwii_nand_tools.Dump.Chip.{awaits, Chip, Delivers, Works, delivered}
use vwii_nand_tools.Dump.Image.{page_image}
use vwii_nand_tools.Base.{length, take, drop, length-replicate}
use vwii_nand_tools.Dump.Read.{InStep}
use vwii_nand_tools.Dump.Size.{Whole, stride, dump_slc_raw-place}
use vwii_nand_tools.Dump.Faults.{FileCard, Follows, reaction, dump_slc_raw-reaction}
use vwii_nand_tools.Base.{is_set, ◌!=◌, ◌*◌, ◌^◌, true, false, not}
use vwii_nand_tools.Boot.{main}
use vwii_nand_tools.Boot.Calls.{Idle}
use vwii_nand_tools.Boot.Runs.{Outcome, main-Outcome}
use vwii_nand_tools.Examples.Boards.{card_of, world_of}

-- Page n of the bank b is filled with (n + b) % 256.
abbrev chip : Chip
chip = record {
  page_buf = 0x1000;
  ecc_buf = 0x2000;
  pages = λ b n. replicate 2048 ((n + b) % 256);
  spares = λ b n. replicate 96 0xff;
}

abbrev answer_to : Event → ℕ
answer_to (load width a) =
    if a == hw_armirqmask then 0x20887 else if a == hw_armirqflag then 2 else 0
answer_to (store width a v) = 0
answer_to (call c) = elim c [ Call.f_write bytes ↦ file_buf_size | _ ↦ 0 ]

abbrev answers : List Event → ℕ
answers [] = 0
answers (e ∷ t) = answer_to e

abbrev board : Board
board = record {
  answer = answers;
  taken = λ t. awaits t;
  buffer = λ t a n.
      if a == 0x1000
      then chip.pages (delivered t).0 (delivered t).1
      else chip.spares (delivered t).0 (delivered t).1;
  polls = 1;
}

board-Delivers : Delivers chip board
board-Delivers = record {
  polls = omega arith;
  free = λ t. refl;
  settled = λ t. refl;
  taken = λ t h. h;
  enabled = λ t h. refl;
  pending = λ t h. refl;
  page = λ t. refl;
  spare = λ t. refl;
}

board-Works : Works chip board
board-Works = record {
  delivers = board-Delivers;
  opens = λ path t. refl;
  writes = λ bytes t. refl;
  closes = λ t. refl;
}

abbrev at_work : World
at_work = world_of board (card_of 1 0 0)

-- No bank counts as initialized, so that none of the two is left as it is.
in_step : InStep nand_bank_slc at_work
in_step e = absurd (omega arith)

board-Idle : Idle board
board-Idle = record { polls = omega arith; ready = λ t. refl }

main-Outcome_example :
    Ends (main 0x3000 0x1000 0x2000 at_work) (Outcome chip (is_set 0 2) (0 != 0) [])
main-Outcome_example =
    main-Outcome chip 0x3000 at_work board-Works board-Idle refl 0 0 (λ t. refl) (λ t. refl)

-- The card takes the first write, and refuses the second.
abbrev small_card : FileCard
small_card = record {
  opens = true;
  takes = λ l. elim l [ [] ↦ true | x ∷ r ↦ false ];
  closes = true;
}

abbrev small_answers : List Event → ℕ
small_answers [] = 0
small_answers (load width a ∷ t) = answer_to (load width a)
small_answers (store width a v ∷ t) = 0
small_answers (call c ∷ t) = elim c [
  | Call.f_write bytes ↦ if small_card.takes (saved t) then file_buf_size else 7 * 2 ^ 32
  | _ ↦ 0
]

abbrev small_board : Board
small_board = record board { answer = small_answers }

small_board-Delivers : Delivers chip small_board
small_board-Delivers = record {
  polls = omega arith;
  free = λ t. refl;
  settled = λ t. refl;
  taken = λ t h. h;
  enabled = λ t h. refl;
  pending = λ t h. refl;
  page = λ t. refl;
  spare = λ t. refl;
}

small_board-Follows : Follows small_card small_board
small_board-Follows = record {
  open_reply = λ path t. refl;
  write_reply = λ bytes t.
      elim (saved t)
        as (λ l.
          write_fails (if small_card.takes l then file_buf_size else 7 * 2 ^ 32)
          ≡ not (small_card.takes l)) [ [] ↦ refl | x ∷ r ↦ refl ];
  close_reply = λ t. refl;
}

abbrev at_small : World
at_small = world_of small_board (card_of 1 0 0)

dump_slc_raw-reaction_example : Ends (dump_slc_raw 0x1000 0x2000 nand_bank_slc at_small) (λ r w'.
    (r ≡ (reaction chip nand_bank_slc small_card).0)
    × (saved w'.trace ≡ (reaction chip nand_bank_slc small_card).1))
dump_slc_raw-reaction_example =
    dump_slc_raw-reaction chip nand_bank_slc small_card at_small small_board-Delivers
      small_board-Follows (λ e. absurd (omega arith)) refl

chip-Whole : Whole chip
chip-Whole = record {
  pages = λ b n. length-replicate 2048 ((n + b) % 256);
  spares = λ b n. length-replicate {A = ℕ} 96 0xff;
}

dump_slc_raw-place_example : Ends (dump_slc_raw 0x1000 0x2000 nand_bank_slc at_work) (λ r w'.
    (r ≡ pos 0)
    × (length (saved w'.trace) ≡ nand_max_page * stride)
    × (take stride (drop (0x1234 * stride) (saved w'.trace))
        ≡ page_image chip nand_bank_slc 0x1234))
dump_slc_raw-place_example =
    dump_slc_raw-place chip chip-Whole nand_bank_slc 0x1234 at_work (inl refl) (omega arith) refl
      in_step board-Works
