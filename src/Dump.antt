-- ===== src/Dump.antt =====
-- armboot/dump.c: the dump of a NAND bank into a file of the SD card. The FAT library's calls are
-- events, and the board gives their results; `page_buf` and `ecc_buf` are the addresses of the two
-- static buffers that the controller fills.
pub mod Chip
pub mod Page
pub mod Wait
pub mod Read
pub mod Image
pub mod File
pub mod Faults
pub mod Size
use vwii_nand_tools.Base.{
  ℕ, zero, suc, Bool, true, false, some, ◌+◌, ◌*◌, ◌/◌, ◌%◌, ◌^◌, ◌==◌, ◌!=◌, ◌||◌, if◌then◌else◌,
  List, [], ◌∷◌, ◌++◌, take, ℤ, pos, minus, String,
}
use vwii_nand_tools.Machine.{M, Call, call, pure, get, ask, when, gecko_printf, ◌>>=◌, ◌>>◌}
use vwii_nand_tools.Nand.{nand_initialize, nand_read_page, page_size, page_spare_size}
use vwii_nand_tools.Nand.Wait.{nand_wait}
use vwii_nand_tools.Nand.Ecc.{nand_correct}

abbrev pub nand_bank_slccmpt : ℕ
nand_bank_slccmpt = 1

abbrev pub nand_bank_slc : ℕ
nand_bank_slc = 2

abbrev pub pages_per_iteration : ℕ
pages_per_iteration = 0x10

abbrev pub total_iterations : ℕ
total_iterations = 0x4000

-- `sizeof(file_buf)`
abbrev pub file_buf_size : ℕ
file_buf_size = 0x8400

-- `ECC_BUFFER_ALLOC`
abbrev pub ecc_buffer_alloc : ℕ
ecc_buffer_alloc = 96

-- The reply to `f_write` is the result and the number of bytes written.
abbrev pub write_fails : ℕ → Bool
write_fails reply = (reply / 2 ^ 32) != 0 || (reply % 2 ^ 32) != file_buf_size

-- What follows on the result of `f_close`.
abbrev pub report_close : ℕ → M ℤ
report_close closed =
    if closed != 0
    then (do gecko_printf "Failed to close %s (%d).\n" (closed ∷ []); pure (minus 5))
    else (do gecko_printf "SLC dump completed successfully!\n" []; pure (pos 0))

-- The end of the dump, after the loop.
abbrev pub finish : Bool → M ℤ
finish written =
    if written then (do closed ← ask (call Call.f_close); report_close closed) else pure (minus 4)

module _ (page_buf ecc_buf : ℕ) where
  -- The body of the inner loop: a corrected page and its spare area.
  unfoldable pub dump_page : ℕ → M (List ℕ)
  dump_page pageno = do
    nand_read_page pageno page_buf ecc_buf
    nand_wait
    w ← get
    let ecc = w.board.buffer w.trace ecc_buf ecc_buffer_alloc
    (page, status) ← nand_correct pageno (w.board.buffer w.trace page_buf page_size) ecc
    pure (page ++ take page_spare_size ecc)

  -- The inner loop, with the pages left: what it puts into `file_buf`.
  unfoldable pub dump_pages : ℕ → ℕ → M (List ℕ)
  dump_pages zero pageno w = some ([], w)
  dump_pages (suc n) pageno w =
      (do first ← dump_page pageno; rest ← dump_pages n (pageno + 1); pure (first ++ rest)) w

  -- The outer loop, with the iterations left, at iteration `i`: whether every write went well.
  unfoldable pub dump_iterations : String → ℕ → ℕ → M Bool
  unfolding dump_pages
  dump_iterations name zero i w = some (true, w)
  dump_iterations name (suc n) i w =
      (do
        file_buf ← dump_pages pages_per_iteration (i * pages_per_iteration)
        reply ← ask (call (Call.f_write file_buf))
        λ w'. elim (write_fails reply) [
          | true ↦
              (do
                _ ← ask (call Call.f_close)
                gecko_printf "Failed to write %s (%d).\n" (reply / 2 ^ 32 ∷ [])
                pure false)
                w'
          | false ↦
              (do
                when ((i % 0x100) == 0)
                    (gecko_printf "%s-RAW: Page 0x%05lX completed\n" (i * pages_per_iteration ∷ []))
                dump_iterations name n (i + 1))
                w'
        ])
        w

  -- What follows on the result of `f_open`.
  abbrev pub dump_opened : String → ℕ → ℕ → M ℤ
  dump_opened name bank fres =
      if fres != 0
      then (do gecko_printf "Failed to open %s (%d).\n" (fres ∷ []); pure (minus 3))
      else (do
        gecko_printf "Initializing %s...\n" []
        nand_initialize bank
        written ← dump_iterations name total_iterations 0
        finish written)

  -- `path` is what `sprintf` makes of `name`.
  unfoldable pub dump_file : String → String → ℕ → M ℤ
  unfolding dump_iterations
  dump_file name path bank = do fres ← ask (call (Call.f_open path)); dump_opened name bank fres

  -- `_dump_slc_raw`
  unfoldable pub dump_slc_raw : ℕ → M ℤ
  unfolding dump_file
  dump_slc_raw bank =
      if bank == nand_bank_slc
      then dump_file "SLC" "SLC.RAW" bank
      else if bank == nand_bank_slccmpt
      then dump_file "SLCCMPT" "SLCCMPT.RAW" bank
      else pure (minus 2)
