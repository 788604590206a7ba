-- ===== src/Installer.antt =====
-- nswitch/source/main.c: the program on the PowerPC. It patches IOS, puts the ARM program where the
-- patched IOS starts it, and shows what that program writes to the mailbox. The console library is a
-- parameter. Cache flushes, which make memory the same for both processors, and titles on the screen
-- are left out.
pub mod Image
pub mod Scan
pub mod Mailbox
pub mod Echo
pub mod Progress
pub mod Late
use vwii_nand_tools.Base.{
  ℕ, zero, suc, Bool, true, false, ◌+◌, ◌/◌, ◌^◌, u8, ◌==◌, if◌then◌else◌, List, [], ◌∷◌, ◌++◌,
  Option, none, some, pos, negsuc, ℤ,
}
use vwii_nand_tools.Installer.Mailbox.{printed}
use vwii_nand_tools.Ram.{Ram, poke, store_bytes, matches, memcpy}
use vwii_nand_tools.CString.{memset}
use vwii_nand_tools.IosPatch.{Ppc, patch_runtime}

-- What the calls of the console library do to memory, and what they return. `elapse` is what happens
-- until the line of the mailbox is read again.
pub record Library : Type 0 where
  pub ahbprot_disabled : Ppc → Bool
  pub reload_ios : ℕ → Ppc → Ppc
  pub video_init : Ppc → Ppc
  pub isfs_initialize : Ppc → Ppc
  pub shutdown_subsystems : Ppc → Ppc
  pub open_es : Ppc → Ppc × ℕ
  pub memalign : Ppc → Ppc × ℕ
  pub ioctlv_async : ℕ → ℕ → Ppc → Ppc
  pub elapse : Ppc → Ppc

-- `ES_ImportBoot2`
abbrev pub es_import_boot2 : List ℕ
es_import_boot2 =
    0x68 ∷ 0x4b ∷ 0x2b ∷ 0x06 ∷ 0xd1 ∷ 0x0c ∷ 0x68 ∷ 0x8b ∷ 0x2b ∷ 0x00 ∷ 0xd1 ∷ 0x09 ∷ 0x68 ∷ 0xc8
    ∷ 0x68 ∷ 0x42 ∷ []

-- The bytes of a word in memory.
abbrev pub word_bytes : ℕ → List ℕ
word_bytes v = u8 (v / 2 ^ 24) ∷ u8 (v / 2 ^ 16) ∷ u8 (v / 2 ^ 8) ∷ u8 v ∷ []

-- The code that is put over `ES_ImportBoot2`, which starts the ARM program.
abbrev pub stub : List ℕ
stub =
    word_bytes 0x48034904
    ++ (word_bytes 0x477846c0
        ++ (word_bytes 0xe6000870
            ++ (word_bytes 0xe12fff1e ++ (word_bytes 0x10100000 ++ word_bytes 0x0000ff01))))

abbrev pub mini : ℕ
mini = 0x90100000

abbrev pub scan_start : ℕ
scan_start = 0x939f0000

-- The places of the loop, every other address below 0x939FE000.
abbrev pub scan_places : ℕ
scan_places = 0x7000

abbrev pub armconfig : ℕ
armconfig = 0x81200000

-- How `main` ends: it returns, or its endless loop has shown so many characters.
pub data Ending : Type 0 where
  returned : Ppc → Ending
  showing : List ℕ → Ppc → Ending

abbrev pub on_memory : (Ram → Ram) → Ppc → Ppc
on_memory f s = record s { memory = f s.memory }

-- The bytes of `armconfig` that tell the ARM program to use the mailbox.
unfoldable pub set_config : Ram → Ram
set_config mem =
    store_bytes (armconfig + 2) (0xde ∷ 0xb6 ∷ []) (poke (armconfig + 1) 3 (poke armconfig 0 mem))

module _ (lib : Library) where
  -- What `LoadMINI` does where it finds the bytes.
  unfoldable pub start_mini : ℕ → ℕ → ℕ → Ppc → Ppc
  start_mini ptr size i s =
      let s1 = lib.shutdown_subsystems (on_memory (store_bytes i stub) s) in
      let (s2, fd) = lib.open_es (on_memory (memcpy mini ptr size) s1) in
      let (s3, buffer) = lib.memalign s2 in
      lib.ioctlv_async fd buffer (on_memory (memset buffer 0 0x100) s3)

  -- The loop of `LoadMINI`, with the places left.
  unfoldable pub scan : ℕ → ℕ → ℕ → ℕ → Ppc → Ppc
  unfolding start_mini
  scan ptr size zero i s = s
  scan ptr size (suc n) i s =
      scan ptr size n (i + 2)
        (if matches s.memory i es_import_boot2 then start_mini ptr size i s else s)

  unfoldable pub load_mini : ℕ → ℕ → Ppc → Ppc
  load_mini ptr size s = scan ptr size scan_places scan_start s

  -- `do DCInvalidateRange(...); while (armconfig->debug_config);`, with the rounds left.
  unfoldable pub await_mini : ℕ → Ppc → Option Ppc
  await_mini zero s = none
  await_mini (suc n) s =
      let s' = lib.elapse s in
      let rest = await_mini n s' in if s'.memory (armconfig + 1) == 0 then some s' else rest

  -- The same for a character, which is taken out of the mailbox.
  unfoldable pub await_character : ℕ → Ppc → Option (Ppc × ℕ)
  await_character zero s = none
  await_character (suc n) s =
      let s' = lib.elapse s in
      let rest = await_character n s' in
      let c = s'.memory armconfig in
      if c == 0 then rest else some (on_memory (poke armconfig 0) s', c)

  -- The endless loop, until it has shown so many more characters.
  unfoldable pub show : ℕ → ℕ → List ℕ → Ppc → Option Ending
  unfolding await_character
  show polls zero shown s = some (showing shown s)
  show polls (suc n) shown s = elim (await_character polls s) [
    | none ↦ none
    | some (s', c) ↦ show polls n (shown ++ printed c) s'
  ]

  -- What follows once IOS is patched.
  unfoldable pub run_mini : ℕ → ℕ → ℕ → ℕ → Ppc → Option Ending
  unfolding load_mini await_mini show set_config
  run_mini ptr size polls n s =
      elim (await_mini polls
        (load_mini ptr size (on_memory set_config (lib.isfs_initialize (lib.video_init s))))) [
          | none ↦ none
          | some s' ↦ show polls n [] s'
        ]

  unfoldable pub main : ℕ → ℕ → ℕ → ℕ → Ppc → Option Ending
  unfolding patch_runtime run_mini
  main ptr size polls n s =
      let (s', ret) = patch_runtime lib.ahbprot_disabled lib.reload_ios true false false s in
      elim ret [ pos count ↦ run_mini ptr size polls n s' | negsuc k ↦ some (returned s') ]
