-- ===== src/Examples/Installer.antt =====
-- The installer and the mailbox at concrete inputs.
use mathlib.Core.List.{Sublist}
use vwii_nand_tools.Base.{
  ℕ, false, true, ◌≡◌, ◌-◌, arith, inl, inr, List, [], ◌∷◌, ◌++◌, get_or, ltb, if◌then◌else◌, refl,
}
use vwii_nand_tools.IosPatch.{Ppc}
use vwii_nand_tools.Installer.{Library, load_mini, es_import_boot2, scan_start, scan_places}
use vwii_nand_tools.Installer.Image.{find, Apart}
use vwii_nand_tools.Installer.Scan.{Outcome, load_mini-Outcome}
use vwii_nand_tools.Installer.Mailbox.{
  System, Step, start, arm_turn, ppc_turn, Reach, here, later, rounds,
}
use vwii_nand_tools.Installer.Echo.{visible, NoZero, flight, Reach-whole}
use vwii_nand_tools.Installer.Late.{Turn, arm, ppc, play, all_of, play-Sublist}
use vwii_nand_tools.Installer.Progress.{rounds-screen}

-- A library whose calls leave memory alone, and whose buffer lies low.
abbrev quiet : Library
quiet = record {
  ahbprot_disabled = λ s. false;
  reload_ios = λ ios s. s;
  video_init = λ s. s;
  isfs_initialize = λ s. s;
  shutdown_subsystems = λ s. s;
  open_es = λ s. (s, 3);
  memalign = λ s. (s, 0x80400000);
  ioctlv_async = λ fd buffer s. s;
  elapse = λ s. s;
}

quiet-Apart : Apart quiet 0x80010000 0x40000
quiet-Apart = record {
  fits = omega arith;
  from_mini = inl (omega arith);
  from_ios = inl (omega arith);
  shutdown_subsystems = λ s a own. refl;
  open_es = λ s a own. refl;
  memalign = λ s a own. refl;
  buffer = λ s a own. elim own [
    | inl p ↦ inl (omega arith)
    | inr q ↦ elim q [ inl p ↦ inr (omega arith) | inr p ↦ inr (omega arith) ]
  ];
  ioctlv_async = λ fd buffer s a own. refl;
}

-- The bytes that are looked for begin at 0x939F0004.
abbrev with_ios : Ppc
with_ios = record {
  memory = λ a. if ltb a 0x939f0004 then 1 else get_or es_import_boot2 (a - 0x939f0004) 0;
  mem_prot = 0;
}

load_mini-Outcome_example :
    Outcome quiet 0x80010000 0x40000 quiet-Apart with_ios
      (find scan_places scan_start with_ios.memory)
      (load_mini quiet 0x80010000 0x40000 with_ios)
load_mini-Outcome_example = load_mini-Outcome quiet 0x80010000 0x40000 quiet-Apart with_ios

abbrev greeting : List ℕ
greeting = b'h' ∷ b'i' ∷ []

greeting-NoZero : NoZero greeting
greeting-NoZero = omega arith

-- Both have taken turns, and the first character is in the mailbox.
abbrev under_way : System
under_way = ppc_turn (arm_turn false (arm_turn false (arm_turn false (start greeting))))

under_way-Reach : Reach (start greeting) under_way
under_way-Reach =
    later (later (later (later here (Step.arm _)) (Step.arm _)) (Step.arm _)) (Step.ppc _)

Reach-whole_example :
    under_way.screen
      ++ visible (flight under_way.viewer under_way.str under_way.received ++ under_way.text)
    ≡ visible greeting
Reach-whole_example = Reach-whole greeting under_way greeting-NoZero under_way-Reach

rounds-screen_example : (rounds 30 under_way).screen ≡ visible greeting
unfolding start arm_turn ppc_turn
rounds-screen_example =
    rounds-screen greeting under_way 30 greeting-NoZero under_way-Reach (omega arith)

-- The ARM program writes the second character over the first one.
abbrev hasty : List Turn
hasty = arm false ∷ arm false ∷ arm false ∷ arm true ∷ arm true ∷ ppc ∷ ppc ∷ []

play-Sublist_example : Sublist (all_of (play hasty (start greeting))) greeting
play-Sublist_example = play-Sublist greeting hasty
