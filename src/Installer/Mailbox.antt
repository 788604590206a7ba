-- ===== src/Installer/Mailbox.antt =====
-- The mailbox between the two processors, as steps: nswitch/source/main.c waits for the ARM program,
-- then takes the characters out and prints them; `gecko_init` and `gecko_printf` of
-- armboot/video/gecko.c put them in. Both flush the line that the mailbox is in after each write and
-- drop it before each read, so that they share its bytes.
use vwii_nand_tools.Base.{ℕ, zero, suc, Bool, false, ◌==◌, ◌||◌, if◌then◌else◌, List, [], ◌∷◌, ◌++◌}

-- Where the ARM program stands: before `gecko_init`, at the loop that drains the mailbox, or behind
-- it with a character to write.
pub data Sender : Type 0 where
  booting draining writing : Sender

-- Where the PowerPC's program stands: at the loop that waits for `debug_config`, at the loop that waits
-- for a character, with a character that it has yet to take out, or with one that it has yet to print.
pub data Viewer : Type 0 where
  starting polling clearing printing : Viewer

pub record System : Type 0 where
  pub str : ℕ
  pub debug_config : ℕ
  pub debug_magic : ℕ
  pub sender : Sender
  pub gecko_enabled : ℕ
  -- the characters that are yet to be written
  pub text : List ℕ
  pub viewer : Viewer
  pub received : ℕ
  pub screen : List ℕ

-- What `main` sets up before it starts the ARM program, which is to print a text.
unfoldable pub start : List ℕ → System
start text = record {
  str = 0;
  debug_config = 3;
  debug_magic = 0xdeb6;
  sender = booting;
  gecko_enabled = 0;
  text = text;
  viewer = starting;
  received = 0;
  screen = [];
}

-- A turn at the loop that drains: `gecko_printf` prints nothing unless it is enabled, and ends at a
-- zero; `expired` says whether the timer has passed the time limit.
unfoldable pub drain : Bool → List ℕ → System → System
drain expired [] s = s
drain expired (c ∷ rest) s =
    if s.gecko_enabled == 0 || c == 0
    then record s { text = [] }
    else if s.str == 0 || expired
    then record s { sender = writing }
    else s

unfoldable pub write : List ℕ → System → System
write [] s = s
write (c ∷ rest) s = record s { str = c; text = rest; sender = draining }

unfoldable pub arm_turn_at : Sender → Bool → System → System
unfolding drain write
arm_turn_at booting expired s =
    if s.debug_magic == 0xdeb6
    then record s { gecko_enabled = s.debug_config; debug_config = 0; sender = draining }
    else record s { sender = draining }
arm_turn_at draining expired s = drain expired s.text s
arm_turn_at writing expired s = write s.text s

unfoldable pub arm_turn : Bool → System → System
unfolding arm_turn_at
arm_turn expired s = arm_turn_at s.sender expired s

-- What `printf(received)` shows: a `%`, the start of a conversion that does not come, is not shown.
unfoldable pub printed : ℕ → List ℕ
printed c = if c == 0x25 then [] else c ∷ []

unfoldable pub ppc_turn_at : Viewer → System → System
unfolding printed
ppc_turn_at starting s = if s.debug_config == 0 then record s { viewer = polling } else s
ppc_turn_at polling s = if s.str == 0 then s else record s { received = s.str; viewer = clearing }
ppc_turn_at clearing s = record s { str = 0; viewer = printing }
ppc_turn_at printing s = record s { screen = s.screen ++ printed s.received; viewer = polling }

unfoldable pub ppc_turn : System → System
unfolding ppc_turn_at
ppc_turn s = ppc_turn_at s.viewer s

-- One of the two takes a turn, the ARM program within its time limit.
pub data Step : System → System → Type 0 where
  arm : (s : System) → Step s (arm_turn false s)
  ppc : (s : System) → Step s (ppc_turn s)

pub data Reach (s : System) : System → Type 0 where
  here : Reach s s
  later : {t u : System} → Reach s t → Step t u → Reach s u

-- Turns by turns, so many times.
unfoldable pub rounds : ℕ → System → System
unfolding arm_turn ppc_turn
rounds zero s = s
rounds (suc n) s = rounds n (ppc_turn (arm_turn false s))
