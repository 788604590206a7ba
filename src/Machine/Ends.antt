-- ===== src/Machine/Ends.antt =====
-- Total correctness: a run is over within its rounds, with a result and a world of which a relation
-- holds.
use vwii_nand_tools.Base.{Bool, true, false, if◌then◌else◌, Option, some, ◌≡◌, refl, ap, ◌∙◌}
use vwii_nand_tools.Machine.State.{World, M, and_then}

pub record Ends {A : Type 0} (run : Option (A × World)) (Post : A → World → Type 0) : Type 0 where
  pub result : A
  pub last : World
  pub runs : run ≡ some (result, last)
  pub post : Post result last

module _ {A : Type 0} where
  pub ends_at : {Post : A → World → Type 0} (a : A) (w : World) → Post a w → Ends (some (a, w)) Post
  ends_at a w p = record { result = a; last = w; runs = refl; post = p }

  pub ends_by :
      {run run' : Option (A × World)} {Post : A → World → Type 0}
      → run ≡ run'
      → Ends run' Post
      → Ends run Post
  ends_by e d = record { result = d.result; last = d.last; runs = e ∙ d.runs; post = d.post }

  pub ends_weaken :
      {run : Option (A × World)} {Post Post' : A → World → Type 0}
      → Ends run Post
      → ((a : A) (w : World) → Post a w → Post' a w)
      → Ends run Post'
  ends_weaken d imp = record {
    result = d.result;
    last = d.last;
    runs = d.runs;
    post = imp _ _ d.post;
  }

-- Where the first part ends, the rest goes on.
pub ends_then :
    {A B : Type 0} {run : Option (A × World)} {Mid : A → World → Type 0} {rest : A → M B}
    {Post : B → World → Type 0}
    → Ends run Mid
    → ((a : A) (w : World) → Mid a w → Ends (rest a w) Post)
    → Ends (and_then run rest) Post
ends_then {rest = rest} d next =
    let d' = next d.result d.last d.post in
    record {
      result = d'.result;
      last = d'.last;
      runs = ap (λ r. and_then r rest) d.runs ∙ d'.runs;
      post = d'.post;
    }

-- Both branches of a test end.
pub ends_if :
    {A : Type 0} {Post : A → World → Type 0} (b : Bool) (m n : M A) (w : World)
    → Ends (m w) Post
    → Ends (n w) Post
    → Ends ((if b then m else n) w) Post
ends_if true m n w d e = d
ends_if false m n w d e = e

pub ends_pick :
    {A : Type 0} {Post : A → World → Type 0} (b : Bool) {x y : Option (A × World)}
    → Ends x Post
    → Ends y Post
    → Ends (elim b [ true ↦ x | false ↦ y ]) Post
ends_pick true d e = d
ends_pick false d e = e
