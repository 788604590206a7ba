-- ===== src/IosPatch/Search.antt =====
-- What `apply_patch` finds and changes.
use vwii_nand_tools.Base.{
  ◌==◌, ◌≢◌, ◌⊎◌, ℕ, zero, suc, false, ◌+◌, ◌-◌, ◌≤◌, ◌<◌, ◌≡◌, ◌↔◌, refl, ap, ◌∙◌, arith, length,
  Bool-cases, inl, inr,
}
use vwii_nand_tools.Ram.{Ram, matches, full_at, store_bytes}
use vwii_nand_tools.IosPatch.Patches.{Patch}
use vwii_nand_tools.IosPatch.{Ppc, search, apply_patch, ptr_end}

-- None of `n` places from `ptr` on holds the bytes looked for.
abbrev pub NoMatch : Patch → ℕ → ℕ → Ram → Type 0
NoMatch p n ptr mem = (k : ℕ) → k < n → matches mem (ptr + k) p.old ≡ false

module _ (p : Patch) where
  here_first : (n ptr : ℕ) (mem : Ram) → NoMatch p (suc n) ptr mem → matches mem ptr p.old ≡ false
  here_first n ptr mem none_here =
      ap (λ a. matches mem a p.old) (omega arith) ∙ none_here 0 (omega arith)

  later : (n ptr : ℕ) (mem : Ram) → NoMatch p (suc n) ptr mem → NoMatch p n (ptr + 1) mem
  later n ptr mem none_here k h =
      ap (λ a. matches mem a p.old) (omega arith) ∙ none_here (suc k) (omega arith)

  search_none :
      (n ptr : ℕ) (mem : Ram) (found : ℕ)
      → NoMatch p n ptr mem
      → search p n ptr mem found ≡ (mem, found)
  unfolding search
  search_none zero ptr mem found h = refl
  search_none (suc n) ptr mem found h =
      rw (here_first n ptr mem h) (search_none n (ptr + 1) mem found (later n ptr mem h))

  search_grows : (n ptr : ℕ) (mem : Ram) (found : ℕ) → found ≤ (search p n ptr mem found).1
  unfolding search
  search_grows zero ptr mem found = omega arith
  search_grows (suc n) ptr mem found = elim (Bool-cases (matches mem ptr p.old)) [
    | inl e ↦
        rw (e, search)
          (omega
            (arith, search_grows n (ptr + 1) (store_bytes (ptr + p.offset) p.new mem) (found + 1)))
    | inr e ↦ rw (e, search) (search_grows n (ptr + 1) mem found)
  ]

  search_same :
      (n ptr : ℕ) (mem : Ram) (found : ℕ)
      → (search p n ptr mem found).1 ≡ found
      → NoMatch p n ptr mem
  unfolding search
  search_same zero ptr mem found e k h = absurd (omega arith)
  search_same (suc n) ptr mem found e k h = elim (Bool-cases (matches mem ptr p.old)) [
    | inl hit ↦ absurd (
        omega (
          arith,
          search_grows n (ptr + 1) (store_bytes (ptr + p.offset) p.new mem) (found + 1),
          rw (hit, search) at e,
        ))
    | inr miss ↦ place k h miss (search_same n (ptr + 1) mem found (rw (miss, search) at e))
  ]
    where
      place :
          (k : ℕ)
          → k < suc n
          → matches mem ptr p.old ≡ false
          → NoMatch p n (ptr + 1) mem
          → matches mem (ptr + k) p.old ≡ false
      place zero h miss rest = ap (λ a. matches mem a p.old) (omega arith) ∙ miss
      place (suc k) h miss rest = ap (λ a. matches mem a p.old) (omega arith) ∙ rest k (omega arith)

  -- `apply_patch` returns 0 exactly when no place of the range that it scans holds the bytes looked
  -- for. It returns another number, or else leaves the memory and the register as they are.
  pub apply_patch-zero_iff :
      (s : Ppc)
      → (((apply_patch p s).1 ≡ 0)
          ↔ NoMatch p
              (ptr_end - length p.new - full_at s.memory 0x80003134)
              (full_at s.memory 0x80003134)
              s.memory)
        × (((apply_patch p s).1 ≢ 0) ⊎ ((apply_patch p s).0 ≡ s))
  unfolding apply_patch
  apply_patch-zero_iff s =
      let start = full_at s.memory 0x80003134 in
      let n = ptr_end - length p.new - start in
      (
        (
          search_same n start s.memory 0,
          λ h. ap (λ (r : Ram × ℕ). r.1) (search_none n start s.memory 0 h),
        ),
        elim (Bool-cases ((search p n start s.memory 0).1 == 0)) [
          | inl e ↦ inr (
              ap (λ (r : Ram × ℕ). record s { memory = r.0 })
                (search_none n start s.memory 0 (search_same n start s.memory 0 (ground arith))))
          | inr e ↦ inl (ground arith)
        ],
      )
