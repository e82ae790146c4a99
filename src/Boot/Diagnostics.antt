-- ===== src/Boot/Diagnostics.antt =====
-- What ring3_diagnostics of kernel/arch/x86_64/kernel.c has tested when it passes.
use Prim.Native.Nat.{bit_and}
use mantle_os.Base.{
  ℕ, ◌-◌, ◌/◌, ◌≤◌, ◌<◌, ◌≡◌, ◌≢◌, refl, inl, inr, true, false, not, ◌||◌, ltb, leb, ◌==◌, arith,
  Bool-cases, sub64,
}
use mantle_os.Memory.{done, Returns, Returns-bind, Region, le64, read64}
use mantle_os.Console.{Console}
use mantle_os.Elf.{page_nx}
use mantle_os.Syscall.{write_bytes}
use mantle_os.Syscall.Access.{write_bytes-Returns}
use mantle_os.Boot.Start.{
  Cpu, Diagnosis, sentinel, sentinel_bytes, page_index, paging_rejected, paging_diagnostics,
  stack_diagnostics, ring3_diagnostics,
}

-- The entry point lies in the user memory, on a page that the program may execute and not write;
-- the stack starts at the top, on a page that it may write and not execute.
pub record UserReady (pages : ℕ → ℕ) (entry stack : ℕ) : Type 0 where
  pub entry_range : (0x40_0000 ≤ entry) × (entry < 0x60_0000)
  pub entry_page : bit_and (pages ((entry - 0x40_0000) / 4096)) 7 ≡ 5
  pub executable : bit_and (pages ((entry - 0x40_0000) / 4096)) page_nx ≡ 0
  pub stack_top : stack ≡ 0x60_0000
  pub stack_page : bit_and (pages 511) 7 ≡ 7
  pub not_executable : bit_and (pages 511) page_nx ≢ 0

-- A diagnosis keeps the size of the memory, and if it passes, the program is ready.
abbrev pub DiagnosisOutcome : (ℕ → ℕ) → ℕ → ℕ → Diagnosis → Type 0
DiagnosisOutcome pages entry stack d =
    (d.memory.size ≡ 0x20_0000) × (d.passed ≡ true → UserReady pages entry stack)

page_index_lem :
    (address : ℕ)
    → 0x40_0000 ≤ address
    → address < 0x60_0000
    → page_index address ≡ (address - 0x40_0000) / 4096
unfolding page_index
page_index_lem address low high = omega arith

stack_index : page_index (sub64 0x60_0000 1) ≡ 511
unfolding page_index
stack_index = refl

paging_rejected_lem :
    (cpu : Cpu) (entry_pte stack_pte : ℕ)
    → paging_rejected cpu entry_pte stack_pte ≡ false
    → (bit_and entry_pte 7 ≡ 5)
      × (bit_and entry_pte page_nx ≡ 0)
      × (bit_and stack_pte 7 ≡ 7)
      × (bit_and stack_pte page_nx ≢ 0)
unfolding paging_rejected
paging_rejected_lem cpu entry_pte stack_pte accepted = ground arith

paging_diagnostics-DiagnosisOutcome :
    (cpu : Cpu) (pages : ℕ → ℕ) (memory : Region) (c : Console) (entry : ℕ)
    → memory.size ≡ 0x20_0000
    → Returns
        (paging_diagnostics cpu pages memory c entry 0x60_0000)
        (DiagnosisOutcome pages entry 0x60_0000)
unfolding paging_diagnostics
paging_diagnostics-DiagnosisOutcome cpu pages memory c entry whole =
    elim (Bool-cases (
      ltb entry 0x40_0000
      || leb 0x60_0000 entry
      || leb 512 (page_index entry)
      || leb 512 (page_index (sub64 0x60_0000 1)))) [
        | inl bad ↦ rw bad (whole, λ never. cc)
        | inr inside ↦
            rw inside
              (elim (Bool-cases (
                paging_rejected cpu (pages (page_index entry))
                  (pages (page_index (sub64 0x60_0000 1))))) [
                    | inl bad ↦ rw bad (whole, λ never. cc)
                    | inr good ↦ rw good (whole, λ passed. ready good (ground arith) (ground arith))
                  ])
      ]
  where
    ready :
        paging_rejected cpu (pages (page_index entry)) (pages (page_index (sub64 0x60_0000 1)))
          ≡ false
        → 0x40_0000 ≤ entry
        → entry < 0x60_0000
        → UserReady pages entry 0x60_0000
    ready good low high =
        let facts =
          rw (page_index_lem entry low high, stack_index) at
            (paging_rejected_lem cpu (pages (page_index entry))
              (pages (page_index (sub64 0x60_0000 1))) good) in
        record {
          entry_range = (low, high);
          entry_page = facts.0;
          executable = facts.1;
          stack_top = refl;
          stack_page = facts.2;
          not_executable = facts.3;
        }

stack_diagnostics-DiagnosisOutcome :
    (cpu : Cpu) (pages : ℕ → ℕ) (memory : Region) (c : Console) (entry : ℕ)
    → memory.size ≡ 0x20_0000
    → Returns
        (stack_diagnostics cpu pages memory c entry 0x60_0000)
        (DiagnosisOutcome pages entry 0x60_0000)
unfolding stack_diagnostics read64
stack_diagnostics-DiagnosisOutcome cpu pages memory c entry whole =
    Returns-bind (write_bytes memory 0x5f_fff8 sentinel_bytes) _ (λ m. m.size ≡ 0x20_0000)
      (DiagnosisOutcome pages entry 0x60_0000)
      (write_bytes-Returns sentinel_bytes memory 0x5f_fff8 whole (omega arith) (omega arith))
      λ m kept. rw (read64_lem m kept) (elim (Bool-cases (le64 m.byte 0x1f_fff8 == sentinel)) [
        | inl same ↦ rw same (paging_diagnostics-DiagnosisOutcome cpu pages m _ entry kept)
        | inr other ↦ rw other (kept, λ never. cc)
      ])
  where
    read64_lem :
        (m : Region) → m.size ≡ 0x20_0000 → read64 m 0x1f_fff8 ≡ done (le64 m.byte 0x1f_fff8)
    read64_lem m kept = ground (arith, kept)

pub ring3_diagnostics-DiagnosisOutcome :
    (cpu : Cpu) (pages : ℕ → ℕ) (memory : Region) (c : Console) (entry : ℕ)
    → memory.size ≡ 0x20_0000
    → Returns
        (ring3_diagnostics cpu pages memory c entry 0x60_0000)
        (DiagnosisOutcome pages entry 0x60_0000)
unfolding ring3_diagnostics
ring3_diagnostics-DiagnosisOutcome cpu pages memory c entry whole =
    elim (Bool-cases
      (not (cpu.gdt3 == 0x00cf_f200_0000_ffff) || not (cpu.gdt4 == 0x00af_fa00_0000_ffff))) [
        | inl bad ↦ rw bad (whole, λ never. cc)
        | inr good ↦ rw good (elim (Bool-cases cpu.tss_loaded) [
          | inl loaded ↦
              simp (loaded) (stack_diagnostics-DiagnosisOutcome cpu pages memory _ entry whole)
          | inr unloaded ↦ simp (unloaded) (whole, λ never. cc)
        ])
      ]
