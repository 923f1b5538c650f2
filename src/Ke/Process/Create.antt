-- ===== src/Ke/Process/Create.antt =====
-- What `halInitPcb` and `exCreateProcess` leave behind.
use algae.Base.{
  ℕ, ◌+◌, ◌*◌, ◌/◌, ◌^◌, ◌≤◌, ◌<◌, ◌≡◌, ◌≢◌, refl, sym, ap, ◌∙◌, subst, false, some, List, arith,
  ◌⊎◌, inl, inr, ne→eqb, u64, align_down,
}
use algae.Status.{status_success, status_no_memory, status_not_mapped}
use algae.Bitmap.{test_bit}
use algae.Mm.Phys.{Frames, page_size, mm_alloc_frame, mm_free_frame}
use algae.Mm.Phys.Mark.{TurnedRun}
use algae.Mm.Phys.Safety.{IsReady, granted, mm_alloc_frame-IsReady, mm_free_frame_lem}
use algae.Mm.Mmu.{Mmu, user_readwrite, mmu_map_single, fill_pml4, pte_addr}
use algae.Mm.Mmu.Walk.{translate-align_down}
use algae.Mm.Mmu.Rights.{AllOpen, Allows-align_down}
use algae.Mm.Mmu.Mapped.{IsSpace, IsMapped, mmu_map_single-translate}
use algae.Mm.Mmu.Space.{
  filled_count, mmu_create_vas-granted, mmu_create_vas-IsSpace, mmu_create_vas-AllOpen,
}
use algae.Mm.Page.{Region, mm_map_pages, align_region, map_loop}
use algae.Ke.Sched.{Pcb}
use algae.Ke.Process.{stack_top, first_frame, map_stack, hal_init_pcb}

abbrev stack_page : ℕ
stack_page = 0xBFFFF000

abbrev stack_region : ℕ → Region
stack_region k = record { p_base = k * page_size; v_base = stack_page; byte_count = page_size }

-- The call of `mmMapPages` for one page of stack.
module _ (s : Mmu) (cr3 k : ℕ) (small : k < 2 ^ 40) where
  aligned : align_down (k * page_size) page_size ≡ k * page_size
  aligned = omega arith

  in_word : u64 (k * page_size + 0) ≡ k * page_size
  in_word = omega (arith, small)

  map_one-success :
      (s' : Mmu)
      → mmu_map_single s cr3 stack_page (k * page_size) user_readwrite ≡ some (status_success, s')
      → mm_map_pages s cr3
          (record { p_base = k * page_size; v_base = stack_top; byte_count = page_size })
          user_readwrite
        ≡ some (stack_page, stack_region k, s')
  unfolding mm_map_pages map_loop align_region
  map_one-success s' e = rw aligned rw in_word rw e refl

  map_one-failure :
      (s' : Mmu)
      → mmu_map_single s cr3 stack_page (k * page_size) user_readwrite
        ≡ some (status_not_mapped, s')
      → mm_map_pages s cr3
          (record { p_base = k * page_size; v_base = stack_top; byte_count = page_size })
          user_readwrite
        ≡ some (0, stack_region k, s')
  unfolding mm_map_pages map_loop align_region
  map_one-failure s' e = rw aligned rw in_word rw e refl

-- The process can run: its control block is set, and in its address space the stack pointer's page is the
-- stack's frame, which the tables of all levels let the user read and write.
pub record IsStarted (flags root stack status : ℕ) (pcb : Pcb) (s' : Mmu) : Type 0 where
  pub success : status ≡ status_success
  pub control : pcb ≡ record { vas = root; stack_phys_base = stack; tf = first_frame flags }
  pub mapped : IsMapped root stack_top (stack / page_size) user_readwrite status_success s'

-- The stack could not be mapped, and its frame is free again.
pub record IsUnwound (stack status : ℕ) (s' : Mmu) : Type 0 where
  pub failure : status ≡ status_no_memory
  pub freed : test_bit s'.frames.bitmap (stack / page_size) ≡ some false

abbrev pub Initialised : (flags root stack : ℕ) → ℕ × Pcb × Mmu → Type 0
Initialised flags root stack (status, pcb, s') =
    IsStarted flags root stack status pcb s' ⊎ IsUnwound stack status s'

IsMapped-stack_top :
    (root q : ℕ) (status : ℕ) (s' : Mmu)
    → IsMapped root stack_page q user_readwrite status s'
    → IsMapped root stack_top q user_readwrite status_success s'
IsMapped-stack_top root q status s' m = record {
  success = refl;
  entry = m.entry;
  found = sym (translate-align_down s'.frames.memory root stack_top) ∙ m.found;
  maps = m.maps;
  allows = Allows-align_down s'.frames.memory root stack_top m.entry user_readwrite m.allows;
}

freed_bit :
    {m m' : List ℕ} (k : ℕ)
    → TurnedRun m k 1 false m'
    → test_bit m' (k * page_size / page_size) ≡ some false
freed_bit k t = ground (arith, t.bits (k * page_size / page_size))

module _ (s : Mmu) (root k flags : ℕ) (small : k < 2 ^ 40) where
  abbrev started : Pcb
  started = record { vas = root; stack_phys_base = k * page_size; tf = first_frame flags }

  map_stack-success :
      (s' : Mmu)
      → mmu_map_single s root stack_page (k * page_size) user_readwrite ≡ some (status_success, s')
      → map_stack s started ≡ some (status_success, started, s')
  unfolding map_stack
  map_stack-success s' e = rw (map_one-success s root k small s' e) refl

  map_stack-failure :
      (s' : Mmu) (f : Frames)
      → mmu_map_single s root stack_page (k * page_size) user_readwrite
        ≡ some (status_not_mapped, s')
      → mm_free_frame s'.frames (k * page_size) 1 ≡ some f
      → map_stack s started ≡ some (status_no_memory, started, record s' { frames = f })
  unfolding map_stack
  map_stack-failure s' f e free = rw (map_one-failure s root k small s' e) rw free refl

  map_stack_lem :
      IsSpace s root (align_down stack_page page_size)
      → AllOpen s.frames.memory root (align_down stack_page page_size)
      → k + 1 < s.frames.highest_frame_idx
      → (o : ℕ × Pcb × Mmu) × (map_stack s started ≡ some o)
        × Initialised flags root (k * page_size) o
  map_stack_lem space opens inside =
      let (o, e, out) =
        mmu_map_single-translate s root stack_page (k * page_size) user_readwrite space opens
          (omega (arith, small)) in
      elim out [
        | inl m ↦ (
          (status_success, started, o.1),
          map_stack-success o.1 (e ∙ ap (λ x. some (x, o.1)) m.success),
          inl (record {
            success = refl;
            control = refl;
            mapped = IsMapped-stack_top root (k * page_size / page_size) o.0 o.1 m;
          }),
        )
        | inr x ↦
            let (f, free, t, same) =
              mm_free_frame_lem o.1.frames k 1 x.ready.sound
                (omega (arith, inside, x.frame_count)) in
            (
              (status_no_memory, started, record (o.1) { frames = f }),
              map_stack-failure o.1 f (e ∙ ap (λ y. some (y, o.1)) x.failure) free,
              inr (record { failure = refl; freed = freed_bit k t }),
            )
      ]

module _ (s : Mmu) (cr3 : ℕ) (pcb : Pcb) (flags stack root : ℕ) (f f' : Frames)
    (e1 : mm_alloc_frame s.frames 1 ≡ some (stack, f)) (ne1 : stack ≢ 0)
    (e2 : mm_alloc_frame f 1 ≡ some (root, f')) (ne2 : root ≢ 0) where
  -- The machine with the new address space.
  abbrev with_space : Mmu
  with_space = record s { frames = fill_pml4 f' root (pte_addr cr3) 0 512 }

  hal_init_pcb_steps :
      hal_init_pcb s cr3 pcb flags
      ≡ map_stack with_space
          (record { vas = root; stack_phys_base = stack; tf = first_frame flags })
  unfolding hal_init_pcb
  hal_init_pcb_steps =
      rw e1 rw (ne→eqb stack 0 ne1) rw
        (mmu_create_vas-granted (record s { frames = f }) cr3 root f' e2 ne2) refl

  -- In a sound state with frame 0 in use and frames below 2^52, where one allocation gives the frame
  -- `stack` and the next the frame `root`, `halInitPcb` returns. Either it succeeds, with the control block
  -- for the flags in the address space `root`, where the processor's walk for the stack pointer leads to
  -- `stack`, and the entries of all four levels together let the user read and write but not execute; or it returns STATUS_NO_MEMORY and `stack` is free.
  pub hal_init_pcb-translate :
      IsReady s.frames
      → s.frames.highest_frame_idx ≤ 2 ^ 40
      → (o : ℕ × Pcb × Mmu) × (hal_init_pcb s cr3 pcb flags ≡ some o)
        × Initialised flags root stack o
  hal_init_pcb-translate ready narrow =
      let g = granted 1 (omega arith) ready e1 ne1 in
      let ready' = mm_alloc_frame-IsReady 1 (omega arith) ready e1 in
      let space =
        mmu_create_vas-IsSpace (record s { frames = f }) cr3 root f'
          (align_down stack_page page_size) ready' (omega (arith, narrow, g.frame_count)) e2 ne2
          (omega arith) in
      let (o, e, i) =
        map_stack_lem with_space root g.start flags (omega (arith, narrow, g.inside)) space
          (mmu_create_vas-AllOpen f' (pte_addr cr3) root (align_down stack_page page_size)
            (omega arith))
          (omega (
            arith,
            g.inside,
            g.frame_count,
            (granted 1 (omega arith) ready' e2 ne2).frame_count,
            filled_count 512 f' root (pte_addr cr3) 0,
          )) in
      (
        o,
        hal_init_pcb_steps
            ∙ ap
                (λ x.
                  map_stack with_space
                    (record { vas = root; stack_phys_base = x; tf = first_frame flags }))
                g.address
            ∙ e,
        subst (λ x. Initialised flags root x o) (sym g.address) i,
      )
