-- ===== src/Ke/Process/Executive.antt =====
-- `exCreateProcess` of ntos/ex/process.c, down to the page tables.
use algae.Base.{
  ℕ, ◌+◌, ◌^◌, ◌≤◌, ◌≡◌, ◌≢◌, refl, ap, ◌∙◌, Option, none, some, List, ◌++◌, ◌⊎◌, inl, inr, ne→eqb,
  u32, u64, c_min, take, drop,
}
use algae.Status.{status_success, status_no_memory}
use algae.Rtl.Str.{rtl_strlen}
use algae.Mm.Phys.{Frames, mm_alloc_frame}
use algae.Mm.Phys.Safety.{IsReady}
use algae.Mm.Mmu.{Mmu}
use algae.Ke.Sched.{Pcb, null}
use algae.Ke.Process.{
  Process, Processes, put_process, named, hal_init_pcb, ex_create_process, process_namelen,
}
use algae.Ke.Process.Create.{IsStarted, IsUnwound, hal_init_pcb-translate}

-- A process was made at `fresh`.
pub record IsCreated (flags root stack fresh : ℕ) (blank : Process) (s : Processes) (name : List ℕ)
    (len status : ℕ) (result : Option ℕ) (s' : Processes) : Type 0 where
  pub success : status ≡ status_success
  pub address : result ≡ some fresh
  pub pcb : Pcb
  pub process :
      s'.process
      ≡ put_process s.process fresh (
          some (record {
            pid = u32 s.next_pid;
            name =
                take (c_min process_namelen len) name
                ++ drop (c_min process_namelen len) blank.name;
            pcb = pcb;
          }))
  pub started : IsStarted flags root stack status_success pcb s'.mmu

-- Nothing is left of the process but the number that it was given.
pub record IsAbandoned (stack fresh : ℕ) (s : Processes) (status : ℕ) (result : Option ℕ)
    (s' : Processes) : Type 0 where
  pub failure : status ≡ status_no_memory
  pub address : result ≡ none
  pub process : s'.process ≡ put_process s.process fresh none
  pub freed : IsUnwound stack status_no_memory s'.mmu

module _ (cr3 fresh : ℕ) (blank : Process) (s : Processes) (name : List ℕ) (flags len : ℕ)
    (named_len : rtl_strlen name ≡ some len) (granted : fresh ≢ 0) where
  abbrev before : Process
  before = named blank name len s.next_pid

  create-success :
      (pcb : Pcb) (m : Mmu)
      → hal_init_pcb s.mmu cr3 blank.pcb flags ≡ some (status_success, pcb, m)
      → ex_create_process cr3 fresh blank s name flags
        ≡ some (
          status_success,
          some fresh,
          record {
            next_pid = u64 (s.next_pid + 1);
            process = put_process s.process fresh (some (record (before) { pcb = pcb }));
            mmu = m;
          },
        )
  unfolding ex_create_process
  create-success pcb m e = rw named_len rw (ne→eqb fresh null granted) rw e refl

  create-failure :
      (pcb : Pcb) (m : Mmu)
      → hal_init_pcb s.mmu cr3 blank.pcb flags ≡ some (status_no_memory, pcb, m)
      → ex_create_process cr3 fresh blank s name flags
        ≡ some (
          status_no_memory,
          none,
          record {
            next_pid = u64 (s.next_pid + 1);
            process = put_process s.process fresh none;
            mmu = m;
          },
        )
  unfolding ex_create_process
  create-failure pcb m e = rw named_len rw (ne→eqb fresh null granted) rw e refl

  -- For a name that ends, memory from the pool, a sound state of the frames below 2^52, and two frames
  -- `stack` and `root` that the allocator gives, `exCreateProcess` returns and counts the number up. Either
  -- it succeeds with the process at the pool's address, with the number, the name cut to 32 bytes, and a
  -- control block that is started; or it returns STATUS_NO_MEMORY, and the pool's memory and the stack's
  -- frame are given back.
  pub ex_create_process_lem :
      (stack root : ℕ) (f f' : Frames)
      → mm_alloc_frame s.mmu.frames 1 ≡ some (stack, f)
      → stack ≢ 0
      → mm_alloc_frame f 1 ≡ some (root, f')
      → root ≢ 0
      → IsReady s.mmu.frames
      → s.mmu.frames.highest_frame_idx ≤ 2 ^ 40
      → (o : ℕ × Option ℕ × Processes) × (ex_create_process cr3 fresh blank s name flags ≡ some o)
        × (o.2.next_pid ≡ u64 (s.next_pid + 1))
        × (IsCreated flags root stack fresh blank s name len o.0 o.1 o.2
            ⊎ IsAbandoned stack fresh s o.0 o.1 o.2)
  ex_create_process_lem stack root f f' e1 ne1 e2 ne2 ready narrow =
      let (o, e, i) =
        hal_init_pcb-translate s.mmu cr3 blank.pcb flags stack root f f' e1 ne1 e2 ne2 ready
          narrow in
      elim i [
        | inl x ↦ (
          _,
          create-success o.1 o.2 (e ∙ ap (λ y. some (y, o.1, o.2)) x.success),
          refl,
          inl (record {
            success = refl;
            address = refl;
            pcb = o.1;
            process = refl;
            started = record { success = refl; control = x.control; mapped = x.mapped };
          }),
        )
        | inr x ↦ (
          _,
          create-failure o.1 o.2 (e ∙ ap (λ y. some (y, o.1, o.2)) x.failure),
          refl,
          inr (record {
            failure = refl;
            address = refl;
            process = refl;
            freed = record { failure = refl; freed = x.freed };
          }),
        )
      ]
