-- ===== src/Ke/Loader.antt =====
-- The program loader, ntos/ke/loader.c. `none` is an access outside the boot pack or outside the
-- bitmap of frames, or fuel that has run out.
pub mod Header
use algae.Base.{
  ℕ, zero, suc, ◌+◌, ◌*◌, ◌/◌, ◌%◌, ◌^◌, Bool, true, false, Option, none, some, List, [], ◌∷◌,
  get_elem?, drop, ◌==◌, if◌then◌else◌, ◌>>=◌, ◌>>◌, align_up,
}
use algae.Status.{status_success, status_invalid_handle, status_file_unavl, status_proc_noexec}
use algae.Rtl.Memory.{Memory, poke}
use algae.Rtl.Str.{rtl_memcmp}
use algae.Omar.{le32_at}
use algae.Omar.BootPack.{is_zero, ke_boot_pack_get}
use algae.Mm.Phys.{page_size}
use algae.Mm.Page.{Region, virt_to_phys, mm_map_pages}
use algae.Mm.Mmu.{Mmu, user_exec_read}
use algae.Ex.Box.{
  Ptrbox, Boxed, ptrbox_pages, ptrbox_any, ex_init_ptr_box, ex_box_allocate, ex_box_release,
}

abbrev pub sect_hdr_len : ℕ
sect_hdr_len = 40

-- The size of `IMAGE_PE_HEADER`, and the fields of the headers by their offsets.
abbrev pub pe_header_size : ℕ
pe_header_size = 24

abbrev pub image_file_machine_amd64 : ℕ
image_file_machine_amd64 = 0x8664

abbrev pub dos_magic : ℕ
dos_magic = 0x5A4D

abbrev pub pe_magic : List ℕ
pe_magic = b'P' ∷ b'E' ∷ 0 ∷ 0 ∷ []

unfoldable pub le16_at : List ℕ → (off : ℕ) → Option ℕ
le16_at p off = do a ← get_elem? p off; b ← get_elem? p (off + 1); some (a + b * 2 ^ 8)

-- `peGetMachineType` of an amd64 build.
abbrev pub pe_get_machine_type : ℕ
pe_get_machine_type = image_file_machine_amd64

-- `peVerifyHeader` of the file `dos`: the bytes from the PE header on, or null.
unfoldable pub pe_verify_header : (dos : List ℕ) → Option (Option (List ℕ))
unfolding le16_at
pe_verify_header dos = do
  magic ← le16_at dos 0
  elim (magic == dos_magic) [
    | false ↦ some none
    | true ↦ do
      lfanew ← le32_at dos 60
      let pe = drop lfanew dos
      same ← rtl_memcmp pe pe_magic 4
      elim (is_zero same) [
        | false ↦ some none
        | true ↦ do
          machine ← le16_at pe 4
          some (if machine == pe_get_machine_type then some pe else none)
      ]
  ]

-- `IMAGE_SECTION_HEADER`, as far as it is read.
pub record Section : Type 0 where
  pub virtual_size : ℕ
  pub virtual_addr : ℕ
  pub raw_data_size : ℕ
  pub raw_data_ptr : ℕ

unfoldable pub read_section : List ℕ → Option Section
read_section p = do
  virtual_size ← le32_at p 8
  virtual_addr ← le32_at p 12
  raw_data_size ← le32_at p 16
  raw_data_ptr ← le32_at p 20
  some (record {
    virtual_size = virtual_size;
    virtual_addr = virtual_addr;
    raw_data_size = raw_data_size;
    raw_data_ptr = raw_data_ptr;
  })

-- `rtlMemcpy` from the boot pack to the physical address `dest`.
unfoldable pub copy_in : Memory → (dest : ℕ) → (data_ptr : List ℕ) → (n : ℕ) → Option Memory
copy_in m dest p zero = some m
copy_in m dest [] (suc n) = none
copy_in m dest (c ∷ p) (suc n) = copy_in (poke m dest c) (dest + 1) p n

-- The paging structures and frames, the program's box, and what the pool got back.
pub record Loading : Type 0 where
  pub mmu : Mmu
  pub box : Ptrbox
  pub freed : List ℕ

-- What the loader takes from elsewhere: the start of the direct mapping, the address space, the
-- descriptors from the pool, the value of `mapWindow` that is not initialised, and whether freed descriptors keep their links.
pub record Setting : Type 0 where
  pub base : ℕ
  pub cr3 : ℕ
  pub element : ℕ → ℕ
  pub stale_window : ℕ
  pub kept : Bool

abbrev pub boxed_of : Loading → Boxed
boxed_of s = record { box = s.box; frames = s.mmu.frames; freed = s.freed }

abbrev pub loading_of : Loading → Boxed → Loading
loading_of s b = record { mmu = record (s.mmu) { frames = b.frames }; box = b.box; freed = b.freed }

-- The copy of a section's data, and its mapping; the result of `mmMapPages` is not looked at.
unfoldable pub map_section :
    Setting → Loading → (dos : List ℕ) → Section → (window : ℕ) → Option Loading
unfolding copy_in
map_section c s dos sect window = do
  let pa = virt_to_phys c.base window
  m ← copy_in s.mmu.frames.memory pa (drop sect.raw_data_ptr dos) sect.raw_data_size
  r ←
      mm_map_pages (record (s.mmu) { frames = record (s.mmu.frames) { memory = m } }) c.cr3
        (record {
          p_base = pa;
          v_base = sect.virtual_addr;
          byte_count = align_up sect.virtual_size page_size;
        })
        user_exec_read
  some (record s { mmu = r.2 })

-- The loop of `loadPe64` at section `i`, which stands at `sect`, with what is in `mapWindow`.
unfoldable pub load_sections :
    Setting → Loading → (dos sect : List ℕ) → (window i left : ℕ) → Option (ℕ × Loading)
unfolding read_section map_section
load_sections c s dos sect window i zero = some (status_success, s)
load_sections c s dos sect window i (suc left) = do
  h ← read_section sect
  a ← ex_box_allocate c.base (c.element i) 0 (boxed_of s) h.virtual_size ptrbox_pages window
  elim (a.0 == status_success) [
    | false ↦ do b ← ex_box_release c.kept a.2 ptrbox_any; some (a.0, loading_of s b)
    | true ↦ do
      s' ← map_section c (loading_of s a.2) dos h a.1
      load_sections c s' dos (drop sect_hdr_len sect) a.1 (i + 1) left
  ]

unfoldable pub load_pe64 : Setting → Loading → (pe dos : List ℕ) → Option (ℕ × Loading)
unfolding load_sections le16_at
load_pe64 c s pe dos = do
  opthdr_sz ← le16_at pe 20
  numsect ← le16_at pe 6
  load_sections c (record s { box = (ex_init_ptr_box s.box).1 }) dos
      (drop (pe_header_size + opthdr_sz) pe) c.stale_window 0 numsect

-- `keLoadFromBootPack`, with `none` for a null pointer: the status, the entry point that is stored,
-- and the state. The status of `loadPe64` is not looked at.
unfoldable pub ke_load_from_boot_pack :
    (fuel : ℕ)
    → Setting
    → Loading
    → (boot_pack : List ℕ) → (path : Option (List ℕ)) → (entry : Option ℕ)
    → Option (ℕ × Option ℕ × Loading)
unfolding load_pe64 pe_verify_header
ke_load_from_boot_pack fuel c s boot_pack none entry = some (status_invalid_handle, entry, s)
ke_load_from_boot_pack fuel c s boot_pack (some path) none = some (status_invalid_handle, none, s)
ke_load_from_boot_pack fuel c s boot_pack (some path) (some entry) = do
  raw ← ke_boot_pack_get fuel boot_pack path
  elim raw [
    | none ↦ some (status_file_unavl, some entry, s)
    | some dos ↦ do
      header ← pe_verify_header dos
      elim header [
        | none ↦ some (status_proc_noexec, some entry, s)
        | some pe ↦ do
          r ← load_pe64 c s pe dos
          entry' ← le32_at pe (pe_header_size + 16)
          some (status_success, some entry', r.1)
      ]
  ]
