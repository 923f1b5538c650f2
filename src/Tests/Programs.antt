-- ===== src/Tests/Programs.antt =====
-- A boot pack with one program, which has no sections.
use algae.Base.{
  ℕ, ◌+◌, ◌≡◌, refl, false, some, List, [], ◌∷◌, ◌++◌, ◌⊎◌, ◌>>=◌, arith, drop, replicate,
}
use algae.Status.{status_success, status_proc_noexec}
use algae.Rtl.Str.{rtl_memcmp, rtl_strcmp}
use algae.Omar.{le32_at}
use algae.Omar.BootPack.{read_bytes, next_offset, read_entry, get_file_loop, ke_boot_pack_get}
use algae.Mm.Phys.{Frames}
use algae.Ke.Loader.{Setting, Loading, pe_header_size, load_pe64, ke_load_from_boot_pack}
use algae.Ke.Loader.Header.{Fields, IsImage, ke_load_from_boot_pack-IsImage}

abbrev no_frames : Frames
no_frames = record {
  bitmap = 0xff ∷ [];
  highest_frame_idx = 8;
  bitmap_size = 4096;
  bitmap_free_start = 0;
  frames_used = 8;
  frames_free = 0;
  last_idx = 0;
  memory = λ _. 0;
}

abbrev program : List ℕ
program =
    b'M'
    ∷ b'Z'
    ∷ (replicate 58 0 ++ 64 ∷ 0 ∷ 0 ∷ 0 ∷ b'P' ∷ b'E' ∷ 0 ∷ 0 ∷ 0x64 ∷ 0x86 ∷ replicate 34 0)

abbrev boot_pack : List ℕ
boot_pack = b'O' ∷ b'M' ∷ b'A' ∷ b'R' ∷ 0 ∷ 1 ∷ 104 ∷ 0 ∷ 0 ∷ 0 ∷ 2 ∷ 0 ∷ 0 ∷ 0 ∷ 0 ∷ b'p' ∷ program

abbrev path : List ℕ
path = b'/' ∷ b'p' ∷ 0 ∷ []

program_found : ke_boot_pack_get 1 boot_pack path ≡ some (some program)
unfolding ke_boot_pack_get get_file_loop read_entry read_bytes next_offset rtl_memcmp rtl_strcmp
program_found = refl

abbrev program_fields : Fields program
program_fields = record {
  magic_lo = b'M';
  magic_hi = b'Z';
  lfanew = 64;
  machine_lo = 0x64;
  machine_hi = 0x86;
  at_0 = refl;
  at_1 = refl;
  at_60 = refl;
  has_signature = omega arith;
  at_4 = refl;
  at_5 = refl;
  bytes = (omega arith, omega arith);
}

abbrev setting : Setting
setting = record {
  base = 0;
  cr3 = 0x1000;
  element = λ i. 0x8000 + i;
  stale_window = 7;
  kept = false;
}

abbrev unloaded : Loading
unloaded = record {
  mmu = record { frames = no_frames; tlb_flushed = [] };
  box = record { ptr_count = 0; entries = [] };
  freed = [];
}

ke_load_from_boot_pack-IsImage_example :
    let loaded = ke_load_from_boot_pack 1 setting unloaded boot_pack (some path) (some 0) in
    let pe = drop 64 program in
    ((¬ IsImage program_fields) × (loaded ≡ some (status_proc_noexec, some 0, unloaded)))
    ⊎ (IsImage program_fields
        × (loaded ≡ (do
          r ← load_pe64 setting unloaded pe program
          entry' ← le32_at pe (pe_header_size + 16)
          some (status_success, some entry', r.1))))
ke_load_from_boot_pack-IsImage_example =
    ke_load_from_boot_pack-IsImage 1 setting unloaded boot_pack path program 0 program_fields
      program_found
