-- ===== src/Tests/Tables.antt =====
-- An address space with an empty root table.
use algae.Base.{ℕ, ◌/◌, ◌≡◌, refl, none, some, [], ◌∷◌, arith, ◌⊎◌, align_down}
use algae.Status.{status_success}
use algae.Bitmap.{test_byte, test_bit}
use algae.Mm.Words64.{read64}
use algae.Mm.Phys.{page_size}
use algae.Mm.Mmu.{Mmu, mmu_map_single, mmu_unmap_single, user_readwrite}
use algae.Mm.Mmu.Walk.{translate}
use algae.Mm.Mmu.Rights.{AllOpen}
use algae.Mm.Mmu.Mapped.{
  IsSpace, IsMapped, IsExhausted, mmu_map_single-translate, mmu_unmap_single-translate,
}

-- Eight frames; frame 0 is reserved and frame 1 is the root table, all zeros.
abbrev machine : Mmu
machine = record {
  frames = record {
    bitmap = 0b00000011 ∷ [];
    highest_frame_idx = 8;
    bitmap_size = 4096;
    bitmap_free_start = 1;
    frames_used = 2;
    frames_free = 6;
    last_idx = 0;
    memory = λ _. 0;
  };
  tlb_flushed = [];
}

machine-IsSpace : IsSpace machine 4096 (align_down 0x7FFFBFFFF123 page_size)
unfolding test_bit test_byte read64
machine-IsSpace = record {
  ready = record {
    sound = record { bytes = (omega arith, tt); covers = omega arith; fits = omega arith };
    reserved = refl;
  };
  narrow = omega arith;
  root = record { aligned = refl; used = refl; not_null = omega arith };
  tables = λ present. absurd cc;
}

machine-AllOpen : AllOpen machine.frames.memory 4096 (align_down 0x7FFFBFFFF123 page_size)
unfolding read64
machine-AllOpen = record {
  write = λ present. absurd cc;
  user_mode = λ present. absurd cc;
  execute = λ present. absurd cc;
}

mmu_map_single-translate_example :
    (o : ℕ × Mmu) × (mmu_map_single machine 4096 0x7FFFBFFFF123 0x9ABC user_readwrite ≡ some o)
    × (IsMapped 4096 0x7FFFBFFFF123 (0x9ABC / page_size) user_readwrite o.0 o.1
        ⊎ IsExhausted machine o.0 o.1)
mmu_map_single-translate_example =
    mmu_map_single-translate machine 4096 0x7FFFBFFFF123 0x9ABC user_readwrite machine-IsSpace
      machine-AllOpen (omega arith)

mmu_unmap_single-translate_example :
    (s'' : Mmu) × (mmu_unmap_single machine 4096 0x7FFFBFFFF123 ≡ some (status_success, s''))
    × (translate s''.frames.memory 4096 0x7FFFBFFFF123 ≡ none)
mmu_unmap_single-translate_example =
    mmu_unmap_single-translate machine 4096 0x7FFFBFFFF123 machine-IsSpace
