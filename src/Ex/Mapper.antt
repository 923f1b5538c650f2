-- ===== src/Ex/Mapper.antt =====
-- Mappers: ntos/ex/mapper.c. A null pointer is `none`; `none` of an operation is a bug check or a fault.
use algae.Base.{ℕ, Option, none, some, List, [], ◌∷◌, ◌==◌, if◌then◌else◌, ◌>>=◌}
use algae.Status.{
  status_success, status_invalid_handle, status_bad_obj_type, status_not_supported,
  status_no_memory,
}
use algae.Rtl.Str.{c_str}
use algae.Mm.Mmu.{Mmu, Prot}
use algae.Mm.Page.{mm_map_pages}
use algae.Ob.{
  ObStore, ObData, no_data, directory, opaque, nt_ob_directory, nt_ob_mapper, ob_lookup_object,
  ob_create_object, ob_allocate_dir,
}

-- `MAPPER_TYPE`
pub data MapperType : Type 0 where
  mapper_fixed mapper_dynamic : MapperType

-- `MAPPER_REGION`
pub record MapperRegion : Type 0 where
  pub v_base : ℕ
  pub p_base : ℕ
  pub length : ℕ
  pub prot : Prot

-- `MAPPER_OBJECT`
pub record MapperObject : Type 0 where
  pub type : MapperType
  pub region : MapperRegion

-- `mapperMapFixed` in the address space `cr3`.
unfoldable pub mapper_map_fixed : Mmu → (cr3 : ℕ) → MapperRegion → Option (ℕ × Mmu)
mapper_map_fixed s cr3 region = do
  r ←
      mm_map_pages s cr3
        (record { p_base = region.p_base; v_base = region.v_base; byte_count = region.length })
        region.prot
  some (if r.0 == 0 then status_no_memory else status_success, r.2)

-- The data of the object that is found.
abbrev pub mapper_data : ObData → Option (ℕ × ℕ)
mapper_data no_data = some (status_not_supported, 0)
mapper_data (opaque a) = some (status_success, a)
mapper_data (directory d) = none

-- `exMapperGet` of a result that is not null: the status, and the address of the mapper object.
unfoldable pub ex_mapper_get : (fuel : ℕ) → ObStore → (path : Option (List ℕ)) → Option (ℕ × ℕ)
ex_mapper_get fuel s none = some (status_invalid_handle, 0)
ex_mapper_get fuel s (some path) = do
  r ← ob_lookup_object fuel s path
  if r.0 == status_success
      then (do
        o ← s.object r.1
        if o.type == nt_ob_mapper then mapper_data o.data_ptr else some (status_bad_obj_type, 0))
      else some (r.0, 0)

map_as : Mmu → (cr3 : ℕ) → MapperRegion → MapperType → Option (ℕ × Mmu)
unfolding mapper_map_fixed
map_as s cr3 region mapper_fixed = mapper_map_fixed s cr3 region
map_as s cr3 region mapper_dynamic = some (status_not_supported, s)

unfoldable pub ex_mapper_map : Mmu → (cr3 : ℕ) → (mapper : Option MapperObject) → Option (ℕ × Mmu)
unfolding map_as
ex_mapper_map s cr3 none = some (status_invalid_handle, s)
ex_mapper_map s cr3 (some mapper) = map_as s cr3 mapper.region mapper.type

abbrev pub mapper_name : List ℕ
mapper_name = b'm' ∷ b'a' ∷ b'p' ∷ b'p' ∷ b'e' ∷ b'r' ∷ []

-- `mapperInit`; `fresh` and `fresh_dir` are what `exAllocatePool` returns.
unfoldable pub mapper_init : ObStore → (fresh fresh_dir : ℕ) → Option (ℕ × ObStore)
mapper_init s fresh fresh_dir = do
  r ← ob_create_object 1 s fresh (record {
    parent = some (c_str (b'/' ∷ []) []);
    name = some (c_str mapper_name []);
    type = nt_ob_directory;
  })
  if r.0 == status_success
      then (do
        a ← ob_allocate_dir r.2 fresh_dir r.1
        if a.0 == status_success then some (status_success, a.1) else none)
      else none
