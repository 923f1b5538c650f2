-- ===== src/Drv/BootVid/Framebuffer.antt =====
-- The framebuffer's mapper: `bootVidInit` of ntos/drv/bootvid/vidCore.c. `none` is a bug check or a
-- fault.
use algae.Base.{
  ℕ, ◌+◌, ◌-◌, ◌^◌, Option, none, some, List, [], ◌∷◌, ◌==◌, if◌then◌else◌, ◌>>=◌, u64,
}
use algae.Status.{status_success}
use algae.Rtl.Str.{c_str}
use algae.Mm.Mmu.{user_readwrite}
use algae.Ob.{ObStore, opaque, nt_ob_mapper, put, ob_create_object}
use algae.Ex.Mapper.{MapperObject, mapper_fixed, mapper_name}

-- `bootVidGetBase`, where `io` is the framebuffer's address and `base` that of the direct mapping.
abbrev pub boot_vid_get_base : (io base : ℕ) → ℕ
boot_vid_get_base io base = u64 (io + 2 ^ 64 - base)

abbrev pub video_name : List ℕ
video_name = b'v' ∷ b'i' ∷ b'd' ∷ b'e' ∷ b'o' ∷ b'0' ∷ []

-- `bootVidInit`: the static `mapperObj`, which stands at the address `at`, and the objects. The path
-- has one component, so that two rounds of its lookup are enough.
unfoldable pub boot_vid_init :
    (io base : ℕ)
    → MapperObject
    → (at : ℕ) → ObStore
    → (fresh : ℕ) → Option (ℕ × MapperObject × ObStore)
boot_vid_init io base obj at s fresh = do
  let fb_base = boot_vid_get_base io base
  let obj' : MapperObject = record {
    type = mapper_fixed;
    region = record (obj.region) { v_base = fb_base; p_base = fb_base; prot = user_readwrite };
  }
  r ← ob_create_object 2 s fresh (record {
    parent = some (c_str (b'/' ∷ mapper_name) []);
    name = some (c_str video_name []);
    type = nt_ob_mapper;
  })
  if fb_base == 0
      then none
      else if r.0 == status_success
      then (do
        o ← r.2.object r.1
        some (status_success, obj', put (r.2) (r.1) (some (record o { data_ptr = opaque at }))))
      else none
