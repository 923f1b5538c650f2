-- ===== src/Omar/BootPack.antt =====
-- `bootPackGetFile` and `keBootPackGet` of ntos/ke/bootPack.c. The boot pack is the list of bytes
-- from `bootPackBase` on.
use algae.Base.{
  ℕ, zero, suc, ◌+◌, Bool, true, false, Option, none, some, List, [], ◌∷◌, get_elem?, drop, ◌==◌,
  if◌then◌else◌, ◌>>=◌, align_up, ℤ, pos, negsuc,
}
use algae.Status.{status_success, status_file_unavl, status_invalid_param}
use algae.Rtl.Str.{c_str, rtl_strcmp, rtl_memcmp}
use algae.Omar.{hdr_size, omar_magic, omar_eof, omar_dir, block_size, le32_at}

pub record BootpackNode : Type 0 where
  pub len : ℕ
  pub data_ptr : List ℕ

abbrev pub is_zero : ℤ → Bool
is_zero (pos zero) = true
is_zero (pos (suc n)) = false
is_zero (negsuc n) = false

-- `rtlMemcpy(nameBuf, name, nameLen)`
unfoldable pub read_bytes : (n : ℕ) → List ℕ → Option (List ℕ)
read_bytes zero p = some []
read_bytes (suc n) [] = none
read_bytes (suc n) (c ∷ p) = do cs ← read_bytes n p; some (c ∷ cs)

-- The offset of the next header.
unfoldable pub next_offset : (type name_len len : ℕ) → ℕ
next_offset type name_len len =
    if type == omar_dir then 512 else align_up (hdr_size + name_len + len) block_size

-- The fields of a header that the loop uses, and the name behind it.
pub record Entry : Type 0 where
  pub type : ℕ
  pub name_len : ℕ
  pub len : ℕ
  pub name : List ℕ

unfoldable pub read_entry : List ℕ → Option Entry
unfolding read_bytes
read_entry p = do
  type ← get_elem? p 4
  name_len ← get_elem? p 5
  len ← le32_at p 6
  name ← read_bytes name_len (drop hdr_size p)
  some (record { type = type; name_len = name_len; len = len; name = name })

abbrev pub Found : Type 0
Found = ℕ × Option BootpackNode

-- The loop at header `p`. `nameLen` is an unsigned char, so the test on the buffer's size passes.
unfoldable pub get_file_loop : (fuel : ℕ) → (p path : List ℕ) → Option Found
unfolding read_entry next_offset
get_file_loop zero p path = none
get_file_loop (suc fuel) p path = do
  eof ← rtl_memcmp p (c_str omar_eof []) 5
  elim (is_zero eof) [
    | true ↦ some (status_file_unavl, none)
    | false ↦ do
      magic ← rtl_memcmp p omar_magic 4
      elim (is_zero magic) [
        | false ↦ some (status_invalid_param, none)
        | true ↦ do
          e ← read_entry p
          same ← rtl_strcmp (c_str e.name []) path
          elim (is_zero same) [
            | true ↦ some (
              status_success,
              some (record { len = e.len; data_ptr = drop (hdr_size + e.name_len) p }),
            )
            | false ↦ get_file_loop fuel (drop (next_offset e.type e.name_len e.len) p) path
          ]
      ]
  ]

-- `keBootPackGet`: a path that begins with '/'. The result is the data, or null.
unfoldable pub ke_boot_pack_get : (fuel : ℕ) → (boot_pack path : List ℕ) → Option (Option (List ℕ))
unfolding get_file_loop
ke_boot_pack_get fuel boot_pack [] = none
ke_boot_pack_get fuel boot_pack (c ∷ path) =
    if c == b'/'
    then (do
      r ← get_file_loop fuel boot_pack path
      if r.0 == status_success then (do n ← r.1; some (some n.data_ptr)) else some none)
    else some none
