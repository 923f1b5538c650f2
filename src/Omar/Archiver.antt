-- ===== src/Omar/Archiver.antt =====
-- `file_push` of tools/omar/omar.c. What open, fstat, malloc and read answer are arguments.
use algae.Base.{
  ℕ, ◌+◌, ◌-◌, ◌%◌, Bool, Option, none, some, List, [], ◌∷◌, ◌++◌, length, take, replicate, u8, u32,
  ◌==◌, if◌then◌else◌, ℤ, pos, negsuc,
}
use algae.Omar.{
  OmarHdr, hdr_bytes, hdr_size, omar_magic, omar_eof, omar_reg, omar_dir, omar_rev, block_size,
}

-- An opened input: what fstat tells, and the buffer after `read`, `none` where `read` returned 0
-- or less; `memory` is whether `malloc` gave the buffer.
pub record Input : Type 0 where
  pub st_mode : ℕ
  pub st_size : ℕ
  pub is_dir : Bool
  pub memory : Bool
  pub read : Option (List ℕ)

-- What `open` and `fstat` answer.
pub data Opened : Type 0 where
  open_failed fstat_failed : ℤ → Opened
  opened : Input → Opened

unfoldable pub input_hdr : Input → List ℕ → OmarHdr
input_hdr i name = record {
  magic = omar_magic;
  type = if i.is_dir then omar_dir else omar_reg;
  name_len = u8 (length name);
  len = u32 i.st_size;
  rev = omar_rev;
  mode = u32 i.st_mode;
}

-- The padding behind a directory's header and name.
unfoldable pub dir_padding : OmarHdr → List ℕ
dir_padding h = replicate (block_size - (hdr_size + h.name_len) % block_size) 0

-- The padding behind a file's data. `namelen + len` is added in 32 bits.
unfoldable pub file_padding : OmarHdr → List ℕ
file_padding h =
    let rem = (hdr_size + u32 (h.name_len + h.len)) % block_size in
    if rem == 0 then [] else replicate (block_size - rem) 0

-- The bytes behind the name, and the result: 0, -ENOMEM or -EIO.
unfoldable pub push_body : OmarHdr → Input → List ℕ × ℤ
unfolding dir_padding file_padding
push_body h i =
    if i.is_dir
    then (dir_padding h, pos 0)
    else if i.memory
    then elim i.read [
      | none ↦ ([], negsuc 4)
      | some buf ↦ (take h.len buf ++ file_padding h, pos 0)
    ]
    else ([], negsuc 11)

-- The bytes that `file_push` writes to the archive for a path, and its result.
unfoldable pub file_push : Opened → (name : List ℕ) → List ℕ × ℤ
unfolding input_hdr push_body
file_push (open_failed e) name = ([], e)
file_push (fstat_failed e) name = ([], e)
file_push (opened i) name =
    let h = input_hdr i name in
    let body = push_body h i in (hdr_bytes h (take h.name_len name ++ body.0), body.1)

-- `file_push(NULL, "EOF")`: the mode is whatever the stack holds.
unfoldable pub push_eof : (garbage_mode : ℕ) → List ℕ
push_eof garbage_mode =
    hdr_bytes
      (record {
        magic = omar_eof;
        type = omar_reg;
        name_len = 3;
        len = 0;
        rev = omar_rev;
        mode = u32 garbage_mode;
      })
      (b'E' ∷ b'O' ∷ b'F' ∷ [])
