-- ===== src/Omar.antt =====
-- The OMAR archive: the header that tools/omar/omar.c and ntos/ke/bootPack.c share.
pub mod Archiver
pub mod BootPack
pub mod Lookup
pub mod RoundTrip
pub mod Extract
pub mod Tree
use algae.Base.{
  ℕ, zero, suc, ◌+◌, ◌*◌, ◌/◌, ◌%◌, Option, none, some, List, [], ◌∷◌, ◌++◌, get_elem?, ◌>>=◌,
}

abbrev pub omar_reg : ℕ
omar_reg = 0

abbrev pub omar_dir : ℕ
omar_dir = 1

abbrev pub omar_rev : ℕ
omar_rev = 2

abbrev pub block_size : ℕ
block_size = 512

-- "OMAR" and "RAMO", without the terminator
abbrev pub omar_magic : List ℕ
omar_magic = b'O' ∷ b'M' ∷ b'A' ∷ b'R' ∷ []

abbrev pub omar_eof : List ℕ
omar_eof = b'R' ∷ b'A' ∷ b'M' ∷ b'O' ∷ []

-- `struct omar_hdr`, packed
pub record OmarHdr : Type 0 where
  pub magic : List ℕ
  pub type : ℕ
  pub name_len : ℕ
  pub len : ℕ
  pub rev : ℕ
  pub mode : ℕ

-- `sizeof(struct omar_hdr)`
abbrev pub hdr_size : ℕ
hdr_size = 15

abbrev pub le32 : ℕ → List ℕ → List ℕ
le32 n rest = n % 256 ∷ n / 256 % 256 ∷ n / 65536 % 256 ∷ n / 16777216 % 256 ∷ rest

-- The bytes of a header in memory, least significant byte first.
abbrev pub hdr_bytes : OmarHdr → List ℕ → List ℕ
hdr_bytes h rest = h.magic ++ (h.type ∷ h.name_len ∷ le32 h.len (h.rev ∷ le32 h.mode rest))

-- An unsigned 32-bit field at an offset.
abbrev pub le32_at : List ℕ → ℕ → Option ℕ
le32_at p k = do
  a ← get_elem? p k
  b ← get_elem? p (suc k)
  c ← get_elem? p (suc (suc k))
  d ← get_elem? p (suc (suc (suc k)))
  some (a + 256 * b + 65536 * c + 16777216 * d)
