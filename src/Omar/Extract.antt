-- ===== src/Omar/Extract.antt =====
-- `archive_extract` of tools/omar/omar.c on the archive in memory, and what it asks the host to make.
-- A read behind the archive's end is a fault, `none`.
pub mod RoundTrip
use algae.Base.{
  ℕ, zero, suc, ◌+◌, ◌-◌, Bool, true, false, Option, none, some, List, [], ◌∷◌, ◌++◌, get_elem?,
  drop, take, length, ◌==◌, ◌&&◌, if◌then◌else◌, ◌>>=◌, align_up,
}
use algae.Omar.{hdr_size, omar_magic, omar_eof, omar_dir, block_size, le32_at}
use algae.Omar.BootPack.{read_bytes, next_offset}

-- A request to the host: a directory, or a file with its data.
pub data Request : Type 0 where
  mkdir : (path : List ℕ) (mode : ℕ) → Request
  create : (path : List ℕ) (mode : ℕ) (contents : List ℕ) → Request

-- `memcmp(p, s, length of s) == 0`
unfoldable pub starts_with : (p s : List ℕ) → Option Bool
starts_with p [] = some true
starts_with [] (b ∷ s) = none
starts_with (a ∷ p) (b ∷ s) = elim (a == b) [ true ↦ starts_with p s | false ↦ some false ]

-- `snprintf(pathbuf, sizeof(pathbuf), "%s/%s", outpath, namebuf)`: a string of at most 255 bytes.
-- `namebuf` ends at the name's first zero.
unfoldable pub until_zero : List ℕ → List ℕ
until_zero [] = []
until_zero (c ∷ s) = let rest = until_zero s in if c == 0 then [] else c ∷ rest

unfoldable pub out_path : (outpath name : List ℕ) → List ℕ
unfolding until_zero
out_path outpath name = take 255 (outpath ++ b'/' ∷ until_zero name)

-- The loop of `mkpath` behind the byte at `before`: a directory for each prefix in front of a slash.
unfoldable pub mkpath_loop : (mode : ℕ) → (before path : List ℕ) → List Request
mkpath_loop mode before [] = []
mkpath_loop mode before (c ∷ path) =
    let rest = mkpath_loop mode (before ++ c ∷ []) path in
    if c == b'/' then mkdir before mode ∷ rest else rest

-- `buf[len - 1]`, a slash at the end, is cut off.
unfoldable pub cut_slash : List ℕ → List ℕ
cut_slash [] = []
cut_slash (c ∷ []) = if c == b'/' then [] else c ∷ []
cut_slash (c ∷ d ∷ path) = c ∷ cut_slash (d ∷ path)

-- `mkpath`; the path is not empty.
unfoldable pub mkpath : (mode : ℕ) → (path : List ℕ) → List Request
unfolding mkpath_loop cut_slash
mkpath mode path =
    let buf = cut_slash path in mkpath_loop mode (take 1 buf) (drop 1 buf) ++ mkdir buf mode ∷ []

-- What is done for one header at `p`: the requests.
unfoldable pub extract_entry :
    (outpath p : List ℕ) → (type name_len len mode : ℕ) → Option (List Request)
unfolding read_bytes out_path mkpath
extract_entry outpath p type name_len len mode = do
  name ← read_bytes name_len (drop hdr_size p)
  let path = out_path outpath name
  if type == omar_dir then some (mkpath mode path) else (do
    contents ← read_bytes len (drop (hdr_size + name_len) p)
    some (create path mode contents ∷ []))

-- The loop of `archive_extract` at header `p`: the requests, in order, and whether the end of the
-- archive was found. A revision other than the tool's own only gets a message.
unfoldable pub extract_loop : (fuel : ℕ) → (outpath p : List ℕ) → Option (List Request × Bool)
unfolding starts_with extract_entry next_offset
extract_loop zero outpath p = none
extract_loop (suc fuel) outpath p = do
  eof ← starts_with p (omar_eof ++ 0 ∷ [])
  elim eof [
    | true ↦ some ([], true)
    | false ↦ do
      valid ← starts_with p omar_magic
      elim valid [
        | false ↦ some ([], false)
        | true ↦ do
          type ← get_elem? p 4
          name_len ← get_elem? p 5
          len ← le32_at p 6
          mode ← le32_at p 11
          here ← extract_entry outpath p type name_len len mode
          later ← extract_loop fuel outpath (drop (next_offset type name_len len) p)
          some (here ++ later.0, later.1)
      ]
  ]
