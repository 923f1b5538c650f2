-- ===== src/Omar/Extract/RoundTrip.antt =====
-- `archive_extract` of what `file_push` wrote.
use algae.Base.{
  ℕ, zero, suc, ◌+◌, ◌*◌, ◌/◌, ◌%◌, ◌^◌, ◌<◌, ◌≤◌, ◌≢◌, ◌-◌, ◌≡◌, refl, ap, sym, none, ne→eqb, take,
  get_elem?, ◌==◌, if◌then◌else◌, ◌∙◌, true, some, List, [], ◌∷◌, ◌++◌, arith, drop, length,
  drop_add, drop_append, append_assoc, ◌>>=◌, u32, All,
}
use algae.Omar.{hdr_size, omar_rev}
use algae.Omar.Archiver.{opened, file_push, push_eof}
use algae.Omar.BootPack.{next_offset}
use algae.Omar.Lookup.{block, block-drop, read_bytes-append}
use algae.Omar.RoundTrip.{
  Item, dir, file, input_of, name_of, archive, IsArchivable, type_of, len_of, mode_of, body_of,
  block_of, padding, push-block, item-offset,
}
use algae.Omar.Extract.{
  Request, mkdir, create, starts_with, until_zero, out_path, mkpath, mkpath_loop, cut_slash,
  extract_entry, extract_loop,
}

-- A directory for each slash of `path` from the position `k` on, for `n` positions: what stands in front
-- of the slash.
unfoldable pub above : (mode : ℕ) → (path : List ℕ) → (k n : ℕ) → List Request
above mode path k zero = []
above mode path k (suc n) =
    let rest = above mode path (k + 1) n in
    elim (get_elem? path k) [
      | none ↦ rest
      | some c ↦ if c == b'/' then mkdir (take k path) mode ∷ rest else rest
    ]

-- What has to be made of an item: a directory behind all those above it, but the root of the host's
-- tree, or a file; at the item's name behind the output directory and a slash.
abbrev pub requests_of : (outpath : List ℕ) → Item → List Request
requests_of outpath (dir name mode size) =
    let path = outpath ++ b'/' ∷ name in
    above (u32 mode) path 1 (length path - 1) ++ mkdir path (u32 mode) ∷ []
requests_of outpath (file name mode contents) =
    create (outpath ++ b'/' ∷ name) (u32 mode) contents ∷ []

-- The last byte of a name is not a slash.
abbrev pub EndsPlain : List ℕ → Type 0
EndsPlain [] = ⊥
EndsPlain (c ∷ []) = c ≢ b'/'
EndsPlain (c ∷ d ∷ path) = EndsPlain (d ∷ path)

-- A name without zeros whose path fits the buffer, and which does not end with a slash.
pub record IsExtractable (outpath : List ℕ) (i : Item) : Type 0 where
  pub text : All (λ c. c ≢ 0) (name_of i)
  pub plain : EndsPlain (name_of i)
  pub short : length (outpath ++ b'/' ∷ name_of i) ≤ 255

until_zero_lem : (s : List ℕ) → All (λ c. c ≢ 0) s → until_zero s ≡ s
unfolding until_zero
until_zero_lem [] h = refl
until_zero_lem (c ∷ s) h = rw (ne→eqb c 0 h.0) (ap (λ t. c ∷ t) (until_zero_lem s h.1))

take_short : (xs : List ℕ) (n : ℕ) → length xs ≤ n → take n xs ≡ xs
take_short [] zero h = refl
take_short [] (suc n) h = refl
take_short (x ∷ xs) zero h = absurd (omega (arith, h))
take_short (x ∷ xs) (suc n) h = ap (λ ys. x ∷ ys) (take_short xs n (omega (arith, h)))

out_path_lem :
    (outpath : List ℕ) (i : Item)
    → IsExtractable outpath i
    → out_path outpath (name_of i) ≡ outpath ++ b'/' ∷ name_of i
unfolding out_path
out_path_lem outpath i h =
    rw (until_zero_lem (name_of i) h.text) (take_short (outpath ++ b'/' ∷ name_of i) 255 h.short)

cut_slash-plain : (path : List ℕ) → EndsPlain path → cut_slash path ≡ path
unfolding cut_slash
cut_slash-plain [] h = refl
cut_slash-plain (c ∷ []) h = rw (ne→eqb c b'/' h) refl
cut_slash-plain (c ∷ d ∷ path) h = ap (λ p. c ∷ p) (cut_slash-plain (d ∷ path) h)

EndsPlain-append : (outpath name : List ℕ) → EndsPlain name → EndsPlain (outpath ++ b'/' ∷ name)
EndsPlain-append [] [] h = absurd h
EndsPlain-append [] (c ∷ name) h = h
EndsPlain-append (a ∷ []) name h = EndsPlain-append [] name h
EndsPlain-append (a ∷ b ∷ outpath) name h = EndsPlain-append (b ∷ outpath) name h

get_elem?_at :
    (before path : List ℕ) (c : ℕ) → get_elem? (before ++ c ∷ path) (length before) ≡ some c
get_elem?_at [] path c = refl
get_elem?_at (b ∷ before) path c = get_elem?_at before path c

take_before : (before path : List ℕ) → take (length before) (before ++ path) ≡ before
take_before [] [] = refl
take_before [] (c ∷ path) = refl
take_before (b ∷ before) path = ap (λ xs. b ∷ xs) (take_before before path)

length_snoc : (before : List ℕ) (c : ℕ) → length (before ++ c ∷ []) ≡ length before + 1
length_snoc [] c = refl
length_snoc (b ∷ before) c = omega (arith, length_snoc before c)

above_suc :
    (mode : ℕ) (path : List ℕ) (k n c : ℕ) (before : List ℕ)
    → get_elem? path k ≡ some c
    → take k path ≡ before
    → above mode path k (suc n) ≡ (
        if c == b'/'
        then mkdir before mode ∷ above mode path (k + 1) n
        else above mode path (k + 1) n)
unfolding above
above_suc mode path k n c before at front = rw (above, at, front) refl

above_zero : (mode : ℕ) (path : List ℕ) (k : ℕ) → above mode path k zero ≡ []
unfolding above
above_zero mode path k = refl

-- The loop of `mkpath` meets the slashes in turn.
mkpath_loop-above :
    (mode : ℕ) (before path : List ℕ)
    → mkpath_loop mode before path ≡ above mode (before ++ path) (length before) (length path)
unfolding mkpath_loop
mkpath_loop-above mode before [] = sym (above_zero mode (before ++ []) (length before))
mkpath_loop-above mode before (c ∷ path) =
    rw (mkpath_loop-above mode (before ++ c ∷ []) path) rw (append_assoc before (c ∷ []) path) rw
      (length_snoc before c)
      (sym (
        above_suc mode (before ++ c ∷ path) (length before) (length path) c before
          (get_elem?_at before path c) (take_before before (c ∷ path))))

mkpath_lem :
    (mode : ℕ) (path : List ℕ)
    → EndsPlain path
    → mkpath mode path ≡ above mode path 1 (length path - 1) ++ mkdir path mode ∷ []
unfolding mkpath
mkpath_lem mode [] h = absurd h
mkpath_lem mode (c ∷ path) h =
    rw (cut_slash-plain (c ∷ path) h) rw (mkpath_loop-above mode (c ∷ []) path)
      (ap (λ n. above mode (c ∷ path) 1 n ++ mkdir (c ∷ path) mode ∷ []) (omega arith))

abbrev pub all_requests : (outpath : List ℕ) → List Item → List Request
all_requests outpath [] = []
all_requests outpath (i ∷ is) = requests_of outpath i ++ all_requests outpath is

le32_sum :
    (n : ℕ)
    → n < 2 ^ 32
    → n % 256 + 256 * (n / 256 % 256) + 65536 * (n / 65536 % 256) + 16777216 * (n / 16777216 % 256)
      ≡ n
le32_sum n h = omega (arith, h)

module _ (type len mode : ℕ) (name body outpath : List ℕ) (fits : len < 2 ^ 32)
    (mode_fits : mode < 2 ^ 32) where
  extract_loop-block :
      (fuel : ℕ)
      → extract_loop (suc fuel) outpath (block type (length name) len omar_rev mode name body) ≡ (do
        here ←
            extract_entry outpath
              (block type (length name) len omar_rev mode name body)
              type
              (length name)
              len
              mode
        later ← extract_loop fuel outpath (
            drop
              (next_offset type (length name) len)
              (block type (length name) len omar_rev mode name body))
        some (here ++ later.0, later.1))
  unfolding extract_loop starts_with
  extract_loop-block fuel = rw (le32_sum len fits) rw (le32_sum mode mode_fits) refl

extract_entry-item :
    (outpath : List ℕ) (i : Item) (rest : List ℕ)
    → IsArchivable i
    → IsExtractable outpath i
    → extract_entry outpath
        (block_of i rest)
        (type_of i)
        (length (name_of i))
        (len_of i)
        (mode_of i)
      ≡ some (requests_of outpath i)
unfolding extract_entry
extract_entry-item outpath (dir name mode size) rest h x =
    rw (read_bytes-append name (body_of (dir name mode size) ++ rest)) rw
      (out_path_lem outpath (dir name mode size) x)
      (ap some
        (mkpath_lem (u32 mode) (outpath ++ b'/' ∷ name) (EndsPlain-append outpath name x.plain)))
extract_entry-item outpath (file name mode contents) rest h x =
    rw (read_bytes-append name (body_of (file name mode contents) ++ rest)) rw
      (drop_add hdr_size (length name) (block_of (file name mode contents) rest)) rw
      (drop_append name (body_of (file name mode contents) ++ rest)) rw
      (append_assoc contents (padding (15 + (length name + length contents))) rest) rw
      (read_bytes-append contents (padding (15 + (length name + length contents)) ++ rest))
      (ap (λ p. some (create p (u32 mode) contents ∷ []))
        (out_path_lem outpath (file name mode contents) x))

fields-lt : (i : Item) → IsArchivable i → (len_of i < 2 ^ 32) × (mode_of i < 2 ^ 32)
fields-lt (dir name mode size) h = (omega (arith, h), omega arith)
fields-lt (file name mode contents) h = (omega (arith, h), omega arith)

-- The loop at an item makes it, and goes on behind its block.
extract_loop-item :
    (outpath : List ℕ) (i : Item) (rest : List ℕ) (fuel : ℕ)
    → IsArchivable i
    → IsExtractable outpath i
    → extract_loop (suc fuel) outpath ((file_push (opened (input_of i)) (name_of i)).0 ++ rest)
      ≡ (do
        later ← extract_loop fuel outpath rest
        some (requests_of outpath i ++ later.0, later.1))
extract_loop-item outpath i rest fuel h x =
    let (len-lt, mode-lt) = fields-lt i h in
    rw (push-block i rest h) (
      extract_loop-block (type_of i) (len_of i) (mode_of i) (name_of i) (body_of i ++ rest) outpath
        len-lt mode-lt fuel
      ∙ rw (extract_entry-item outpath i rest h x) rw
          (block-drop (type_of i) (length (name_of i)) (len_of i) omar_rev (mode_of i) (name_of i)
            (body_of i ++ rest) refl len-lt (body_of i)
            (next_offset (type_of i) (length (name_of i)) (len_of i)) (item-offset i h) rest refl)
          refl)

extract_loop-eof :
    (outpath : List ℕ) (mode fuel : ℕ)
    → extract_loop (suc fuel) outpath (push_eof mode) ≡ some ([], true)
unfolding extract_loop starts_with push_eof
extract_loop-eof outpath mode fuel = refl

-- For items whose names and contents fit the archive, whose names have no zeros and no slash at the end and
-- fit 255 bytes behind the output directory and a slash, and fuel above their number, `archive_extract` of
-- the archive that the items were pushed into asks the host, at that path for each item in turn, for a file
-- with the mode and the contents that went in, or for a directory behind one for each part of the path that
-- ends in front of a slash; and it stops at the archive's end.
pub extract_loop-archive :
    (outpath : List ℕ) (items : List Item) (garbage_mode fuel : ℕ)
    → All IsArchivable items
    → All (IsExtractable outpath) items
    → length items < fuel
    → extract_loop fuel outpath (archive items garbage_mode)
      ≡ some (all_requests outpath items, true)
unfolding archive
extract_loop-archive outpath [] mode zero h x enough = absurd (omega (arith, enough))
extract_loop-archive outpath [] mode (suc fuel) h x enough = extract_loop-eof outpath mode fuel
extract_loop-archive outpath (i ∷ is) mode zero h x enough = absurd (omega (arith, enough))
extract_loop-archive outpath (i ∷ is) mode (suc fuel) h x enough =
    extract_loop-item outpath i (archive is mode) fuel h.0 x.0
    ∙ rw (extract_loop-archive outpath is mode fuel h.1 x.1 (omega (arith, enough))) refl
