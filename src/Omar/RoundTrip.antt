-- ===== src/Omar/RoundTrip.antt =====
-- Items that are archived, and the boot pack lookup of each of them.
use algae.Base.{
  ℕ, zero, suc, ◌+◌, ◌-◌, ◌%◌, ◌^◌, ◌<◌, ◌≡◌, ◌≢◌, refl, ap, ◌∙◌, sym, true, false, Option, none,
  some, List, [], ◌∷◌, ◌++◌, arith, ◌==◌, if◌then◌else◌, length, take, replicate, length-append,
  length-replicate, take_append, append-nil, append_assoc, All, u8, u32, ℤ, pos, negsuc,
}
use algae.Status.{status_success}
use algae.Rtl.Str.{c_str}
use algae.Rtl.Str.Compare.{IsText, rtl_strcmp-eq_iff, rtl_strcmp_total, rtl_strcmp_self}
use algae.Omar.{hdr_size, omar_reg, omar_dir, omar_rev, block_size}
use algae.Omar.Archiver.{Input, opened, dir_padding, file_padding, file_push, push_eof}
use algae.Omar.BootPack.{is_zero, next_offset, get_file_loop, ke_boot_pack_get}
use algae.Omar.Lookup.{block, block-found, block-next, block-drop, push_eof-stops}

-- What is archived: a directory, or a file with its contents. `read` returns 0 at an empty file.
pub data Item : Type 0 where
  dir : (name : List ℕ) (mode size : ℕ) → Item
  file : (name : List ℕ) (mode : ℕ) (contents : List ℕ) → Item

unfoldable pub posix_read : List ℕ → Option (List ℕ)
posix_read [] = none
posix_read (c ∷ cs) = some (c ∷ cs)

unfoldable pub input_of : Item → Input
unfolding posix_read
input_of (dir name mode size) = record {
  st_mode = mode;
  st_size = size;
  is_dir = true;
  memory = true;
  read = none;
}
input_of (file name mode contents) = record {
  st_mode = mode;
  st_size = length contents;
  is_dir = false;
  memory = true;
  read = posix_read contents;
}

abbrev pub name_of : Item → List ℕ
name_of (dir name mode size) = name
name_of (file name mode contents) = name

-- The archive that `archive_create` and the last `file_push` write for the items, in order.
unfoldable pub archive : List Item → (garbage_mode : ℕ) → List ℕ
unfolding input_of
archive [] mode = push_eof mode
archive (i ∷ is) mode = (file_push (opened (input_of i)) (name_of i)).0 ++ archive is mode

-- A name that fits the header and, for a file, contents that do.
abbrev pub IsArchivable : Item → Type 0
IsArchivable (dir name mode size) = IsText name × (length name < 256) × (size < 2 ^ 32)
IsArchivable (file name mode contents) =
    IsText name
    × (length name < 256)
    × (0 < length contents)
    × (length name + length contents < 2 ^ 32)

pub take_all : (xs : List ℕ) → take (length xs) xs ≡ xs
take_all xs = ap (take (length xs)) (sym (append-nil xs)) ∙ take_append xs []

abbrev pub type_of : Item → ℕ
type_of (dir name mode size) = omar_dir
type_of (file name mode contents) = omar_reg

abbrev pub len_of : Item → ℕ
len_of (dir name mode size) = u32 size
len_of (file name mode contents) = length contents

abbrev pub mode_of : Item → ℕ
mode_of (dir name mode size) = u32 mode
mode_of (file name mode contents) = u32 mode

-- The zeros that end the last block of `n` bytes.
abbrev pub padding : ℕ → List ℕ
padding n = if n % block_size == 0 then [] else replicate (block_size - n % block_size) 0

-- What stands behind an item's name.
abbrev pub body_of : Item → List ℕ
body_of (dir name mode size) = replicate (512 - (15 + length name)) 0
body_of (file name mode contents) = contents ++ padding (15 + (length name + length contents))

abbrev pub block_of : Item → List ℕ → List ℕ
block_of i rest =
    block (type_of i) (length (name_of i)) (len_of i) omar_rev (mode_of i) (name_of i)
      (body_of i ++ rest)

pub push-block :
    (i : Item) (rest : List ℕ)
    → IsArchivable i
    → (file_push (opened (input_of i)) (name_of i)).0 ++ rest ≡ block_of i rest
unfolding file_push input_of dir_padding file_padding
push-block (dir name mode size) rest h =
    let short : u8 (length name) ≡ length name = omega arith in
    let within : (hdr_size + length name) % block_size ≡ 15 + length name = omega arith in
    rw short (rw (take_all name) (rw within (rw (append_assoc name) refl)))
push-block (file name mode []) rest h = absurd (omega arith)
push-block (file name mode (c ∷ cs)) rest h =
    let short : u8 (length name) ≡ length name = omega arith in
    let fits : u32 (length (c ∷ cs)) ≡ length (c ∷ cs) = omega arith in
    let sum : u32 (length name + length (c ∷ cs)) ≡ length name + length (c ∷ cs) = omega arith in
    rw short
      (rw (take_all name) (rw fits (rw sum (rw (take_all cs) (rw (append_assoc name) refl)))))

pub item-offset :
    (i : Item)
    → IsArchivable i
    → next_offset (type_of i) (length (name_of i)) (len_of i)
      ≡ hdr_size + length (name_of i) + length (body_of i)
unfolding next_offset
item-offset (dir name mode size) h =
    omega (arith, length-replicate {A = ℕ} (512 - (15 + length name)) 0)
item-offset (file name mode contents) h = ground (
  arith,
  length-append contents (padding (15 + (length name + length contents))),
  length-replicate {A = ℕ} (block_size - (15 + (length name + length contents)) % block_size) 0,
)

is_zero-ne : (r : ℤ) → r ≢ pos 0 → is_zero r ≡ false
is_zero-ne (pos zero) ne = absurd (ne refl)
is_zero-ne (pos (suc n)) ne = refl
is_zero-ne (negsuc n) ne = refl

-- The archive from an item on, and behind it.
module _ (i : Item) (rest : List ℕ) (h : IsArchivable i) where
  IsText-name_of : IsText (name_of i)
  IsText-name_of = pick i h
    where
      pick : (i : Item) → IsArchivable i → IsText (name_of i)
      pick (dir name mode size) h = h.0
      pick (file name mode contents) h = h.0

  len-lt : len_of i < 2 ^ 32
  len-lt = pick i h
    where
      pick : (i : Item) → IsArchivable i → len_of i < 2 ^ 32
      pick (dir name mode size) h = omega arith
      pick (file name mode contents) h = omega arith

  abbrev pushed : List ℕ
  pushed = (file_push (opened (input_of i)) (name_of i)).0 ++ rest

  found-item :
      (fuel : ℕ)
      → get_file_loop (suc fuel) pushed (c_str (name_of i) [])
        ≡ some (status_success, some (record { len = len_of i; data_ptr = body_of i ++ rest }))
  found-item fuel = rw (push-block i rest h) (
      block-found (type_of i) (length (name_of i)) (len_of i) omar_rev (mode_of i) (name_of i)
        (body_of i ++ rest) refl len-lt fuel (c_str (name_of i) [])
        (rtl_strcmp_self (name_of i) [] [] IsText-name_of))

  skip-item :
      (fuel : ℕ) (path : List ℕ)
      → IsText path
      → name_of i ≢ path
      → get_file_loop (suc fuel) pushed (c_str path []) ≡ get_file_loop fuel rest (c_str path [])
  skip-item fuel path text ne =
      let (r, e) = rtl_strcmp_total (name_of i) path [] [] IsText-name_of text in
      let next =
        block-next (type_of i) (length (name_of i)) (len_of i) omar_rev (mode_of i) (name_of i)
          (body_of i ++ rest) refl len-lt fuel (c_str path []) r e
          (is_zero-ne r λ z.
            ne
              ((rtl_strcmp-eq_iff (name_of i) path [] [] IsText-name_of text).0 (e ∙ ap some z))) in
      rw (push-block i rest h) (
        next
        ∙ ap (λ p. get_file_loop fuel p (c_str path []))
            (block-drop (type_of i) (length (name_of i)) (len_of i) omar_rev (mode_of i) (name_of i)
              (body_of i ++ rest) refl len-lt (body_of i)
              (next_offset (type_of i) (length (name_of i)) (len_of i)) (item-offset i h) rest
              refl))

module _ (mode : ℕ) where
  skip-items :
      (before after : List Item) (path : List ℕ) (fuel : ℕ)
      → All IsArchivable before
      → IsText path
      → All (λ i. name_of i ≢ path) before
      → get_file_loop (length before + fuel) (archive (before ++ after) mode) (c_str path [])
        ≡ get_file_loop fuel (archive after mode) (c_str path [])
  unfolding archive
  skip-items [] after path fuel h text other =
      ap (λ f. get_file_loop f (archive after mode) (c_str path [])) (omega arith)
  skip-items (i ∷ before) after path fuel h text other =
      let e : length (i ∷ before) + fuel ≡ suc (length before + fuel) = omega arith in
      rw e (
        skip-item i (archive (before ++ after) mode) h.0 (length before + fuel) path text other.0
        ∙ skip-items before after path fuel h.1 text other.1)

  -- For an archive of items whose names and contents fit, a file among them with no item of its name in
  -- front, and fuel above the number of items in front, the boot pack lookup of the file's path returns
  -- a pointer to its contents.
  pub ke_boot_pack_get-archive :
      (before after : List Item) (name contents : List ℕ) (st_mode fuel : ℕ)
      → All IsArchivable before
      → IsArchivable (file name st_mode contents)
      → All (λ i. name_of i ≢ name) before
      → length before < fuel
      → (tail : List ℕ) × (ke_boot_pack_get fuel
            (archive (before ++ file name st_mode contents ∷ after) mode)
            (b'/' ∷ c_str name [])
          ≡ some (some (contents ++ tail)))
  unfolding ke_boot_pack_get archive
  ke_boot_pack_get-archive before after name contents st_mode fuel hb hi other enough =
      let i = file name st_mode contents in
      let e : fuel ≡ length before + suc (fuel - length before - 1) = omega arith in
      let found =
        skip-items before (i ∷ after) name (suc (fuel - length before - 1)) hb hi.0 other
        ∙ found-item i (archive after mode) hi (fuel - length before - 1) in
      (
        padding (15 + (length name + length contents)) ++ archive after mode,
        rw e (rw found (ap (λ t. some (some t)) (append_assoc contents _ (archive after mode)))),
      )

  -- For an archive of items whose names and contents fit, and fuel above their number, the boot pack
  -- lookup of a name that no item has ends, with null.
  pub ke_boot_pack_get_missing :
      (items : List Item) (path : List ℕ) (fuel : ℕ)
      → All IsArchivable items
      → IsText path
      → All (λ i. name_of i ≢ path) items
      → length items < fuel
      → ke_boot_pack_get fuel (archive items mode) (b'/' ∷ c_str path []) ≡ some none
  unfolding ke_boot_pack_get archive
  ke_boot_pack_get_missing items path fuel h text other enough =
      let e : fuel ≡ length items + suc (fuel - length items - 1) = omega arith in
      let whole : items ++ [] ≡ items = append-nil items in
      let n = length items + suc (fuel - length items - 1) in
      let ended =
        ap (λ is. get_file_loop n (archive is mode) (c_str path [])) (sym whole)
        ∙ skip-items items [] path (suc (fuel - length items - 1)) h text other
        ∙ push_eof-stops (fuel - length items - 1) mode (c_str path []) in
      rw e (rw ended)

-- At an empty file with a name shorter than 256 bytes, `file_push` returns -EIO, and what it has written
-- by then is shorter than the step that the boot pack's reader takes to the next header.
pub file_push_empty :
    (name : List ℕ) (st_mode : ℕ)
    → length name < 256
    → let pushed = file_push (opened (input_of (file name st_mode []))) name in
      (pushed.1 ≡ negsuc 4) × (length pushed.0 < next_offset omar_reg (length name) 0)
unfolding file_push input_of next_offset
file_push_empty name st_mode short =
    let same : u8 (length name) ≡ length name = omega arith in
    (refl, rw same (rw (take_all name) (omega (arith, length-append name []))))
