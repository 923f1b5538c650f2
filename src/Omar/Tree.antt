-- ===== src/Omar/Tree.antt =====
-- `archive_create` and `strip_root` of tools/omar/omar.c on a directory of the host, and the names that
-- its files get in the archive.
use algae.Base.{
  ℕ, zero, suc, ◌≤◌, ◌≡◌, ◌≢◌, refl, ap, ◌∙◌, Bool, false, Option, none, some, List, [], ◌∷◌, ◌++◌,
  arith, leb, ◌==◌, take, length, if◌then◌else◌, ◌>>=◌, All, append_assoc, Bool-cases, inl, inr,
}
use algae.Omar.RoundTrip.{Item, dir, file}

-- The entries of a directory as `readdir` gives them: a directory with its own entries, a regular file,
-- or something else. Behind each entry stand the entries after it. Every directory can be opened.
pub data Entries : Type 0 where
  end : Entries
  dir_entry : (name : List ℕ) (mode size : ℕ) (inside after : Entries) → Entries
  file_entry : (name : List ℕ) (mode : ℕ) (contents : List ℕ) (after : Entries) → Entries
  other_entry : (name : List ℕ) (after : Entries) → Entries

-- `ent->d_name[0] == '.'`; no name is empty.
abbrev pub is_hidden : List ℕ → Bool
is_hidden [] = false
is_hidden (c ∷ name) = c == b'.'

-- What stands behind the first slash, or null.
unfoldable pub strip_root : List ℕ → Option (List ℕ)
strip_root [] = none
strip_root (c ∷ path) = let rest = strip_root path in if c == b'/' then some path else rest

-- `snprintf(namebuf, sizeof(namebuf), "%s/%s", dirname, ent->d_name)`
abbrev pub name_buf : (dirname name : List ℕ) → List ℕ
name_buf dirname name = take 255 (dirname ++ b'/' ∷ name)

-- `snprintf(pathbuf, sizeof(pathbuf), "%s/%s", base, ent->d_name)`: the path of the entry on the host.
-- `none`: it does not fit, is cut, and another entry of the host would be opened.
unfoldable pub path_buf : (base name : List ℕ) → Option (List ℕ)
path_buf base name =
    if leb (length (base ++ b'/' ∷ name)) 255 then some (base ++ b'/' ∷ name) else none

-- What `file_push` is called for, in order. `none`: the name passed is null, or a path on the host is cut.
unfoldable pub archive_create : (base dirname : List ℕ) → Entries → Option (List Item)
unfolding strip_root path_buf
archive_create base dirname end = some []
archive_create base dirname (dir_entry name mode size inside after) =
    let rest = archive_create base dirname after in
    let below = archive_create (base ++ b'/' ∷ name) (name_buf dirname name) inside in
    if is_hidden name then rest else (do
      pathbuf ← path_buf base name
      p1 ← strip_root (name_buf dirname name)
      items ← below
      later ← rest
      some (dir p1 mode size ∷ items ++ later))
archive_create base dirname (file_entry name mode contents after) =
    let rest = archive_create base dirname after in
    if is_hidden name then rest else (do
      pathbuf ← path_buf base name
      p1 ← strip_root (name_buf dirname name)
      later ← rest
      some (file p1 mode contents ∷ later))
archive_create base dirname (other_entry name after) = archive_create base dirname after

-- The path below the root: `none` is the root itself.
abbrev pub join : (at : Option (List ℕ)) → (name : List ℕ) → List ℕ
join none name = name
join (some path) name = path ++ b'/' ∷ name

-- The visible files and directories with their paths below the root, each directory in front of what it
-- holds.
pub listing : (at : Option (List ℕ)) → Entries → List Item
listing at end = []
listing at (dir_entry name mode size inside after) =
    if is_hidden name
    then listing at after
    else dir (join at name) mode size ∷ listing (some (join at name)) inside ++ listing at after
listing at (file_entry name mode contents after) =
    if is_hidden name
    then listing at after
    else file (join at name) mode contents ∷ listing at after
listing at (other_entry name after) = listing at after

abbrev pub path_from : (root : List ℕ) → (at : Option (List ℕ)) → List ℕ
path_from root none = root
path_from root (some path) = root ++ b'/' ∷ path

-- Every path with `root` in front fits a buffer of 256 bytes.
abbrev pub IsShort : (root : List ℕ) → (at : Option (List ℕ)) → Entries → Type 0
IsShort root at end = Unit
IsShort root at (dir_entry name mode size inside after) =
    (length (path_from root (some (join at name))) ≤ 255)
    × IsShort root (some (join at name)) inside
    × IsShort root at after
IsShort root at (file_entry name mode contents after) =
    (length (path_from root (some (join at name))) ≤ 255) × IsShort root at after
IsShort root at (other_entry name after) = IsShort root at after

strip_root-path :
    (root path : List ℕ) → All (λ c. c ≢ b'/') root → strip_root (root ++ b'/' ∷ path) ≡ some path
unfolding strip_root
strip_root-path [] path h = refl
strip_root-path (c ∷ root) path h = ground (arith, h.0, strip_root-path root path h.1)

take_short : (xs : List ℕ) (n : ℕ) → length xs ≤ n → take n xs ≡ xs
take_short [] zero h = refl
take_short [] (suc n) h = refl
take_short (x ∷ xs) zero h = absurd (omega (arith, h))
take_short (x ∷ xs) (suc n) h = ap (λ ys. x ∷ ys) (take_short xs n (omega (arith, h)))

path_from-join :
    (root : List ℕ) (at : Option (List ℕ)) (name : List ℕ)
    → path_from root at ++ b'/' ∷ name ≡ path_from root (some (join at name))
path_from-join root none name = refl
path_from-join root (some path) name = append_assoc root (b'/' ∷ path) (b'/' ∷ name)

name_buf-path_from :
    (root : List ℕ) (at : Option (List ℕ)) (name : List ℕ)
    → length (path_from root (some (join at name))) ≤ 255
    → name_buf (path_from root at) name ≡ path_from root (some (join at name))
name_buf-path_from root at name short =
    ap (take 255) (path_from-join root at name)
    ∙ take_short (path_from root (some (join at name))) 255 short

path_buf-path_from :
    (root : List ℕ) (at : Option (List ℕ)) (name : List ℕ)
    → length (path_from root (some (join at name))) ≤ 255
    → path_buf (path_from root at) name ≡ some (path_from root (some (join at name)))
unfolding path_buf
path_buf-path_from root at name short = rw (path_from-join root at name) (ground (arith, short))

module _ (base root : List ℕ) (plain : All (λ c. c ≢ b'/') root) where
  archive_create_at :
      (es : Entries) (at : Option (List ℕ))
      → IsShort base at es
      → IsShort root at es
      → archive_create (path_from base at) (path_from root at) es ≡ some (listing at es)
  unfolding archive_create listing
  archive_create_at end at hb h = refl
  archive_create_at (dir_entry name mode size inside after) at hb h =
      elim (Bool-cases (is_hidden name)) [
        | inl e ↦ rw e (archive_create_at after at hb.2 h.2)
        | inr e ↦
            rw e rw (name_buf-path_from root at name h.0) rw (path_buf-path_from base at name hb.0)
              rw (strip_root-path root (join at name) plain) rw (path_from-join base at name) rw
              (archive_create_at inside (some (join at name)) hb.1 h.1) rw
              (archive_create_at after at hb.2 h.2) refl
      ]
  archive_create_at (file_entry name mode contents after) at hb h =
      elim (Bool-cases (is_hidden name)) [
        | inl e ↦ rw e (archive_create_at after at hb.1 h.1)
        | inr e ↦
            rw e rw (name_buf-path_from root at name h.0) rw (path_buf-path_from base at name hb.0)
              rw (strip_root-path root (join at name) plain) rw
              (archive_create_at after at hb.1 h.1) refl
      ]
  archive_create_at (other_entry name after) at hb h = archive_create_at after at hb h

  -- For a root directory whose name has no slash, and paths that fit both buffers, behind the directory on
  -- the host and behind the root's name, `archive_create` pushes exactly the visible files and directories, under their paths below the root, each directory in front of
  -- what it holds.
  pub archive_create-listing :
      (es : Entries)
      → IsShort base none es
      → IsShort root none es
      → archive_create base root es ≡ some (listing none es)
  archive_create-listing es hb h = archive_create_at es none hb h
