-- ===== src/Omar/Lookup.antt =====
-- What the kernel finds in an archive that the archiver wrote.
use algae.Base.{
  ℕ, zero, suc, ◌+◌, ◌*◌, ◌/◌, ◌%◌, ◌^◌, ◌<◌, ◌≡◌, refl, ap, ◌∙◌, false, none, some, List, [], ◌∷◌,
  ◌++◌, arith, length, drop, drop_append, drop_add, ℤ, pos, negsuc,
}
use algae.Status.{status_success, status_file_unavl}
use algae.Rtl.Str.{c_str, rtl_strcmp, rtl_memcmp}
use algae.Omar.{hdr_bytes, hdr_size, omar_magic}
use algae.Omar.Archiver.{push_eof}
use algae.Omar.BootPack.{Entry, is_zero, read_bytes, read_entry, next_offset, get_file_loop}

pub read_bytes-append : (xs ys : List ℕ) → read_bytes (length xs) (xs ++ ys) ≡ some xs
unfolding read_bytes
read_bytes-append [] ys = refl
read_bytes-append (x ∷ xs) ys = rw (read_bytes-append xs ys)

module _ (type name_len len rev mode : ℕ) (name body : List ℕ) where
  -- A header with its name and what follows.
  abbrev pub block : List ℕ
  block =
      hdr_bytes
        (record {
          magic = omar_magic;
          type = type;
          name_len = name_len;
          len = len;
          rev = rev;
          mode = mode;
        })
        (name ++ body)

  abbrev pub entry : Entry
  entry = record { type = type; name_len = name_len; len = len; name = name }

  module _ (el : name_len ≡ length name) (fits : len < 2 ^ 32) where
    read_entry-block : read_entry block ≡ some entry
    unfolding read_entry
    read_entry-block =
        let e : len % 256
              + 256 * (len / 256 % 256)
              + 65536 * (len / 65536 % 256)
              + 16777216 * (len / 16777216 % 256)
            ≡ len =
          omega arith in
        rw e (rw el (rw (read_bytes-append name body)))

    -- The loop at such a block looks at its name, and goes on behind it or returns.
    pub block-found :
        (fuel : ℕ) (path : List ℕ)
        → rtl_strcmp (c_str name []) path ≡ some (pos 0)
        → get_file_loop (suc fuel) block path
          ≡ some (status_success, some (record { len = len; data_ptr = body }))
    unfolding get_file_loop rtl_memcmp
    block-found fuel path e =
        rw read_entry-block
          (rw e (rw (drop_add hdr_size name_len block) (rw el (rw (drop_append name body)))))

    pub block-next :
        (fuel : ℕ) (path : List ℕ) (r : ℤ)
        → rtl_strcmp (c_str name []) path ≡ some r
        → is_zero r ≡ false
        → get_file_loop (suc fuel) block path
          ≡ get_file_loop fuel (drop (next_offset type name_len len) block) path
    unfolding get_file_loop rtl_memcmp
    block-next fuel path (pos zero) e ne = cc
    block-next fuel path (pos (suc n)) e ne = rw read_entry-block (rw e)
    block-next fuel path (negsuc n) e ne = rw read_entry-block (rw e)

    pub block-drop :
        (rest : List ℕ) (k : ℕ)
        → k ≡ hdr_size + name_len + length rest
        → (tail : List ℕ) → body ≡ rest ++ tail
        → drop k block ≡ tail
    block-drop rest k ek tail eb =
        let e : k ≡ hdr_size + (name_len + length rest) = omega arith in
        let skip_name : drop name_len (name ++ body) ≡ body = rw el (drop_append name body) in
        rw e (
          drop_add hdr_size (name_len + length rest) block
          ∙ drop_add name_len (length rest) (name ++ body)
          ∙ ap (drop (length rest)) skip_name
          ∙ rw eb (drop_append rest tail))

-- The last header ends the search.
pub push_eof-stops :
    (fuel mode : ℕ) (path : List ℕ)
    → get_file_loop (suc fuel) (push_eof mode) path ≡ some (status_file_unavl, none)
unfolding get_file_loop rtl_memcmp push_eof
push_eof-stops fuel mode path = refl
