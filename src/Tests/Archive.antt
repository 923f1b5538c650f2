-- ===== src/Tests/Archive.antt =====
-- An archive of a directory and two files.
use algae.Base.{ℕ, ◌<◌, ◌≡◌, none, some, true, List, [], ◌∷◌, ◌++◌, arith, length, negsuc, All}
use algae.Rtl.Str.{c_str}
use algae.Omar.{omar_reg}
use algae.Omar.Archiver.{opened, file_push}
use algae.Omar.BootPack.{next_offset, ke_boot_pack_get}
use algae.Omar.RoundTrip.{
  Item, dir, file, input_of, archive, IsArchivable, ke_boot_pack_get-archive,
  ke_boot_pack_get_missing, file_push_empty,
}
use algae.Omar.Extract.{extract_loop}
use algae.Omar.Extract.RoundTrip.{IsExtractable, all_requests, extract_loop-archive}
use algae.Omar.Tree.{
  Entries, end, dir_entry, file_entry, other_entry, archive_create, listing, archive_create-listing,
}

abbrev bin : List ℕ
bin = b'b' ∷ []

abbrev csrs : List ℕ
csrs = b'b' ∷ b'/' ∷ b'c' ∷ []

abbrev motd : List ℕ
motd = b'm' ∷ []

abbrev before : List Item
before = dir bin 0o755 4096 ∷ file motd 0o644 (b'h' ∷ b'i' ∷ []) ∷ []

before-IsArchivable : All IsArchivable before
before-IsArchivable = (
  ((omega arith, tt), omega arith, omega arith),
  (((omega arith, tt), omega arith, omega arith, omega arith), tt),
)

csrs-IsArchivable : IsArchivable (file csrs 0o755 (1 ∷ 2 ∷ 3 ∷ []))
csrs-IsArchivable =
    ((omega arith, (omega arith, (omega arith, tt))), omega arith, omega arith, omega arith)

ke_boot_pack_get-archive_example :
    (tail : List ℕ) × (ke_boot_pack_get 3
        (archive (before ++ file csrs 0o755 (1 ∷ 2 ∷ 3 ∷ []) ∷ []) 7)
        (b'/' ∷ c_str csrs [])
      ≡ some (some ((1 ∷ 2 ∷ 3 ∷ []) ++ tail)))
ke_boot_pack_get-archive_example =
    ke_boot_pack_get-archive 7 before [] csrs (1 ∷ 2 ∷ 3 ∷ []) 0o755 3 before-IsArchivable
      csrs-IsArchivable (λ e. absurd cc, (λ e. absurd cc, tt)) (omega arith)

ke_boot_pack_get_missing_example :
    ke_boot_pack_get 3 (archive before 7) (b'/' ∷ c_str csrs []) ≡ some none
ke_boot_pack_get_missing_example =
    ke_boot_pack_get_missing 7 before csrs 3 before-IsArchivable
      (omega arith, (omega arith, (omega arith, tt))) (λ e. absurd cc, (λ e. absurd cc, tt))
      (omega arith)

file_push_empty_example :
    let pushed = file_push (opened (input_of (file motd 0o644 []))) motd in
    (pushed.1 ≡ negsuc 4) × (length pushed.0 < next_offset omar_reg (length motd) 0)
file_push_empty_example = file_push_empty motd 0o644 (omega arith)

before-IsExtractable : All (IsExtractable (b'o' ∷ [])) before
before-IsExtractable = (
  record { text = (omega arith, tt); plain = omega arith; short = omega arith },
  (record { text = (omega arith, tt); plain = omega arith; short = omega arith }, tt),
)

extract_loop-archive_example :
    extract_loop 3 (b'o' ∷ []) (archive before 7) ≡ some (all_requests (b'o' ∷ []) before, true)
extract_loop-archive_example =
    extract_loop-archive (b'o' ∷ []) before 7 3 before-IsArchivable before-IsExtractable
      (omega arith)

-- A root with a hidden file, a directory with a file, and a link.
abbrev root_entries : Entries
root_entries = file_entry (b'.' ∷ b'x' ∷ []) 0o600 (1 ∷ []) (
    dir_entry bin 0o755 4096 (file_entry (b'c' ∷ []) 0o755 (2 ∷ 3 ∷ []) end)
      (other_entry (b'l' ∷ []) end))

archive_create-listing_example :
    archive_create (b'.' ∷ b'/' ∷ b'r' ∷ []) (b'r' ∷ b't' ∷ []) root_entries
    ≡ some (listing none root_entries)
archive_create-listing_example =
    archive_create-listing (b'.' ∷ b'/' ∷ b'r' ∷ []) (b'r' ∷ b't' ∷ [])
      (omega arith, (omega arith, tt)) root_entries
      (omega arith, (omega arith, (omega arith, tt), tt))
      (omega arith, (omega arith, (omega arith, tt), tt))
