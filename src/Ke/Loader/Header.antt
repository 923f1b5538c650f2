-- ===== src/Ke/Loader/Header.antt =====
-- Which files the loader takes for programs, and what it does with the others.
use algae.Base.{
  ℕ, zero, suc, ◌+◌, ◌*◌, ◌/◌, ◌%◌, ◌^◌, ◌≤◌, ◌<◌, ◌≡◌, ◌≢◌, refl, ap₂, ◌∙◌, sub_ℕ, true, false,
  none, some, List, [], ◌∷◌, get_elem?, drop, take, length, ◌==◌, if◌then◌else◌, ◌>>=◌, arith, ℤ,
  pos, ◌⊎◌, inl, inr, Bool-cases, eqb→eq,
}
use algae.Status.{status_success, status_proc_noexec}
use algae.Rtl.Str.{rtl_memcmp}
use algae.Omar.{le32_at}
use algae.Omar.BootPack.{is_zero, ke_boot_pack_get}
use algae.Ke.Loader.{
  Setting, Loading, le16_at, dos_magic, pe_magic, pe_header_size, image_file_machine_amd64,
  pe_verify_header, load_pe64, ke_load_from_boot_pack,
}

-- What the loader reads of a file: its first two bytes, the offset of the PE header, and the bytes of
-- the machine type in that.
pub record Fields (dos : List ℕ) : Type 0 where
  pub magic_lo : ℕ
  pub magic_hi : ℕ
  pub lfanew : ℕ
  pub machine_lo : ℕ
  pub machine_hi : ℕ
  pub at_0 : get_elem? dos 0 ≡ some magic_lo
  pub at_1 : get_elem? dos 1 ≡ some magic_hi
  pub at_60 : le32_at dos 60 ≡ some lfanew
  pub has_signature : 4 ≤ length (drop lfanew dos)
  pub at_4 : get_elem? (drop lfanew dos) 4 ≡ some machine_lo
  pub at_5 : get_elem? (drop lfanew dos) 5 ≡ some machine_hi
  pub bytes : (magic_lo < 256) × (machine_lo < 256)

-- A DOS header that begins with MZ, and at its offset the signature PE and the machine type of amd64.
pub record IsImage {dos : List ℕ} (f : Fields dos) : Type 0 where
  pub m : f.magic_lo ≡ b'M'
  pub z : f.magic_hi ≡ b'Z'
  pub signature : take 4 (drop f.lfanew dos) ≡ pe_magic
  pub amd64_lo : f.machine_lo ≡ 0x64
  pub amd64_hi : f.machine_hi ≡ 0x86

same_head : {a b : ℕ} {p q : List ℕ} → (a ∷ p) ≡ (b ∷ q) → (a ≡ b) × (p ≡ q)
same_head e = (cc, cc)

not_zero : (a b : ℕ) → (a == b) ≡ false → is_zero (sub_ℕ a b) ≡ false
not_zero a b ne = ground (arith, ne)

rtl_memcmp-take :
    (n : ℕ) (p q : List ℕ)
    → n ≤ length p
    → n ≤ length q
    → (o : ℤ) × (rtl_memcmp p q n ≡ some o)
      × (((is_zero o ≡ true) × (take n p ≡ take n q))
          ⊎ ((is_zero o ≡ false) × (take n p ≢ take n q)))
unfolding rtl_memcmp
rtl_memcmp-take zero p q hp hq = (pos 0, refl, inl (refl, refl))
rtl_memcmp-take (suc n) [] q hp hq = absurd (omega (arith, hp))
rtl_memcmp-take (suc n) (a ∷ p) [] hp hq = absurd (omega (arith, hq))
rtl_memcmp-take (suc n) (a ∷ p) (b ∷ q) hp hq = elim (Bool-cases (a == b)) [
  | inl e ↦
      (let (o, r, c) = rtl_memcmp-take n p q (omega (arith, hp)) (omega (arith, hq)) in
        (
          o,
          rw e r,
          elim c [
            | inl (z, t) ↦ inl (z, ap₂ ◌∷◌ (eqb→eq a b e) t)
            | inr (z, d) ↦ inr (z, λ h. d (same_head h).1)
          ],
        ))
  | inr ne ↦ (
    sub_ℕ a b,
    rw ne refl,
    inr (not_zero a b ne, λ h. let same : a ≡ b = (same_head h).0 in ground (arith, ne, same)),
  )
]

le16_at_lem :
    (p : List ℕ) (i a b : ℕ)
    → get_elem? p i ≡ some a
    → get_elem? p (i + 1) ≡ some b
    → le16_at p i ≡ some (a + b * 2 ^ 8)
unfolding le16_at
le16_at_lem p i a b ea eb = rw ea rw eb refl

word_low : (a b w : ℕ) → a < 256 → ((a + b * 2 ^ 8) == w) ≡ true → a ≡ w % 2 ^ 8
word_low a b w small e = omega (arith, small, eqb→eq (a + b * 2 ^ 8) w e)

word_high : (a b w : ℕ) → a < 256 → ((a + b * 2 ^ 8) == w) ≡ true → b ≡ w / 2 ^ 8
word_high a b w small e = omega (arith, small, eqb→eq (a + b * 2 ^ 8) w e)

module _ (dos : List ℕ) (f : Fields dos) where
  abbrev pe : List ℕ
  pe = drop f.lfanew dos

  abbrev dos_word : ℕ
  dos_word = f.magic_lo + f.magic_hi * 2 ^ 8

  abbrev machine_word : ℕ
  machine_word = f.machine_lo + f.machine_hi * 2 ^ 8

  not_dos : (dos_word == dos_magic) ≡ false → pe_verify_header dos ≡ some none
  unfolding pe_verify_header
  not_dos h = ground (arith, le16_at_lem dos 0 f.magic_lo f.magic_hi f.at_0 f.at_1, h)

  with_signature :
      (o : ℤ)
      → (dos_word == dos_magic) ≡ true
      → rtl_memcmp pe pe_magic 4 ≡ some o
      → pe_verify_header dos ≡ (
          if is_zero o
          then some (if machine_word == image_file_machine_amd64 then some pe else none)
          else some none)
  unfolding pe_verify_header
  with_signature o h same = ground (
    arith,
    le16_at_lem dos 0 f.magic_lo f.magic_hi f.at_0 f.at_1,
    h,
    f.at_60,
    same,
    le16_at_lem pe 4 f.machine_lo f.machine_hi f.at_4 f.at_5,
  )

  -- The header is accepted exactly when the file is an image for amd64.
  pe_verify_header-IsImage :
      ((pe_verify_header dos ≡ some (some pe)) × IsImage f)
      ⊎ ((pe_verify_header dos ≡ some none) × (¬ IsImage f))
  pe_verify_header-IsImage = elim (Bool-cases (dos_word == dos_magic)) [
    | inr other ↦ inr (not_dos other, λ image. ground (arith, other, image.m, image.z))
    | inl dos_file ↦
        (let (o, same, cases) = rtl_memcmp-take 4 pe pe_magic f.has_signature (omega arith) in
          elim cases [
            | inr (zero_lem, differs) ↦ inr (
              with_signature o dos_file same ∙ rw zero_lem refl,
              λ image. differs (image.signature),
            )
            | inl (zero_lem, signature) ↦
                elim (Bool-cases (machine_word == image_file_machine_amd64)) [
                  | inr other ↦ inr (
                    with_signature o dos_file same ∙ rw zero_lem rw other refl,
                    λ image. ground (arith, other, image.amd64_lo, image.amd64_hi),
                  )
                  | inl amd64 ↦ inl (
                    with_signature o dos_file same ∙ rw zero_lem rw amd64 refl,
                    record {
                      m = word_low f.magic_lo f.magic_hi dos_magic f.bytes.0 dos_file;
                      z = word_high f.magic_lo f.magic_hi dos_magic f.bytes.0 dos_file;
                      signature = signature;
                      amd64_lo =
                          word_low f.machine_lo f.machine_hi image_file_machine_amd64 f.bytes.1
                            amd64;
                      amd64_hi =
                          word_high f.machine_lo f.machine_hi image_file_machine_amd64 f.bytes.1
                            amd64;
                    },
                  )
                ]
          ])
  ]

-- The file at a path, with the headers' fields, is an image for amd64 or it is not. If it is not,
-- `keLoadFromBootPack` returns STATUS_PROC_NOEXEC, with the entry point and the memory as before. If it
-- is, the sections are gone through, the status of that is thrown away, and with the address of the
-- entry point the status is success.
pub ke_load_from_boot_pack-IsImage :
    (fuel : ℕ) (c : Setting) (s : Loading) (boot_pack path dos : List ℕ) (entry : ℕ)
    (f : Fields dos)
    → ke_boot_pack_get fuel boot_pack path ≡ some (some dos)
    → let loaded = ke_load_from_boot_pack fuel c s boot_pack (some path) (some entry) in
      let pe = drop f.lfanew dos in
      ((¬ IsImage f) × (loaded ≡ some (status_proc_noexec, some entry, s)))
      ⊎ (IsImage f
          × (loaded ≡ (do
            r ← load_pe64 c s pe dos
            entry' ← le32_at pe (pe_header_size + 16)
            some (status_success, some entry', r.1))))
unfolding ke_load_from_boot_pack
ke_load_from_boot_pack-IsImage fuel c s boot_pack path dos entry f get =
    elim (pe_verify_header-IsImage dos f) [
      | inl (accepted, image) ↦ inr (image, rw get rw accepted refl)
      | inr (refused, other) ↦ inl (other, rw get rw refused refl)
    ]
