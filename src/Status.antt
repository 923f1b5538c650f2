-- ===== src/Status.antt =====
-- The NTSTATUS codes of sdk/include/ntstatus.h.
use algae.Base.{ℕ}

abbrev pub status_success : ℕ
status_success = 0x00000000

abbrev pub status_no_memory : ℕ
status_no_memory = 0xC0000017

abbrev pub status_bad_objname : ℕ
status_bad_objname = 0xC0000033

abbrev pub status_invalid_handle : ℕ
status_invalid_handle = 0xC0000008

abbrev pub status_bad_obj_type : ℕ
status_bad_obj_type = 0xC0000024

abbrev pub status_object_notfound : ℕ
status_object_notfound = 0xC0000034

abbrev pub status_not_directory : ℕ
status_not_directory = 0xC0000039

abbrev pub status_file_unavl : ℕ
status_file_unavl = 0xC0000467

abbrev pub status_not_mapped : ℕ
status_not_mapped = 0xC0000019

abbrev pub status_not_supported : ℕ
status_not_supported = 0xC00000BB

abbrev pub status_invalid_param : ℕ
status_invalid_param = 0xC00000EF

abbrev pub status_proc_notfound : ℕ
status_proc_notfound = 0x000000F0

abbrev pub status_proc_noexec : ℕ
status_proc_noexec = 0x000000F1

abbrev pub status_no_space : ℕ
status_no_space = 0x000000F2
