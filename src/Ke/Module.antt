-- ===== src/Ke/Module.antt =====
-- Modules of the kernel and of the boot loader: ntos/ke/module.c and `keGetBootModule` of
-- ntos/ke/bootParam.c.
use algae.Base.{ℕ, Bool, true, false, Option, none, some, List, [], ◌∷◌, if◌then◌else◌, ◌>>=◌}
use algae.Rtl.Str.{rtl_strcmp}
use algae.Omar.BootPack.{is_zero}

-- `MODULE_TYPE`
pub data ModuleType : Type 0 where
  module_generic module_object : ModuleType

-- `KERNEL_MODULE`; `init` changes a state `S`, and its status is not looked at.
pub record KernelModule (S : Type 0) : Type 0 where
  pub name : List ℕ
  pub init : Option (S → ℕ × S)
  pub type : ModuleType

abbrev pub same_module_type : ModuleType → ModuleType → Bool
same_module_type module_generic module_generic = true
same_module_type module_object module_object = true
same_module_type a b = false

abbrev pub call_init : {S : Type 0} → Option (S → ℕ × S) → S → S
call_init none s = s
call_init (some init) s = (init s).1

-- `kiModuleInit`, on the modules between the linker's two symbols.
unfoldable pub ki_module_init : {S : Type 0} → List (KernelModule S) → ModuleType → S → S
ki_module_init [] type s = s
ki_module_init (modp ∷ modules) type s =
    ki_module_init modules type
      (if same_module_type modp.type type then call_init modp.init s else s)

-- `struct limine_file`, as far as it is read.
pub record LimineFile : Type 0 where
  pub path : List ℕ
  pub address : ℕ

-- `keGetBootModule` of a response that is not null: the address of the first file with the path, or 0.
unfoldable pub ke_get_boot_module : List LimineFile → (path : List ℕ) → Option ℕ
ke_get_boot_module [] path = some 0
ke_get_boot_module (file ∷ modules) path = do
  order ← rtl_strcmp file.path path
  elim (is_zero order) [ true ↦ some file.address | false ↦ ke_get_boot_module modules path ]
