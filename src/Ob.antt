-- ===== src/Ob.antt =====
-- The object manager: ntos/ob/obStore.c and ntos/include/ob/object.h. Objects live at addresses; a
-- directory's tail queue is the list of its entries' addresses. `none` is an access to memory that
-- holds no object, or a read behind a string's end.
pub mod Table
pub mod Lookup
pub mod Entries
pub mod Create
use algae.Base.{
  ℕ, zero, suc, ◌+◌, ◌-◌, ◌^◌, Bool, true, false, ◌&&◌, ◌||◌, Option, none, some, List, [], ◌∷◌,
  ◌++◌, ltb, leb, ◌==◌, if◌then◌else◌, ◌>>=◌, ◌>>◌, length, take, replicate, u16, u64, ℤ, pos,
  negsuc,
}
use algae.Status.{
  status_success, status_no_memory, status_bad_objname, status_invalid_handle, status_bad_obj_type,
  status_object_notfound, status_not_directory,
}
use algae.Rtl.Str.{c_str, rtl_strlen, rtl_strcmp}
use algae.Omar.BootPack.{is_zero, read_bytes}

abbrev pub null : ℕ
null = 0

-- `NT_OBJECT_TYPE`
abbrev pub nt_ob_directory : ℕ
nt_ob_directory = 0

abbrev pub nt_ob_timer : ℕ
nt_ob_timer = 1

abbrev pub nt_ob_mapper : ℕ
nt_ob_mapper = 2

abbrev pub nt_ob_max : ℕ
nt_ob_max = 3

abbrev pub nt_obname_len : ℕ
nt_obname_len = 32

-- `NT_OBJECTDIR`
pub record ObjectDir : Type 0 where
  pub dir : List ℕ
  pub num_ent : ℕ

-- What `data` points to: nothing, a directory, or a driver's own data at an address.
pub data ObData : Type 0 where
  no_data : ObData
  directory : ObjectDir → ObData
  opaque : ℕ → ObData

-- `NT_OBJECT`
pub record NtObject : Type 0 where
  pub type : ℕ
  pub name : List ℕ
  pub ref : ℕ
  pub data_ptr : ObData

pub record ObStore : Type 0 where
  pub root : ℕ
  pub object : ℕ → Option NtObject

abbrev pub put : ObStore → ℕ → Option NtObject → ObStore
put s p o = record s { object = λ q. if p == q then o else s.object q }

-- The tail insertion and `++dir->numEnt`.
abbrev pub append_entry : ObjectDir → ℕ → ObjectDir
append_entry d child = record { dir = d.dir ++ child ∷ []; num_ent = u64 (d.num_ent + 1) }

add_to : ObStore → (parent child : ℕ) → NtObject → ObData → Option (ℕ × ObStore)
add_to s parent child o no_data = some (status_object_notfound, s)
add_to s parent child o (directory d) =
    some (
      status_success,
      put s parent (some (record o { data_ptr = directory (append_entry d child) })),
    )
add_to s parent child o (opaque a) = none

unfoldable pub ob_directory_add : ObStore → (parent child : ℕ) → Option (ℕ × ObStore)
unfolding add_to
ob_directory_add s parent child =
    if (parent == null) || (child == null) then some (status_invalid_handle, s) else (do
      o ← s.object parent
      if o.type == nt_ob_directory
          then add_to s parent child o o.data_ptr
          else some (status_not_directory, s))

-- The loop over a directory's entries. The result is a status, and the entry where one is found.
unfoldable pub find_entry : ObStore → List ℕ → (name : List ℕ) → Option (ℕ × ℕ)
find_entry s [] name = some (status_object_notfound, null)
find_entry s (cur ∷ dir) name = do
  let rest = find_entry s dir name
  o ← s.object cur
  same ← rtl_strcmp o.name name
  if is_zero same then some (status_success, cur) else rest

unfoldable pub find_in : ObStore → ObData → (name : List ℕ) → Option (ℕ × ℕ)
unfolding find_entry
find_in s no_data name = some (status_object_notfound, null)
find_in s (directory d) name = find_entry s d.dir name
find_in s (opaque a) name = none

-- `name` and `result` are not null.
unfoldable pub ob_directory_lookup : ObStore → (parent : ℕ) → (name : List ℕ) → Option (ℕ × ℕ)
unfolding find_in
ob_directory_lookup s parent name =
    if parent == null then some (status_invalid_handle, null) else (do
      o ← s.object parent
      if o.type == nt_ob_directory
          then find_in s o.data_ptr name
          else some (status_bad_obj_type, null))

-- `while (*tail == '/' && *tail != '\0') ++tail;`
unfoldable pub skip_slashes : List ℕ → List ℕ
skip_slashes [] = []
skip_slashes (c ∷ tail) = let rest = skip_slashes tail in if c == b'/' then rest else c ∷ tail

-- What the inner loop leaves: the component and the rest of the path, or a name that is too long.
pub data Component : Type 0 where
  component : (name tail : List ℕ) → Component
  too_long : Component

-- The inner loop, with `i` bytes in the buffer; the name is `rev_name` with the bytes to come.
unfoldable pub take_component : (i : ℕ) → (name tail : List ℕ) → Option Component
take_component i name [] = none
take_component i name (c ∷ tail) =
    let rest = take_component (i + 1) (name ++ c ∷ []) tail in
    if (c == b'/') || (c == 0)
    then some (component name (c ∷ tail))
    else if leb (nt_obname_len - 1) (i + 1)
    then some too_long
    else rest

-- The outer loop of `obLookupObject`, one round for each component.
unfoldable pub lookup_loop : (fuel : ℕ) → ObStore → (cur : ℕ) → (tail : List ℕ) → Option (ℕ × ℕ)
lookup_loop zero s cur tail = none
lookup_loop (suc fuel) s cur [] = none
lookup_loop (suc fuel) s cur (c ∷ tail) = elim (c == 0) [
  | true ↦ some (status_success, cur)
  | false ↦ do
    r ← take_component 0 [] (c ∷ tail)
    elim r [
      | too_long ↦ some (status_bad_objname, null)
      | component name rest ↦ do
        found ← ob_directory_lookup s cur (c_str name [])
        elim (found.0 == status_success) [
          | true ↦ lookup_loop fuel s found.1 (skip_slashes rest)
          | false ↦ some (found.0, null)
        ]
    ]
]

-- `path` and `result` are not null. An empty rest stands for the root.
unfoldable pub ob_lookup_object : (fuel : ℕ) → ObStore → (path : List ℕ) → Option (ℕ × ℕ)
unfolding lookup_loop skip_slashes
ob_lookup_object fuel s path = lookup_loop fuel s s.root (skip_slashes path)

-- `NT_OBJECT_CREATE`
pub record ObjectCreate : Type 0 where
  pub parent : Option (List ℕ)
  pub name : Option (List ℕ)
  pub type : ℕ

-- The new object: zeroed, with its name copied in front of zeros.
unfoldable pub init_object : (type : ℕ) → (name : List ℕ) → (ref : ℕ) → NtObject
init_object type name ref = record {
  type = type;
  name = name ++ replicate (nt_obname_len - length name) 0;
  ref = ref;
  data_ptr = no_data;
}

-- The part after the parent is known; `fresh` is what `exAllocatePool` returns, null if it fails.
unfoldable pub create_in :
    ObStore → (fresh parent type : ℕ) → (name : List ℕ) → Option (ℕ × ℕ × ObStore)
unfolding init_object
create_in s fresh parent type name = do
  n ← rtl_strlen name
  if (n == 0) || leb (nt_obname_len - 1) n
      then some (status_bad_objname, null, s)
      else if fresh == null
      then some (status_no_memory, null, s)
      else (do
        bytes ← read_bytes n name
        if parent == null
            then some (status_success, fresh, put s fresh (some (init_object type bytes 1)))
            else (do
              r ← ob_directory_add (put s fresh (some (init_object type bytes 2))) parent fresh
              some (status_success, fresh, r.1)))

-- The lookup of the parent, if the parameters name one.
unfoldable pub find_parent : (fuel : ℕ) → ObStore → Option (List ℕ) → Option (ℕ × ℕ)
unfolding ob_lookup_object
find_parent fuel s none = some (status_success, null)
find_parent fuel s (some path) = do
  r ← ob_lookup_object fuel s path
  if r.0 == status_success
      then (do
        o ← s.object r.1
        if o.type == nt_ob_directory then some r else some (status_not_directory, null))
      else some (status_bad_objname, null)

create_named :
    (fuel : ℕ) → ObStore → (fresh : ℕ) → ObjectCreate → Option (List ℕ) → Option (ℕ × ℕ × ObStore)
unfolding find_parent create_in
create_named fuel s fresh params none = some (status_bad_objname, null, s)
create_named fuel s fresh params (some name) = do
  r ← find_parent fuel s params.parent
  if r.0 == status_success then create_in s fresh r.1 params.type name else some (r.0, null, s)

-- The status, the object's address and the new state.
unfoldable pub ob_create_object :
    (fuel : ℕ) → ObStore → (fresh : ℕ) → ObjectCreate → Option (ℕ × ℕ × ObStore)
unfolding create_named
ob_create_object fuel s fresh params =
    if leb nt_ob_max params.type
    then some (status_bad_obj_type, null, s)
    else create_named fuel s fresh params params.name

-- The memory is given back when the last reference is gone; `ref` is an unsigned short.
unfoldable pub ob_free_object : ObStore → (p : ℕ) → Option (ℕ × ObStore)
ob_free_object s p = if p == null then some (status_invalid_handle, s) else (do
  o ← s.object p
  let ref = u16 (o.ref + 2 ^ 16 - 1)
  some (status_success, put s p (if ref == 0 then none else some (record o { ref = ref }))))

-- `fresh` is what `exAllocatePool` returns for the directory.
unfoldable pub ob_allocate_dir : ObStore → (fresh p : ℕ) → Option (ℕ × ObStore)
ob_allocate_dir s fresh p = if p == null then some (status_invalid_handle, s) else (do
  o ← s.object p
  if o.type == nt_ob_directory
      then (if fresh == null
          then some (status_no_memory, s)
          else some (
            status_success,
            put s p (some (record o { data_ptr = directory (record { dir = []; num_ent = 0 }) })),
          ))
      else some (status_not_directory, s))

-- `kiObjStoreInit`: the root directory "/"; `none` is also a bug check.
unfoldable pub ki_obj_store_init : ObStore → (fresh fresh_dir : ℕ) → Option ObStore
unfolding ob_create_object
ki_obj_store_init s fresh fresh_dir = do
  r ←
      ob_create_object 1 s fresh
        (record { parent = none; name = some (c_str (b'/' ∷ []) []); type = nt_ob_directory })
  if (r.0 == status_success) && (if fresh_dir == null then false else true)
      then (do
        o ← r.2.object r.1
        some
            (record (put r.2 r.1
              (some (record o { data_ptr = directory (record { dir = []; num_ent = 0 }) }))) {
                root = r.1;
              }))
      else none
