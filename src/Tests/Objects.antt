-- ===== src/Tests/Objects.antt =====
-- A root directory with one entry, and a table of open objects.
use algae.Base.{
  ℕ, ◌-◌, ◌≡◌, refl, none, some, List, [], ◌∷◌, ◌++◌, arith, ◌==◌, if◌then◌else◌, length, ◌⊎◌,
  replicate,
}
use algae.Status.{status_success, status_object_notfound}
use algae.Rtl.Str.{c_str, rtl_strcmp}
use algae.Ob.{
  ObStore, ObjectDir, NtObject, directory, null, nt_ob_directory, nt_ob_timer, ob_directory_lookup,
  find_entry, find_in, skip_slashes, lookup_loop, ob_lookup_object, ob_create_object,
}
use algae.Ob.Lookup.{IsComponent, path_of, resolve, ob_lookup_object-resolve}
use algae.Ob.Create.{CanCreate, ob_create_object-ob_directory_lookup, ob_create_object_kept}
use algae.Ob.Table.{ObTab, Taken, NoSpace, ob_table_add_lem}

abbrev field : List ℕ → List ℕ
field name = name ++ replicate (32 - length name) 0

abbrev clkdev : List ℕ
clkdev = b'c' ∷ b'l' ∷ b'k' ∷ []

abbrev sched : List ℕ
sched = b's' ∷ b'c' ∷ b'h' ∷ []

abbrev root_dir : ObjectDir
root_dir = record { dir = 2 ∷ []; num_ent = 1 }

abbrev root_object : NtObject
root_object = record {
  type = nt_ob_directory;
  name = field (b'/' ∷ []);
  ref = 1;
  data_ptr = directory root_dir;
}

abbrev clkdev_object : NtObject
clkdev_object = record {
  type = nt_ob_directory;
  name = field clkdev;
  ref = 2;
  data_ptr = directory (record { dir = []; num_ent = 0 });
}

abbrev two_objects : ObStore
two_objects = record {
  root = 1;
  object = λ p. if p == 1 then some root_object else if p == 2 then some clkdev_object else none;
}

clkdev-IsComponent : IsComponent clkdev
clkdev-IsComponent = record {
  bytes =
      ((omega arith, omega arith), ((omega arith, omega arith), ((omega arith, omega arith), tt)));
  nonempty = omega arith;
  short = omega arith;
}

sched-IsComponent : IsComponent sched
sched-IsComponent = record {
  bytes =
      ((omega arith, omega arith), ((omega arith, omega arith), ((omega arith, omega arith), tt)));
  nonempty = omega arith;
  short = omega arith;
}

ob_lookup_object-resolve_example :
    ob_lookup_object 3 two_objects (path_of ((0, clkdev) ∷ (1, sched) ∷ []) [])
    ≡ resolve two_objects 1 ((0, clkdev) ∷ (1, sched) ∷ [])
ob_lookup_object-resolve_example =
    ob_lookup_object-resolve two_objects [] ((0, clkdev) ∷ (1, sched) ∷ []) 3
      (clkdev-IsComponent, (sched-IsComponent, tt)) (omega arith)

root_found : ob_lookup_object 1 two_objects (c_str (b'/' ∷ []) []) ≡ some (status_success, 1)
unfolding ob_lookup_object lookup_loop skip_slashes
root_found = refl

no_sched : ob_directory_lookup two_objects 1 (c_str sched []) ≡ some (status_object_notfound, null)
unfolding ob_directory_lookup find_in find_entry rtl_strcmp
no_sched = refl

clkdev_found : ob_directory_lookup two_objects 1 (c_str clkdev []) ≡ some (status_success, 2)
unfolding ob_directory_lookup find_in find_entry rtl_strcmp
clkdev_found = refl

room_at_three : CanCreate two_objects 3 1 root_object root_dir
room_at_three = record {
  allocated = omega arith;
  unused = refl;
  parent = omega arith;
  found = refl;
  is_directory = refl;
  has_directory = refl;
}

ob_create_object-ob_directory_lookup_example :
    (s' : ObStore) × (ob_create_object 1 two_objects 3 (record {
      parent = some (c_str (b'/' ∷ []) []);
      name = some (c_str sched []);
      type = nt_ob_timer;
    })
      ≡ some (status_success, 3, s'))
    × (ob_directory_lookup s' 1 (c_str sched []) ≡ some (status_success, 3))
ob_create_object-ob_directory_lookup_example =
    ob_create_object-ob_directory_lookup two_objects 3 1 nt_ob_timer sched [] root_object root_dir
      room_at_three sched-IsComponent 1 (c_str (b'/' ∷ []) []) (omega arith) root_found no_sched

ob_create_object_kept_example :
    (s' : ObStore) × (ob_create_object 1 two_objects 3 (record {
      parent = some (c_str (b'/' ∷ []) []);
      name = some (c_str sched []);
      type = nt_ob_timer;
    })
      ≡ some (status_success, 3, s'))
    × (ob_directory_lookup s' 1 (c_str clkdev []) ≡ some (status_success, 2))
ob_create_object_kept_example =
    ob_create_object_kept two_objects 3 1 nt_ob_timer sched [] root_object root_dir room_at_three
      sched-IsComponent 1 (c_str (b'/' ∷ []) []) (c_str clkdev []) 2 (omega arith) root_found
      clkdev_found

abbrev half_full : ObTab
half_full = record { open_count = 0; ob = 1 ∷ 0 ∷ 1 ∷ 0 ∷ [] }

ob_table_add_lem_example :
    Taken two_objects half_full 2 clkdev_object ⊎ NoSpace two_objects half_full 2
ob_table_add_lem_example = ob_table_add_lem two_objects half_full 2 clkdev_object refl (omega arith)
