-- ===== src/Drv/Clkdev.antt =====
-- How a timer's driver registers itself in the directory of the clock devices: the common part of
-- `pitInit` in ntos/platform/amd64/isa/i8254.c and of `hpetRegister` in ntos/platform/amd64/io/hpet.c.
use algae.Base.{ℕ, Option, some, List, [], ◌∷◌, ◌==◌, if◌then◌else◌, ◌>>=◌}
use algae.Status.{status_success}
use algae.Rtl.Str.{c_str}
use algae.Ob.{ObStore, opaque, nt_ob_timer, put, ob_create_object}
use algae.Ex.Timer.{clkdev_name}

abbrev pub clkdev_path : List ℕ
clkdev_path = b'/' ∷ clkdev_name

-- `obCreateObject`, and then `clkdev->data = &timer`. The path has one component, so that two rounds
-- of its lookup are enough. `fresh` is what `exAllocatePool` returns.
unfoldable pub register_timer :
    ObStore → (fresh : ℕ) → (name : List ℕ) → (timer : ℕ) → Option (ℕ × ObStore)
register_timer s fresh name timer = do
  r ← ob_create_object 2 s fresh (record {
    parent = some (c_str clkdev_path []);
    name = some (c_str name []);
    type = nt_ob_timer;
  })
  if r.0 == status_success
      then (do
        o ← r.2.object r.1
        some (r.0, put (r.2) (r.1) (some (record o { data_ptr = opaque timer }))))
      else some (r.0, r.2)
