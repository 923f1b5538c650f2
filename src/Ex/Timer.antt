-- ===== src/Ex/Timer.antt =====
-- Kernel timers: ntos/ke/timer.c. A timer is a record of its driver's routines over the driver's own
-- state `D`; a routine that the driver leaves null is `none`. `none` as a result is a bug check or a
-- fault of the object manager.
use algae.Base.{ℕ, Bool, true, Option, none, some, List, [], ◌∷◌, ◌==◌, if◌then◌else◌, ◌>>=◌}
use algae.Status.{status_success, status_not_supported, status_object_notfound, status_bad_obj_type}
use algae.Rtl.Str.{c_str}
use algae.Ob.{
  ObStore, ObData, no_data, directory, opaque, nt_ob_timer, nt_ob_directory, ob_lookup_object,
  ob_create_object, ob_allocate_dir, ob_free_object,
}

-- `KTIMER`
pub record Ktimer {ℓ} (D : Type ℓ) : Type ℓ where
  pub msleep : Option (D → (msec : ℕ) → D)
  pub oneshot_usec : Option (D → (usec : ℕ) → D)
  pub get_count : Option (D → ℕ × D)
  pub set_count : Option (D → (count : ℕ) → D)

-- What the object's data pointer is as the address of a timer: 0 for null.
abbrev pub timer_at : ObData → Option ℕ
timer_at no_data = some 0
timer_at (directory d) = none
timer_at (opaque a) = some a

-- `keTimerGetDescriptor` of a path and a result that are not null.
unfoldable pub ke_timer_get_descriptor : (fuel : ℕ) → ObStore → (path : List ℕ) → Option (ℕ × ℕ)
ke_timer_get_descriptor fuel s path = do
  r ← ob_lookup_object fuel s path
  if r.0 == status_success
      then (do
        o ← s.object r.1
        if o.type == nt_ob_timer
            then (do t ← timer_at o.data_ptr; some (status_success, t))
            else some (status_bad_obj_type, 0))
      else some (status_object_notfound, 0)

-- A routine that takes a number; a driver without it does not support the call.
unfoldable pub call_with {ℓ} : {D : Type ℓ} → Option (D → ℕ → D) → D → (n : ℕ) → ℕ × D
call_with none d n = (status_not_supported, d)
call_with (some f) d n = (status_success, f d n)

-- The operations on a timer that is not null.
unfoldable pub ke_timer_set_count {ℓ} : {D : Type ℓ} → Ktimer D → D → (count : ℕ) → ℕ × D
unfolding call_with
ke_timer_set_count timer d count = call_with timer.set_count d count

unfoldable pub ke_timer_msleep {ℓ} : {D : Type ℓ} → Ktimer D → D → (n : ℕ) → ℕ × D
unfolding call_with
ke_timer_msleep timer d n = call_with timer.msleep d n

unfoldable pub ke_timer_oneshot_usec {ℓ} : {D : Type ℓ} → Ktimer D → D → (n : ℕ) → ℕ × D
unfolding call_with
ke_timer_oneshot_usec timer d n = call_with timer.oneshot_usec d n

counted {ℓ} : {D : Type ℓ} → Option (D → ℕ × D) → D → ℕ × Option ℕ × D
counted none d = (status_not_supported, none, d)
counted (some f) d = let r = f d in (status_success, some r.0, r.1)

unfoldable pub ke_timer_get_count {ℓ} : {D : Type ℓ} → Ktimer D → D → ℕ × Option ℕ × D
unfolding counted
ke_timer_get_count timer d = counted timer.get_count d

abbrev pub clkdev_name : List ℕ
clkdev_name = b'c' ∷ b'l' ∷ b'k' ∷ b'd' ∷ b'e' ∷ b'v' ∷ []

-- `timerCreateStore`: the status, the directory's address and the new state. `fresh` and `fresh_dir`
-- are what `exAllocatePool` returns for the object and for its directory.
unfoldable pub timer_create_store : ObStore → (fresh fresh_dir : ℕ) → Option (ℕ × ℕ × ObStore)
timer_create_store s fresh fresh_dir = do
  r ← ob_create_object 1 s fresh (record {
    parent = some (c_str (b'/' ∷ []) []);
    name = some (c_str clkdev_name []);
    type = nt_ob_directory;
  })
  if r.0 == status_success
      then (do
        a ← ob_allocate_dir r.2 fresh_dir r.1
        if a.0 == status_success
            then some (a.0, r.1, a.1)
            else (do f ← ob_free_object a.1 r.1; some (a.0, r.1, f.1)))
      else some (r.0, 0, r.2)

-- `kiTimersInit`: `init_timers` stands for `halInitTimers`, which registers the timers.
unfoldable pub ki_timers_init :
    (is_init : Bool)
    → ObStore
    → (fresh fresh_dir : ℕ) → (init_timers : ObStore → ℕ × ObStore) → Option (ℕ × Bool × ObStore)
unfolding timer_create_store
ki_timers_init is_init s fresh fresh_dir init_timers =
    if is_init then some (status_success, true, s) else (do
      r ← timer_create_store s fresh fresh_dir
      if r.0 == status_success
          then (let t = init_timers r.2 in
              if t.0 == status_success then some (status_success, true, t.1) else none)
          else none)
