-- ===== src/Ke/Parb.antt =====
-- Processor arbitration: ntos/ke/parb.c and kpcr.c over `halCpuGet` and `halCpuCount` of
-- ntos/platform/amd64/cpu/mp.c. A processor is the address of its control region; `none` is a read
-- outside `apList`.
use algae.Base.{
  ℕ, zero, suc, ◌+◌, ◌-◌, ◌^◌, ◌<◌, ◌≤◌, ◌≡◌, refl, ap, sym, ◌∙◌, true, false, Option, some, List,
  [], ◌∷◌, ◌++◌, arith, leb, ◌==◌, if◌then◌else◌, ◌>>=◌, length, get_elem?, take, u16, u64,
  append_assoc, length-append,
}
use algae.Status.{status_success}

-- `KPARB_METHOD`
pub data ParbMethod : Type 0 where
  kparb_round_robin : ParbMethod

-- `KPARB`
pub record Parb : Type 0 where
  pub method : ParbMethod
  pub semaphore : ℕ

-- `bspKpcr`, `apList` and `nAp`
pub record Cpus : Type 0 where
  pub bsp_kpcr : ℕ
  pub ap_list : List ℕ
  pub n_ap : ℕ

unfoldable pub hal_cpu_count : Cpus → ℕ
hal_cpu_count c = u64 (c.n_ap + 1)

-- `cpuIdx` is an unsigned short.
unfoldable pub hal_cpu_get : Cpus → (cpu_idx : ℕ) → Option ℕ
hal_cpu_get c cpu_idx =
    if u16 cpu_idx == 0 then some c.bsp_kpcr else get_elem? c.ap_list (u16 cpu_idx - 1)

-- `keParbReset` of a result that is not null.
unfoldable pub ke_parb_reset : (mode : ParbMethod) → ℕ × Parb
ke_parb_reset mode = (status_success, record { method = mode; semaphore = 0 })

unfoldable pub ke_parb_cycle : Cpus → Parb → Option (ℕ × Parb)
ke_parb_cycle c arbiter = do
  retval ← hal_cpu_get c arbiter.semaphore
  let semaphore = u16 (arbiter.semaphore + 1)
  some (
    retval,
    record arbiter { semaphore = if leb (hal_cpu_count c) semaphore then 0 else semaphore },
  )

-- One `keParbCycle` after another, and the processors that they return.
unfoldable pub cycles : (n : ℕ) → Cpus → Parb → Option (List ℕ × Parb)
cycles zero c arbiter = some ([], arbiter)
cycles (suc n) c arbiter = do
  r ← ke_parb_cycle c arbiter
  rs ← cycles n c r.1
  some (r.0 ∷ rs.0, rs.1)

-- The processors in the order of their indices.
abbrev pub all_cpus : Cpus → List ℕ
all_cpus c = c.bsp_kpcr ∷ take c.n_ap c.ap_list

-- The processors that started are in the list, and their number fits the index.
pub record IsStarted (c : Cpus) : Type 0 where
  pub listed : c.n_ap ≤ length c.ap_list
  pub fits : c.n_ap + 1 < 2 ^ 16

get_elem?-take : (xs : List ℕ) (n i : ℕ) → i < n → get_elem? (take n xs) i ≡ get_elem? xs i
get_elem?-take [] zero i h = refl
get_elem?-take [] (suc n) i h = refl
get_elem?-take (x ∷ xs) zero i h = absurd (omega (arith, h))
get_elem?-take (x ∷ xs) (suc n) zero h = refl
get_elem?-take (x ∷ xs) (suc n) (suc i) h = get_elem?-take xs n i (omega (arith, h))

u16_small : (n : ℕ) → n < 2 ^ 16 → u16 n ≡ n
u16_small n h = omega (arith, h)

u64_small : (n : ℕ) → n < 2 ^ 16 → u64 n ≡ n
u64_small n h = omega (arith, h)

ne_zero : (i : ℕ) → (suc i == 0) ≡ false
ne_zero i = ground arith

pred_suc : (i : ℕ) → suc i - 1 ≡ i
pred_suc i = omega arith

at_middle :
    (before after : List ℕ) (x : ℕ) → get_elem? (before ++ x ∷ after) (length before) ≡ some x
at_middle [] after x = refl
at_middle (b ∷ before) after x = at_middle before after x

after_append : (before : List ℕ) (x : ℕ) → length before + 1 ≡ length (before ++ x ∷ [])
after_append before x = sym (length-append before (x ∷ []))

length_moved :
    (before : List ℕ) (x n k : ℕ) → length before + suc n ≡ k → length (before ++ x ∷ []) + n ≡ k
length_moved before x n k e = omega (arith, e, after_append before x)

length-take : (xs : List ℕ) (n : ℕ) → n ≤ length xs → length (take n xs) ≡ n
length-take [] zero h = refl
length-take [] (suc n) h = absurd (omega (arith, h))
length-take (x ∷ xs) zero h = refl
length-take (x ∷ xs) (suc n) h = ap suc (length-take xs n (omega (arith, h)))

count_suc : (n k : ℕ) → k ≡ n → n + 1 ≡ suc k
count_suc n k e = omega (arith, e)

wraps : (n sem : ℕ) → sem ≡ n → leb (n + 1) (sem + 1) ≡ true
wraps n sem e = ground (arith, e)

goes_on : (n sem : ℕ) → sem < n → leb (n + 1) (sem + 1) ≡ false
goes_on n sem h = ground (arith, h)

module _ (c : Cpus) (started : IsStarted c) where
  hal_cpu_get-all_cpus : (i : ℕ) → i < c.n_ap + 1 → hal_cpu_get c i ≡ get_elem? (all_cpus c) i
  unfolding hal_cpu_get
  hal_cpu_get-all_cpus zero h = refl
  hal_cpu_get-all_cpus (suc i) h =
      rw (u16_small (suc i) (omega (arith, h, started.fits))) rw (ne_zero i) rw (pred_suc i)
        (sym (get_elem?-take c.ap_list c.n_ap i (omega (arith, h))))

  hal_cpu_count_lem : hal_cpu_count c ≡ c.n_ap + 1
  unfolding hal_cpu_count
  hal_cpu_count_lem = u64_small (c.n_ap + 1) started.fits

  cycle_step :
      (sem x : ℕ) (method : ParbMethod)
      → sem < c.n_ap + 1
      → get_elem? (all_cpus c) sem ≡ some x
      → ke_parb_cycle c (record { method = method; semaphore = sem })
        ≡ some (
          x,
          record { method = method; semaphore = if leb (c.n_ap + 1) (sem + 1) then 0 else sem + 1 },
        )
  unfolding ke_parb_cycle
  cycle_step sem x method h e =
      rw (hal_cpu_get-all_cpus sem h) rw e rw hal_cpu_count_lem rw
        (u16_small (sem + 1) (omega (arith, h, started.fits))) refl

  cycles_suffix :
      (before after : List ℕ) (x : ℕ) (method : ParbMethod)
      → all_cpus c ≡ before ++ x ∷ after
      → length before + length after ≡ c.n_ap
      → cycles (suc (length after)) c (record { method = method; semaphore = length before })
        ≡ some (x ∷ after, record { method = method; semaphore = 0 })
  unfolding cycles
  cycles_suffix before [] x method e l =
      rw
        (cycle_step (length before) x method (omega (arith, l))
          (ap (λ xs. get_elem? xs (length before)) e ∙ at_middle before [] x))
        rw (wraps c.n_ap (length before) (omega (arith, l))) refl
  cycles_suffix before (y ∷ after) x method e l =
      rw
        (cycle_step (length before) x method (omega (arith, l))
          (ap (λ xs. get_elem? xs (length before)) e ∙ at_middle before (y ∷ after) x))
        rw (goes_on c.n_ap (length before) (omega (arith, l))) rw (after_append before x) rw
        (cycles_suffix (before ++ x ∷ []) after y method
          (e ∙ sym (append_assoc before (x ∷ []) (y ∷ after)))
          (length_moved before x (length after) c.n_ap l))
        refl

  -- From `keParbReset` on, as many calls of `keParbCycle` as there are processors return each
  -- processor once, in the order of their indices, and leave the arbiter as `keParbReset` did. The
  -- processors that started are in `apList` and are fewer than 2 ^ 16 - 1.
  pub ke_parb_cycle_round :
      (mode : ParbMethod)
      → cycles (hal_cpu_count c) c (ke_parb_reset mode).1
        ≡ some (all_cpus c, (ke_parb_reset mode).1)
  unfolding ke_parb_reset
  ke_parb_cycle_round mode =
      let e = length-take c.ap_list c.n_ap started.listed in
      rw hal_cpu_count_lem rw (count_suc c.n_ap (length (take c.n_ap c.ap_list)) e)
        (cycles_suffix [] (take c.n_ap c.ap_list) c.bsp_kpcr mode refl (omega (arith, e)))
