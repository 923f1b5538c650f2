-- ===== src/Cpu/Trap.antt =====
-- Traps and system calls: ntos/platform/amd64/cpu/trap.c, over the table of ntos/ke/syscall.c.
use algae.Base.{ℕ, Option, none, some, List, [], ◌∷◌, get_elem?, length, leb, if◌then◌else◌, ◌>>=◌}
use algae.Ke.Sched.{TrapFrame}

-- `SYSCALL_ARGS`
pub record SyscallArgs : Type 0 where
  pub code : ℕ
  pub arg : List ℕ

-- A table of system calls; each changes a state `S`, and an entry that is null is `none`.
abbrev pub SyscallTable : Type 0 → Type 0
SyscallTable S = List (Option (SyscallArgs → S → ℕ × S))

-- `g_syscallTable`
abbrev pub g_syscall_table : {S : Type 0} → SyscallTable S
g_syscall_table = none ∷ []

abbrev pub syscall_args : TrapFrame → SyscallArgs
syscall_args tf = record {
  code = tf.rax;
  arg = tf.rdi ∷ tf.rsi ∷ tf.rdx ∷ tf.r10 ∷ tf.r9 ∷ tf.r8 ∷ [];
}

-- `trap_syscall`; `none` is a call of a null pointer.
unfoldable pub trap_syscall : {S : Type 0} → SyscallTable S → TrapFrame → S → Option (TrapFrame × S)
trap_syscall table tf s =
    let args = syscall_args tf in
    if leb (length table) args.code then some (tf, s) else (do
      entry ← get_elem? table args.code
      call ← entry
      let r = call args s
      some (record tf { rax = r.0 }, r.1))
