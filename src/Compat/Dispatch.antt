-- ===== src/Compat/Dispatch.antt =====
-- The system calls of other systems, kernel/compat.c: which call a number stands for, and its answer in
-- `rax`. Registers are 64-bit words.
pub mod Answers
use artyom_x.Base.{
  ℕ, ◌-◌, ◌/◌, ◌%◌, ◌^◌, ◌||◌, Bool, Option, none, some, List, [], ◌∷◌, ◌==◌, if◌then◌else◌,
}
use artyom_x.Libc.{ℤ, pos, negsuc}
use artyom_x.Monitor.{monitor_write, monitor_write_dec, monitor_write_hex}
use artyom_x.Vfs.{Vfs}
use artyom_x.Syscalls.{Sys, Result, fault, returns, u32}
use artyom_x.Compat.{
  Kernel, sys_write_compat, sys_open_compat, sys_close_compat, sys_brk_compat, sys_mmap_compat,
  sys_munmap_compat,
}
use artyom_x.Compat.Input.{sys_read_compat}

-- What the calls use and do not change: the nodes, the root, the string at `rdi`, and the keys that
-- will arrive.
pub record Env : Type 0 where
  pub vfs : Vfs
  pub fs_root : ℕ
  pub hhdm : ℕ
  pub path : List ℕ
  pub bursts : List (List (ℕ × ℕ))

pub record Regs : Type 0 where
  pub rax : ℕ
  pub rdi : ℕ
  pub rsi : ℕ
  pub rdx : ℕ

-- A call sets `rax`, or yields for ever, or still waits for a key, or it has gone past a table or
-- through a pointer that is none.
pub data Answer : Type 0 where
  sets : ℕ → Kernel → Answer
  exits : Kernel → Answer
  waits breaks : Answer

-- `(u64int)` of an int.
abbrev pub as_u64 : ℤ → ℕ
as_u64 (pos n) = n
as_u64 (negsuc n) = 2 ^ 64 - 1 - n

pub answer_open : Kernel → Result → Answer
answer_open k fault = breaks
answer_open k (returns z s) = sets (as_u64 z) (record k { sys = s })

pub answer_free : Kernel → Option (ℤ × Sys) → Answer
answer_free k none = breaks
answer_free k (some (z, s)) = sets (as_u64 z) (record k { sys = s })

pub answer_read : Option (ℤ × Kernel) → Answer
answer_read none = waits
answer_read (some (z, k)) = sets (as_u64 z) k

pub call_read : Env → Regs → Kernel → Answer
call_read e r k = answer_read (sys_read_compat e.bursts (u32 r.rdi) r.rsi (u32 r.rdx) k)

pub call_write : Env → Regs → Kernel → Answer
call_write e r k =
    let (z, k') = sys_write_compat (u32 r.rdi) r.rsi (u32 r.rdx) k in sets (as_u64 z) k'

pub call_open : Env → Regs → Kernel → Answer
call_open e r k = answer_open k (sys_open_compat e.vfs e.fs_root e.hhdm e.path (u32 r.rsi) k.sys)

pub call_close : Env → Regs → Kernel → Answer
call_close e r k = answer_free k (sys_close_compat (u32 r.rdi) k.sys)

pub call_brk : Env → Regs → Kernel → Answer
call_brk e r k = let k' = sys_brk_compat e.hhdm r.rdi k in sets k'.cur_brk k'

pub call_mmap : Env → Regs → Kernel → Answer
call_mmap e r k = let (p, s) = sys_mmap_compat e.hhdm r.rsi k.sys in sets p (record k { sys = s })

pub call_munmap : Env → Regs → Kernel → Answer
call_munmap e r k = answer_free k (sys_munmap_compat r.rdi k.sys)

-- `monitor_write(text); monitor_write_dec(n); monitor_write("\n");`, and the same in hexadecimal.
pub report_dec : List ℕ → ℕ → Kernel → Kernel
report_dec text n k = record k {
  console = monitor_write (10 ∷ []) (monitor_write_dec (u32 n) (monitor_write text k.console));
}

pub report_hex : List ℕ → ℕ → Kernel → Kernel
report_hex text n k = record k {
  console = monitor_write (10 ∷ []) (monitor_write_hex (u32 n) (monitor_write text k.console));
}

abbrev pub linux_exited : List ℕ
linux_exited =
    10 ∷ b'[' ∷ b'L' ∷ b'i' ∷ b'n' ∷ b'u' ∷ b'x' ∷ b']' ∷ 32 ∷ b'p' ∷ b'r' ∷ b'o' ∷ b'c' ∷ b'e'
    ∷ b's' ∷ b's' ∷ 32 ∷ b'e' ∷ b'x' ∷ b'i' ∷ b't' ∷ b'e' ∷ b'd' ∷ b':' ∷ 32 ∷ []

abbrev pub linux_exit_group : List ℕ
linux_exit_group =
    10 ∷ b'[' ∷ b'L' ∷ b'i' ∷ b'n' ∷ b'u' ∷ b'x' ∷ b']' ∷ 32 ∷ b'e' ∷ b'x' ∷ b'i' ∷ b't' ∷ b'_'
    ∷ b'g' ∷ b'r' ∷ b'o' ∷ b'u' ∷ b'p' ∷ b':' ∷ 32 ∷ []

abbrev pub linux_unhandled : List ℕ
linux_unhandled =
    10 ∷ b'[' ∷ b'L' ∷ b'i' ∷ b'n' ∷ b'u' ∷ b'x' ∷ b']' ∷ 32 ∷ b'u' ∷ b'n' ∷ b'h' ∷ b'a' ∷ b'n'
    ∷ b'd' ∷ b'l' ∷ b'e' ∷ b'd' ∷ 32 ∷ b's' ∷ b'y' ∷ b's' ∷ b'c' ∷ b'a' ∷ b'l' ∷ b'l' ∷ b':' ∷ 32
    ∷ []

abbrev pub darwin_exit : List ℕ
darwin_exit =
    10 ∷ b'[' ∷ b'D' ∷ b'a' ∷ b'r' ∷ b'w' ∷ b'i' ∷ b'n' ∷ b']' ∷ 32 ∷ b'e' ∷ b'x' ∷ b'i' ∷ b't'
    ∷ b':' ∷ 32 ∷ []

abbrev pub darwin_unhandled : List ℕ
darwin_unhandled =
    10 ∷ b'[' ∷ b'D' ∷ b'a' ∷ b'r' ∷ b'w' ∷ b'i' ∷ b'n' ∷ b']' ∷ 32 ∷ b'u' ∷ b'n' ∷ b'h' ∷ b'a'
    ∷ b'n' ∷ b'd' ∷ b'l' ∷ b'e' ∷ b'd' ∷ 32 ∷ b's' ∷ b'y' ∷ b's' ∷ b'c' ∷ b'a' ∷ b'l' ∷ b'l' ∷ b':'
    ∷ 32 ∷ b'0' ∷ b'x' ∷ []

abbrev pub darwin_subsystem : List ℕ
darwin_subsystem =
    10 ∷ b'[' ∷ b'D' ∷ b'a' ∷ b'r' ∷ b'w' ∷ b'i' ∷ b'n' ∷ b']' ∷ 32 ∷ b'u' ∷ b'n' ∷ b'h' ∷ b'a'
    ∷ b'n' ∷ b'd' ∷ b'l' ∷ b'e' ∷ b'd' ∷ 32 ∷ b's' ∷ b'u' ∷ b'b' ∷ b's' ∷ b'y' ∷ b's' ∷ b't' ∷ b'e'
    ∷ b'm' ∷ b':' ∷ 32 ∷ b'0' ∷ b'x' ∷ []

-- The numbers that are answered with 0.
abbrev pub is_ignored : ℕ → Bool
is_ignored n =
    (n == 39)
    || ((n == 158)
        || ((n == 218)
            || ((n == 17)
                || ((n == 35)
                    || ((n == 78)
                        || ((n == 79)
                            || ((n == 80)
                                || ((n == 81) || ((n == 82) || ((n == 102) || (n == 202)))))))))))

pub linux_syscall_handler : Env → Regs → Kernel → Answer
linux_syscall_handler e r k =
    let n = r.rax in
    if n == 0
    then call_read e r k
    else if n == 1
    then call_write e r k
    else if n == 2
    then call_open e r k
    else if n == 3
    then call_close e r k
    else if n == 9
    then call_mmap e r k
    else if n == 11
    then call_munmap e r k
    else if n == 12
    then call_brk e r k
    else if n == 60
    then exits (report_dec linux_exited r.rdi k)
    else if n == 231
    then exits (report_dec linux_exit_group r.rdi k)
    else if is_ignored n
    then sets 0 k
    else sets (2 ^ 64 - 38) (report_dec linux_unhandled n k)

-- The inner `switch`, over the low 24 bits of `rax`.
pub darwin_call : ℕ → Env → Regs → Kernel → Answer
darwin_call sc e r k =
    if sc == 1
    then exits (report_dec darwin_exit r.rdi k)
    else if sc == 4
    then call_write e r k
    else if sc == 3
    then call_read e r k
    else if sc == 5
    then call_open e r k
    else if sc == 6
    then call_close e r k
    else if (sc == 0x20) || (sc == 0x36)
    then sets 0 k
    else if sc == 0x49
    then call_brk e r k
    else if sc == 0xc5
    then call_mmap e r k
    else sets (2 ^ 64 - 90) (report_hex darwin_unhandled sc k)

pub darwin_syscall_handler : Env → Regs → Kernel → Answer
darwin_syscall_handler e r k =
    let subsystem = r.rax / 2 ^ 24 % 256 in
    let sc = r.rax % 2 ^ 24 in
    if (subsystem == 0) || (subsystem == 2)
    then darwin_call sc e r k
    else sets (2 ^ 64 - 90) (report_hex darwin_subsystem subsystem k)
