-- ===== src/Compat/Output.antt =====
-- `sys_write_compat` of kernel/compat.c: what it puts on the screen.
use artyom_x.Base.{
  ℕ, zero, suc, ◌+◌, ◌≡◌, inl, inr, refl, List, [], ◌∷◌, ◌==◌, ◌||◌, if◌then◌else◌, Bool-cases,
  length,
}
use artyom_x.Libc.{Memory, pos, negsuc}
use artyom_x.Monitor.{Console, monitor_put, monitor_write}
use artyom_x.Syscalls.{is_minus}
use artyom_x.Compat.{Kernel, put_bytes, sys_write_compat}

-- The bytes at `buf` up to a 0, at most `n` of them.
unfoldable pub text_at : ℕ → ℕ → Memory → List ℕ
text_at zero buf mem = []
text_at (suc n) buf mem =
    let rest = text_at n (buf + 1) mem in if mem buf == 0 then [] else mem buf ∷ rest

put_bytes_prints :
    (n buf : ℕ) (mem : Memory) (c : Console)
    → put_bytes n buf mem c ≡ (length (text_at n buf mem), monitor_write (text_at n buf mem) c)
unfolding put_bytes text_at monitor_write
put_bytes_prints zero buf mem c = refl
put_bytes_prints (suc n) buf mem c = elim (Bool-cases (mem buf == 0)) [
  | inl stop ↦ rw stop refl
  | inr go ↦ rw (go, put_bytes_prints n (buf + 1) mem (monitor_put (mem buf) c)) (rw go refl)
]

-- `sys_write_compat` prints to descriptors 1 and 2 what `monitor_write` prints of the bytes up to a 0
-- or the length, and answers how many they are; to any other it answers -1 and prints nothing.
pub sys_write_compat_prints :
    (fd buf len : ℕ) (k : Kernel)
    → let text = text_at (if is_minus len then 0 else len) buf k.sys.memory in
      sys_write_compat fd buf len k ≡ (
        if (fd == 1) || (fd == 2)
        then (pos (length text), record k { console = monitor_write text k.console })
        else (negsuc 0, k))
unfolding sys_write_compat
sys_write_compat_prints fd buf len k =
    rw (put_bytes_prints (if is_minus len then 0 else len) buf k.sys.memory k.console) refl
