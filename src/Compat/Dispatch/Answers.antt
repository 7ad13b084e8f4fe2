-- ===== src/Compat/Dispatch/Answers.antt =====
-- What the handlers of kernel/compat.c do to the heap, whatever a program asks for.
use artyom_x.Base.{ℕ, ◌≤◌, ◌≡◌, ◌⊎◌, none, some}
use artyom_x.Kheap.{kmalloc, kfree}
use artyom_x.Kheap.Sound.{IsSound}
use artyom_x.Syscalls.{File, u32}
use artyom_x.Compat.{Kernel}
use artyom_x.Compat.Input.{sys_read_compat}
use artyom_x.Compat.Dispatch.{Env, Regs, Answer, sets, exits, waits, breaks}

pub data System : Type 0 where
  linux darwin : System

-- The numbers that the two systems give the calls which may not answer.
abbrev pub IsRead : System → ℕ → Type 0
IsRead linux n = n ≡ 0
IsRead darwin n = n ≡ 3

abbrev pub IsOpen : System → ℕ → Type 0
IsOpen linux n = n ≡ 2
IsOpen darwin n = n ≡ 5

abbrev pub IsClose : System → ℕ → Type 0
IsClose linux n = n ≡ 3
IsClose darwin n = n ≡ 6

-- The handler of Darwin has no munmap.
abbrev pub IsMunmap : System → ℕ → Type 0
IsMunmap linux n = n ≡ 11
IsMunmap darwin n = ⊥

abbrev pub IsExit : System → ℕ → Type 0
IsExit linux n = (n ≡ 60) ⊎ (n ≡ 231)
IsExit darwin n = n ≡ 1

-- Call `n` ends with a sound heap; or it is a read, and no burst of keys has ended the line; or it is an
-- open that needs a descriptor or memory that is not there; or it is a close or an munmap that frees what
-- is no block of the heap.
pub data Sound (os : System) (n : ℕ) (e : Env) (r : Regs) (k : Kernel) : Answer → Type 0 where
  answered : {x : ℕ} {k' : Kernel} → IsSound e.hhdm k'.sys.heap → Sound os n e r k (sets x k')
  ended : {k' : Kernel} → IsExit os n → IsSound e.hhdm k'.sys.heap → Sound os n e r k (exits k')
  no_line :
      IsRead os n
      → sys_read_compat e.bursts (u32 r.rdi) r.rsi (u32 r.rdx) k ≡ none
      → Sound os n e r k waits
  no_room :
      IsOpen os n
      → (16384 ≤ k.sys.current_fd) ⊎ ((kmalloc e.hhdm 16 k.sys.heap).0 ≡ 0)
      → Sound os n e r k breaks
  bad_file :
      (f : File)
      → IsClose os n
      → k.sys.files (u32 r.rdi) ≡ some f
      → kfree f.address k.sys.heap ≡ none
      → Sound os n e r k breaks
  bad_block : IsMunmap os n → kfree r.rdi k.sys.heap ≡ none → Sound os n e r k breaks
