-- ===== src/Compat/Tests.antt =====
-- Calls of programs of other systems, for kernel/compat.c.
use artyom_x.Base.{ℕ, ◌%◌, ◌≡◌, refl, false, replicate, some, none, List, [], ◌∷◌, arith, get_or}
use artyom_x.Libc.{Memory, pos}
use artyom_x.Kheap.Fixture.{heap, heap-IsHeap, heap-IsGranted, file_block}
use artyom_x.Keyboard.{Keyboard}
use artyom_x.Keyboard.Queue.{interrupt, key, type_key, drop_last}
use artyom_x.Keyboard.Enter.{presses_enter}
use artyom_x.Vfs.{Vfs, finddir_fs, look_up}
use artyom_x.Syscalls.{Sys, returns}
use artyom_x.Compat.{
  Kernel, compat_patch_syscalls, patch_loop, patch_at, sys_open_compat, sys_close_compat,
}
use artyom_x.Compat.Places.{Patched, is_syscall}
use artyom_x.Compat.Patch.{compat_patch_syscalls-Patched}
use artyom_x.Compat.Calls.{OpenedClosed, sys_close_compat-open}
use artyom_x.Compat.Input.{sys_read_compat}
use artyom_x.Compat.Input.Line.Waiting.{
  Takes, line_at_enter, any_enter, typed, sys_read_compat-Takes,
}
use artyom_x.Compat.Dispatch.{Env, Regs}
use artyom_x.Compat.Dispatch.Answers.{Sound}

-- A move, a system call, and the first byte of another one on the end.
abbrev code : Memory
code a = get_or (0xb0 ∷ 0x0F ∷ 0x05 ∷ 0x05 ∷ 0x0F ∷ 0x05 ∷ []) a 0

run_patch : ℕ → Memory
unfolding compat_patch_syscalls patch_loop patch_at
run_patch size = compat_patch_syscalls 0 size 129 code

patch_runs :
    (run_patch 5 1 ≡ 0xCD) × (run_patch 5 2 ≡ 129) × (run_patch 5 3 ≡ 5) × (run_patch 5 4 ≡ 0x0F)
unfolding run_patch
patch_runs = (refl, refl, refl, refl)

compat_patch_syscalls-Patched_example :
    let new = compat_patch_syscalls 0 5 129 code in
    Patched 0 4 129 code new × ((i : ℕ) → is_syscall 0 4 new i ≡ false)
compat_patch_syscalls-Patched_example = compat_patch_syscalls-Patched 0 5 129 code (omega arith)

abbrev vfs : Vfs
vfs = λ a. record {
  flags = 2;
  read = none;
  write = none;
  readdir = none;
  finddir = some (λ name. some 8);
}

abbrev sys : Sys
sys = record { files = λ i. none; current_fd = 2; heap = heap; memory = λ a. a % 256 }

sys_close_compat-open_example :
    (t : Sys) × (u : Sys) × (sys_open_compat vfs 7 0 (97 ∷ []) 0 sys ≡ returns (pos 2) t)
    × (sys_close_compat 2 t ≡ some (pos 0, u))
    × OpenedClosed 0 2 sys t u
unfolding finddir_fs look_up
sys_close_compat-open_example =
    sys_close_compat-open vfs 7 0 (97 ∷ []) 0 8 sys refl (omega arith) heap-IsHeap heap-IsGranted
      refl (omega arith) file_block

abbrev keyboard : Keyboard
keyboard = record {
  buffer = replicate 256 0;
  head = 255;
  tail = 255;
  count = 0;
  is_enter_pressed = 0;
  current_key = 0;
}

abbrev kernel : Kernel
kernel = record {
  sys = sys;
  console = record { vm = λ j. j; cursor_x = 0; cursor_y = 0; hardware = 0 };
  cur_brk = 0;
  keyboard = keyboard;
}

-- "a", "s" and a backspace, then "d", Enter and "f".
abbrev bursts : List (List (ℕ × ℕ))
bursts = ((1, 0x1e) ∷ (1, 0x1f) ∷ (1, 0x0e) ∷ []) ∷ ((1, 0x20) ∷ (1, 0x1c) ∷ (1, 0x21) ∷ []) ∷ []

sys_read_compat-Takes_example :
    Takes 79 1000 sys.memory
      (some (97 ∷ 100 ∷ 10 ∷ 102 ∷ []))
      (sys_read_compat bursts 0 1000 80 kernel)
unfolding line_at_enter any_enter presses_enter typed interrupt key type_key drop_last
sys_read_compat-Takes_example =
    sys_read_compat-Takes bursts 1000 80 kernel (omega arith) (omega arith) refl

abbrev env : Env
env = record { vfs = vfs; fs_root = 7; hhdm = 0; path = 97 ∷ []; bursts = [] }

-- An munmap of the first block of the heap.
abbrev regs : Regs
regs = record { rax = 11; rdi = 0x10030; rsi = 96; rdx = 0 }
