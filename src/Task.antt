-- ===== src/Task.antt =====
-- The cooperative scheduler, fs/task.c: a table of 16 tasks, which slot runs, and the circular list
-- of the live ones. A pointer to a task is its slot, and `none` for NULL; the debug output to the
-- serial port is left out.
pub mod Table
pub mod Init
pub mod Pick
pub mod Yield
pub mod Slot
pub mod Spawn
pub mod Exit
mod Tests
use artyom_x.Base.{
  ℕ, zero, suc, ◌+◌, ◌-◌, ◌*◌, ◌%◌, ◌^◌, ◌&&◌, Bool, true, false, not, Option, none, some, List, [],
  ◌∷◌, ltb, leb, ◌==◌, if◌then◌else◌, get_or, set, take, replicate,
}
use artyom_x.Kheap.{Heap, kmalloc, kfree}

abbrev pub max_tasks : ℕ
max_tasks = 16

abbrev pub stack_size : ℕ
stack_size = 16384

abbrev pub root_pid : ℕ
root_pid = 1

pub data TaskState : Type 0 where
  terminated ready running blocked : TaskState

-- The saved registers that `task_spawn` sets; it clears the others.
pub record Registers : Type 0 where
  pub rdi : ℕ
  pub rip : ℕ
  pub rsp : ℕ
  pub rflags : ℕ
  pub cr3 : ℕ

pub record Task : Type 0 where
  pub regs : Registers
  pub state : TaskState
  pub pid : ℕ
  pub stack : ℕ
  pub next : Option ℕ
  pub prev : Option ℕ
  pub name : List ℕ

-- `next_pid` is an int, here its 32-bit word.
pub record Sched : Type 0 where
  pub tasks : List Task
  pub running_task : Option ℕ
  pub list_head : Option ℕ
  pub task_count : ℕ
  pub next_pid : ℕ
  pub heap : Heap

abbrev pub no_regs : Registers
no_regs = record { rdi = 0; rip = 0; rsp = 0; rflags = 0; cr3 = 0 }

abbrev pub no_task : Task
no_task = record {
  regs = no_regs;
  state = terminated;
  pid = 0;
  stack = 0;
  next = none;
  prev = none;
  name = [];
}

-- `tasks[i]`.
abbrev pub task_at : List Task → ℕ → Task
task_at ts i = get_or ts i no_task

abbrev pub is_ready : TaskState → Bool
is_ready ready = true
is_ready _ = false

abbrev pub is_live : TaskState → Bool
is_live terminated = false
is_live _ = true

-- Writes of one field through a task pointer; a write through NULL is not made.
abbrev pub set_next : Option ℕ → Option ℕ → List Task → List Task
set_next none v ts = ts
set_next (some i) v ts = set ts i (record (task_at ts i) { next = v })

abbrev pub set_prev : Option ℕ → Option ℕ → List Task → List Task
set_prev none v ts = ts
set_prev (some i) v ts = set ts i (record (task_at ts i) { prev = v })

abbrev pub set_state : ℕ → TaskState → List Task → List Task
set_state i v ts = set ts i (record (task_at ts i) { state = v })

-- A task with no stack.
abbrev pub drop_stack : ℕ → List Task → List Task
drop_stack self ts = set ts self (record (task_at ts self) { stack = 0 })

pub insert_after : ℕ → ℕ → List Task → List Task
insert_after head t ts =
    let last = (task_at ts head).prev in
    set_prev (some head) (some t)
      (set_next (some t) (some head) (set_prev (some t) last (set_next last (some t) ts)))

pub link_at : Option ℕ → ℕ → Sched → Sched
link_at none t s = record s {
  list_head = some t;
  tasks = set_prev (some t) (some t) (set_next (some t) (some t) s.tasks);
}
link_at (some head) t s = record s { tasks = insert_after head t s.tasks }

pub task_list_insert : ℕ → Sched → Sched
task_list_insert t s = link_at s.list_head t s

abbrev pub is_slot : Option ℕ → ℕ → Bool
is_slot none i = false
is_slot (some j) i = i == j

pub unlink : ℕ → Sched → Sched
unlink t s =
    let before = (task_at s.tasks t).prev in
    let after = (task_at s.tasks t).next in
    record s {
      tasks = set_prev after before (set_next before after s.tasks);
      list_head = if is_slot s.list_head t then after else s.list_head;
    }

pub task_list_remove : ℕ → Sched → Sched
task_list_remove t s =
    if is_slot (task_at s.tasks t).next t then record s { list_head = none } else unlink t s

-- `copy_name`: at most `size - 1` characters, up to the first 0, the final 0 left off.
pub copy_name : List ℕ → ℕ → List ℕ
copy_name src zero = []
copy_name [] size = []
copy_name (c ∷ src) (suc size) =
    if (size == 0) then [] else if c == 0 then [] else c ∷ copy_name src size

-- The name "kernel".
abbrev pub kernel_name : List ℕ
kernel_name = 107 ∷ 101 ∷ 114 ∷ 110 ∷ 101 ∷ 108 ∷ []

-- `initTasking`, called once at boot, where the registers of the static table are 0.
pub init_tasking : Sched → Sched
init_tasking s =
    let root = record no_task { state = running; pid = 1; name = copy_name kernel_name 32 } in
    let table = root ∷ replicate 15 no_task in
    let listed = task_list_insert 0 (record {
      tasks = table;
      running_task = none;
      list_head = none;
      task_count = 0;
      next_pid = 2;
      heap = s.heap;
    }) in
    record listed { running_task = some 0; task_count = 1 }

-- The first free slot from `i` on, of `n`.
pub find_slot : List Task → ℕ → ℕ → Option ℕ
find_slot ts zero i = none
find_slot ts (suc n) i =
    let rest = find_slot ts n (i + 1) in if is_live (task_at ts i).state then rest else some i

-- A new task in `slot` with its stack at `stack`, whose top word is the address of `task_exit`.
pub new_task : ℕ → ℕ → ℕ → List ℕ → ℕ → ℕ → Task → Task
new_task entry arg cr3 name stack pid old = record old {
  regs = record { rdi = arg; rip = entry; rsp = stack + stack_size - 8; rflags = 0x202; cr3 = cr3 };
  state = ready;
  pid = pid;
  stack = stack;
  name = copy_name name 32;
}

pub start_task : ℕ → ℕ → ℕ → List ℕ → ℕ → ℕ → Sched → Sched
start_task entry arg cr3 name slot stack s =
    let t = new_task entry arg cr3 name stack s.next_pid (task_at s.tasks slot) in
    let listed =
      task_list_insert slot
        (record s { tasks = set s.tasks slot t; next_pid = (s.next_pid + 1) % 2 ^ 32 }) in
    record listed { task_count = listed.task_count + 1 }

-- With the free slot and what `kmalloc` answers.
pub spawn_with : ℕ → ℕ → ℕ → List ℕ → ℕ → ℕ × Heap → Sched → Option ℕ × Sched
spawn_with entry arg cr3 name slot (stack, h) s =
    if stack == 0
    then (none, record s { tasks = drop_stack slot s.tasks; heap = h })
    else (some s.next_pid, start_task entry arg cr3 name slot stack (record s { heap = h }))

pub spawn_in : ℕ → ℕ → ℕ → ℕ → List ℕ → Option ℕ → Sched → Option ℕ × Sched
spawn_in hhdm cr3 entry arg name none s = (none, s)
spawn_in hhdm cr3 entry arg name (some slot) s =
    spawn_with entry arg cr3 name slot (kmalloc hhdm stack_size s.heap) s

-- `task_spawn`: the new pid, `none` for -1. `cr3` is the register's value.
pub task_spawn : ℕ → ℕ → ℕ → ℕ → List ℕ → Sched → Option ℕ × Sched
task_spawn hhdm cr3 entry arg name s =
    if entry == 0
    then (none, s)
    else if leb max_tasks s.task_count
    then (none, s)
    else spawn_in hhdm cr3 entry arg name (find_slot s.tasks max_tasks 0) s

-- The slots after `start`, round the table: `n` of them from offset `off` on.
pub pick_from : List Task → ℕ → ℕ → ℕ → Option ℕ
pick_from ts start zero off = none
pick_from ts start (suc n) off =
    let t = (start + off) % max_tasks in
    let rest = pick_from ts start n (off + 1) in
    if is_ready (task_at ts t).state then some t else rest

pub pick_next_ready : Sched → Option ℕ
pick_next_ready s = elim s.running_task [
  | none ↦ none
  | some start ↦ if leb s.task_count 1 then none else pick_from s.tasks start max_tasks 1
]

pub alive_from : List Task → ℕ → Bool
alive_from [] pid = false
alive_from (t ∷ ts) pid = if (t.pid == pid) && is_live t.state then true else alive_from ts pid

pub task_is_alive : ℕ → Sched → Bool
task_is_alive pid s = alive_from s.tasks pid

-- The running task `old` gives way to `next`. `switchTask` is what runs then.
pub switch_to : ℕ → Option ℕ → ℕ → Sched → Sched
switch_to cr3 none next s = record s {
  tasks = set_state next running s.tasks;
  running_task = some next;
}
switch_to cr3 (some old) next s =
    let o = task_at s.tasks old in
    let saved =
      set s.tasks old (record o { state = ready; regs = record (o.regs) { cr3 = cr3 } }) in
    record s { tasks = set_state next running saved; running_task = some next }

pub yield_to : ℕ → Option ℕ → Sched → Sched
yield_to cr3 none s = s
yield_to cr3 (some next) s = switch_to cr3 s.running_task next s

pub yield_task : ℕ → Sched → Sched
yield_task cr3 s = yield_to cr3 (pick_next_ready s) s

-- What becomes of a call of `task_exit`: it returns where no task runs, the machine halts where the
-- root task exits, `kfree` goes wrong, or another task runs.
pub data ExitResult : Type 0 where
  returned halted bad_free : ExitResult
  switched : Sched → ExitResult

abbrev pub or_root : Option ℕ → ℕ
or_root none = 0
or_root (some next) = next

-- From `pick_next_ready` on.
pub leave : ℕ → Sched → Sched
leave self s =
    let next = or_root (pick_next_ready s) in
    let rest = task_list_remove self s in
    record rest {
      task_count = rest.task_count - 1;
      tasks = set_state next running rest.tasks;
      running_task = some next;
    }

-- The stack given back, `none` where `kfree` goes wrong.
pub exit_with : ℕ → Option Heap → Sched → ExitResult
exit_with self none dead = bad_free
exit_with self (some h) dead =
    switched (leave self (record dead { tasks = drop_stack self dead.tasks; heap = h }))

pub exit_self : ℕ → Sched → ExitResult
exit_self self s =
    let t = task_at s.tasks self in
    let dead = record s { tasks = set_state self terminated s.tasks } in
    if t.pid == root_pid
    then halted
    else if t.stack == 0
    then switched (leave self dead)
    else exit_with self (kfree t.stack s.heap) dead

pub exit_of : Option ℕ → Sched → ExitResult
exit_of none s = returned
exit_of (some self) s = exit_self self s

pub task_exit : Sched → ExitResult
task_exit s = exit_of s.running_task s
