-- ===== src/Task/Spawn.antt =====
-- `task_spawn` of fs/task.c: when it succeeds, and that it keeps the scheduler well formed.
use artyom_x.Base.{
  ℕ, ◌+◌, ◌-◌, ◌^◌, ◌≤◌, ◌<◌, ◌≡◌, ◌≢◌, ◌⊎◌, refl, sym, ap, ◌∙◌, false, Option, none, some, List,
  arith, leb, ◌==◌, length, length-set, Bool-cases, Option-cases, inl, inr,
}
use artyom_x.Kheap.{Heap, kmalloc}
use artyom_x.Task.{
  Task, Sched, task_at, is_live, ready, stack_size, drop_stack, copy_name, find_slot, new_task,
  spawn_with, spawn_in, task_spawn,
}
use artyom_x.Task.Table.{IsSched, unlinked, live_below-live}
use artyom_x.Task.Yield.{same-field}
use artyom_x.Task.Slot.{
  find_slot_sound, find_slot_full, no_slots, started-IsSched, started_at, started_others,
  started_counters,
}

-- The heap is no part of what the scheduler keeps.
pub with_heap-IsSched : {s : Sched} (h : Heap) → IsSched s → IsSched (record s { heap = h })
with_heap-IsSched h v = record {
  slot = v.slot;
  at = v.at;
  storage = v.storage;
  slot_in = v.slot_in;
  is_running = v.is_running;
  only = v.only;
  root_pid = v.root_pid;
  root_live = v.root_live;
  other_pids = v.other_pids;
  fresh_pid = v.fresh_pid;
  small_pid = v.small_pid;
  counted = v.counted;
}

-- Every slot has the state and the pid it had.
pub record SameStates (ts us : List Task) : Type 0 where
  pub storage : length us ≡ length ts
  pub states : (j : ℕ) → (task_at us j).state ≡ (task_at ts j).state
  pub pids : (j : ℕ) → (task_at us j).pid ≡ (task_at ts j).pid

unchanged : {ts : List Task} → SameStates ts ts
unchanged = record { storage = refl; states = λ j. refl; pids = λ j. refl }

-- The slot that gets no stack.
module _ {s : Sched} (v : IsSched s) (slot : ℕ) (l : slot < 16) where
  stackless : SameStates s.tasks (drop_stack slot s.tasks)
  stackless =
      let inside : slot < length s.tasks = omega (arith, v.storage) in
      record {
        storage = length-set s.tasks slot _;
        states = λ j. same-field (λ t. t.state) s.tasks slot j _ inside refl;
        pids = λ j. same-field (λ t. t.pid) s.tasks slot j _ inside refl;
      }

  stackless-IsSched : IsSched (record s { tasks = drop_stack slot s.tasks })
  stackless-IsSched =
      let w = stackless in
      record {
        slot = v.slot;
        at = v.at;
        storage = w.storage ∙ v.storage;
        slot_in = v.slot_in;
        is_running = w.states v.slot ∙ v.is_running;
        only = λ j h. v.only j (sym (w.states j) ∙ h);
        root_pid = w.pids 0 ∙ v.root_pid;
        root_live = ap is_live (w.states 0) ∙ v.root_live;
        other_pids =
            λ j a b. v.other_pids j (ap is_live (sym (w.states j)) ∙ a) (sym (w.pids j) ∙ b);
        fresh_pid = v.fresh_pid;
        small_pid = v.small_pid;
        counted = v.counted ∙ sym (live_below-live s.tasks _ 16 (λ j. ap is_live (w.states j)));
      }

-- Why `task_spawn` refuses: no entry point, a full table, or no memory for a stack.
pub Refusal : ℕ → ℕ → Sched → Type 0
Refusal hhdm entry s =
    (entry ≡ 0) ⊎ ((16 ≤ s.task_count) ⊎ ((kmalloc hhdm stack_size s.heap).0 ≡ 0))

-- Slot `slot`, which was free, holds a new task that starts at `entry` with the argument and returns
-- to the word on top of its stack; nothing but the list pointers has changed in the other slots.
pub record Started (entry arg cr3 : ℕ) (name : List ℕ) (slot : ℕ) (block : ℕ × Heap) (s t : Sched)
    : Type 0 where
  pub inside : slot < 16
  pub was_free : is_live (task_at s.tasks slot).state ≡ false
  pub has_stack : block.0 ≢ 0
  pub start : unlinked (task_at t.tasks slot) ≡ record {
    regs = record { rdi = arg; rip = entry; rsp = block.0 + 16376; rflags = 0x202; cr3 = cr3 };
    state = ready;
    pid = s.next_pid;
    stack = block.0;
    next = none;
    prev = none;
    name = copy_name name 32;
  }
  pub others : (j : ℕ) → slot ≢ j → unlinked (task_at t.tasks j) ≡ unlinked (task_at s.tasks j)
  pub one_more : t.task_count ≡ s.task_count + 1
  pub next_one : t.next_pid ≡ s.next_pid + 1
  pub same_running : t.running_task ≡ s.running_task
  pub taken : t.heap ≡ block.1

-- What a call of `task_spawn` has done: nothing to the tasks, or one new ready task.
pub data Spawned (hhdm cr3 entry arg : ℕ) (name : List ℕ) (s : Sched)
    : Option ℕ × Sched → Type 0 where
  refused :
      {t : Sched}
      → Refusal hhdm entry s
      → SameStates s.tasks t.tasks
      → t.next_pid ≡ s.next_pid
      → IsSched t
      → Spawned hhdm cr3 entry arg name s (none, t)
  added :
      {t : Sched} (slot : ℕ)
      → Started entry arg cr3 name slot (kmalloc hhdm stack_size s.heap) s t
      → IsSched t
      → Spawned hhdm cr3 entry arg name s (some s.next_pid, t)

spawn_with-Spawned :
    {s : Sched} (v : IsSched s) (hhdm entry arg cr3 : ℕ) (name : List ℕ) (slot : ℕ)
    → s.next_pid + 1 < 2 ^ 31
    → slot < 16
    → is_live (task_at s.tasks slot).state ≡ false
    → Spawned hhdm cr3 entry arg name s
        (spawn_with entry arg cr3 name slot (kmalloc hhdm stack_size s.heap) s)
unfolding spawn_with Refusal new_task
spawn_with-Spawned {s} v hhdm entry arg cr3 name slot few l free =
    let r = kmalloc hhdm stack_size s.heap in
    elim (Bool-cases (r.0 == 0)) [
      | inl z ↦
          let z' : r.0 ≡ 0 = ground arith in
          rw z (
            refused (inr (inr z')) (stackless v slot l) refl
              (with_heap-IsSched r.1 (stackless-IsSched v slot l)))
      | inr nz ↦
          let w = with_heap-IsSched r.1 v in
          let c = started_counters w slot l free entry arg cr3 name r.0 few in
          let rsp : r.0 + 16384 - 8 ≡ r.0 + 16376 = omega arith in
          rw nz (
            added slot
              (record {
                inside = l;
                was_free = free;
                has_stack = ground arith;
                start = rw rsp at (started_at w slot l free entry arg cr3 name r.0);
                others = started_others w slot l free entry arg cr3 name r.0;
                one_more = c.0;
                next_one = c.1;
                same_running = c.2;
                taken = c.3;
              })
              (started-IsSched w slot l free entry arg cr3 name r.0 few))
    ]

-- `task_spawn` either refuses, and leaves the state and the pid of every slot and the next pid, or
-- starts one task in a slot that was free: it is ready, has the next pid, the entry point, the argument
-- and the flags in its registers, and its stack pointer at the last word of a new stack. Every other
-- slot keeps all but its list pointers, the count and the next pid go up by one, and the same task goes
-- on running. The scheduler stays well formed both ways. It refuses only for want of an entry point,
-- of a slot or of memory. (The pids have not come to the greatest int.)
pub task_spawn-Spawned :
    {s : Sched} (hhdm cr3 entry arg : ℕ) (name : List ℕ)
    → IsSched s
    → s.next_pid + 1 < 2 ^ 31
    → Spawned hhdm cr3 entry arg name s (task_spawn hhdm cr3 entry arg name s)
unfolding task_spawn spawn_in Refusal
task_spawn-Spawned {s} hhdm cr3 entry arg name v few = elim (Bool-cases (entry == 0)) [
  | inl z ↦ let z' : entry ≡ 0 = ground arith in rw z (refused (inl z') unchanged refl v)
  | inr nz ↦ elim (Bool-cases (leb 16 s.task_count)) [
    | inl full ↦ rw (nz, full) (refused (inr (inl (ground arith))) unchanged refl v)
    | inr room ↦ elim (Option-cases (find_slot s.tasks 16 0)) [
      | inl miss ↦
          let all = find_slot_full s.tasks 16 0 16 refl miss (no_slots s.tasks) in
          let full : 16 ≤ s.task_count = omega (arith, all, v.counted) in
          rw (nz, room, miss) (refused (inr (inl full)) unchanged refl v)
      | inr (slot, hit) ↦
          let sound = find_slot_sound s.tasks 16 0 slot hit in
          rw (nz, room, hit)
            (spawn_with-Spawned v hhdm entry arg cr3 name slot few (omega (arith, sound.0)) sound.1)
    ]
  ]
]
