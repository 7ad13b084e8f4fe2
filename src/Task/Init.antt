-- ===== src/Task/Init.antt =====
-- `init_tasking` of fs/task.c: the state that it sets up.
use artyom_x.Base.{ℕ, zero, suc, ◌≡◌, refl, ap, true, arith, replicate}
use artyom_x.Task.{
  TaskState, Sched, no_task, is_live, running, task_at, init_tasking, task_list_insert, link_at,
  copy_name,
}
use artyom_x.Task.Table.{IsSched, live_below}

pub no_tasks : (n j : ℕ) → task_at (replicate n no_task) j ≡ no_task
no_tasks zero j = refl
no_tasks (suc n) zero = refl
no_tasks (suc n) (suc j) = no_tasks n j

pub unused : {P : Type 0} (n j : ℕ) → is_live (task_at (replicate n no_task) j).state ≡ true → P
unused n j h = absurd (cc (ap (λ t. is_live t.state) (no_tasks n j)))

running_live : (x : TaskState) → x ≡ running → is_live x ≡ true
running_live x e = rw e refl

-- `init_tasking` leaves a well-formed scheduler, in which the root task runs.
pub init_tasking-IsSched : (s : Sched) → IsSched (init_tasking s)
unfolding init_tasking task_list_insert link_at copy_name live_below
init_tasking-IsSched s = record {
  slot = 0;
  at = refl;
  storage = refl;
  slot_in = omega arith;
  is_running = refl;
  only = only;
  root_pid = refl;
  root_live = refl;
  other_pids = other_pids;
  fresh_pid = omega arith;
  small_pid = omega arith;
  counted = refl;
}
  where
    only : (j : ℕ) → (task_at (init_tasking s).tasks j).state ≡ running → j ≡ 0
    only zero h = refl
    only (suc j) h = unused 15 j (running_live _ h)

    other_pids :
        (j : ℕ)
        → is_live (task_at (init_tasking s).tasks j).state ≡ true
        → (task_at (init_tasking s).tasks j).pid ≡ 1
        → j ≡ 0
    other_pids zero a b = refl
    other_pids (suc j) a b = unused 15 j a
