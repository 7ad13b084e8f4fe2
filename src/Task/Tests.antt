-- ===== src/Task/Tests.antt =====
-- The scheduler of fs/task.c after `init_tasking` and with a second task.
use artyom_x.Base.{
  ℕ, zero, suc, ap, ◌≡◌, ◌≤◌, ◌<◌, refl, true, some, List, [], ◌∷◌, arith, replicate,
}
use artyom_x.Kheap.{Heap}
use artyom_x.Task.{
  Task, Sched, no_task, ready, running, is_live, task_at, yield_task, task_spawn, task_exit,
  yield_to, switch_to, pick_next_ready, pick_from,
}
use artyom_x.Task.Table.{IsSched, live_below}
use artyom_x.Task.Init.{unused}
use artyom_x.Task.Yield.{yields, yield_task-IsSched, yields_reach}
use artyom_x.Kheap.Fixture.{roomy}
use artyom_x.Task.Spawn.{Spawned, with_heap-IsSched, task_spawn-Spawned}
use artyom_x.Task.Exit.{Exited, task_exit-Exited}

abbrev no_heap : Heap
no_heap = record {
  arenas = [];
  pmm = record { bitmap = λ i. 0; highest_page = 0; free_count = 0; last_hint = 0 };
}

-- The root task and a worker that runs, in the slots 0 and 2; another one is ready in slot 5.
abbrev table : List Task
table =
    record no_task { state = ready; pid = 1; next = some 2; prev = some 5 }
    ∷ no_task
    ∷ record no_task { state = running; pid = 7; next = some 5; prev = some 0 }
    ∷ no_task
    ∷ no_task
    ∷ record no_task { state = ready; pid = 4; next = some 0; prev = some 2 }
    ∷ replicate 10 no_task

abbrev three : Sched
three = record {
  tasks = table;
  running_task = some 2;
  list_head = some 0;
  task_count = 3;
  next_pid = 8;
  heap = no_heap;
}

three_only : (j : ℕ) → (task_at table j).state ≡ running → j ≡ 2
three_only zero h = cc
three_only (suc zero) h = cc
three_only (suc (suc zero)) h = refl
three_only (suc (suc (suc zero))) h = cc
three_only (suc (suc (suc (suc zero)))) h = cc
three_only (suc (suc (suc (suc (suc zero))))) h = cc
three_only (suc (suc (suc (suc (suc (suc j)))))) h = unused 10 j (ap is_live h)

three_pids : (j : ℕ) → is_live (task_at table j).state ≡ true → (task_at table j).pid ≡ 1 → j ≡ 0
three_pids zero a b = refl
three_pids (suc zero) a b = cc
three_pids (suc (suc zero)) a b = absurd (omega (arith, b))
three_pids (suc (suc (suc zero))) a b = cc
three_pids (suc (suc (suc (suc zero)))) a b = cc
three_pids (suc (suc (suc (suc (suc zero))))) a b = absurd (omega (arith, b))
three_pids (suc (suc (suc (suc (suc (suc j)))))) a b = unused 10 j a

three-IsSched : IsSched three
unfolding live_below
three-IsSched = record {
  slot = 2;
  at = refl;
  storage = refl;
  slot_in = omega arith;
  is_running = refl;
  only = three_only;
  root_pid = refl;
  root_live = refl;
  other_pids = three_pids;
  fresh_pid = omega arith;
  small_pid = omega arith;
  counted = refl;
}

run_yield : Sched → Sched
unfolding yield_task yield_to switch_to pick_next_ready pick_from
run_yield s = yield_task 0 s

-- The worker in slot 2 gives way to slot 5, and that one to the root task.
yield_runs :
    ((run_yield three).running_task ≡ some 5)
    × ((run_yield (run_yield three)).running_task ≡ some 0)
unfolding run_yield
yield_runs = (refl, refl)

yield_task-IsSched_example : IsSched (yield_task 0 three)
yield_task-IsSched_example = yield_task-IsSched 0 three-IsSched

yields_reach_example : (k : ℕ) × (0 < k) × (k ≤ 15) × ((yields 0 k three).running_task ≡ some 0)
yields_reach_example = yields_reach 0 0 three-IsSched (omega arith) refl

-- The same tasks with room for a stack.
abbrev with_room : Sched
with_room = record three { heap = roomy }

task_spawn-Spawned_example :
    Spawned 0 0 0x400000 5 (119 ∷ []) with_room (task_spawn 0 0 0x400000 5 (119 ∷ []) with_room)
task_spawn-Spawned_example =
    task_spawn-Spawned 0 0 0x400000 5 (119 ∷ []) (with_heap-IsSched roomy three-IsSched)
      (omega arith)

task_exit-Exited_example : Exited three 2 (task_exit three)
unfolding three-IsSched
task_exit-Exited_example = task_exit-Exited three-IsSched
