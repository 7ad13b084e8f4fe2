-- ===== src/Task/Slot.antt =====
-- A free slot of the table of fs/task.c, and the state with a new task in it.
use artyom_x.Base.{
  ℕ, zero, suc, ◌+◌, ◌%◌, ◌^◌, ◌<◌, ◌≡◌, ◌≢◌, refl, sym, ap, ◌∙◌, Bool, true, false, none, some,
  List, arith, ltb, ◌==◌, if◌then◌else◌, set, length-set, Bool-cases, inl, inr,
}
use artyom_x.Task.{Task, Sched, task_at, is_live, ready, running, find_slot, new_task, start_task}
use artyom_x.Task.Table.{
  IsSched, unlinked, task_list_insert-SameSched, live_below, live_below-set, live_below-SameCore,
}
use artyom_x.Task.Yield.{field-set}

pub find_slot_sound :
    (ts : List Task) (n i slot : ℕ)
    → find_slot ts n i ≡ some slot
    → (slot < i + n) × (is_live (task_at ts slot).state ≡ false)
unfolding find_slot
find_slot_sound ts zero i slot = λ found. cc
find_slot_sound ts (suc n) i slot = elim (Bool-cases (is_live (task_at ts i).state)) [
  | inl live ↦ rw live (λ found.
      let rest = find_slot_sound ts n (i + 1) slot found in (omega (arith, rest.0), rest.1))
  | inr free ↦ rw free (λ found. let at : i ≡ slot = ground arith in rw (← at) (omega arith, free))
]

one_live :
    (ts : List Task) (i : ℕ)
    → is_live (task_at ts i).state ≡ true
    → live_below ts i ≡ i
    → live_below ts (i + 1) ≡ i + 1
unfolding live_below
one_live ts i live so_far =
    let e : i + 1 ≡ suc i = omega arith in rw (e, live) (omega (arith, so_far))

-- With no free slot, every task counts.
pub find_slot_full :
    (ts : List Task) (n i m : ℕ)
    → i + n ≡ m
    → find_slot ts n i ≡ none
    → live_below ts i ≡ i
    → live_below ts m ≡ m
unfolding find_slot live_below
find_slot_full ts zero i m e = λ miss so_far. let e' : i ≡ m = omega (arith, e) in rw (← e') so_far
find_slot_full ts (suc n) i m e = elim (Bool-cases (is_live (task_at ts i).state)) [
  | inl live ↦ rw live (λ miss so_far.
      find_slot_full ts n (i + 1) m (omega (arith, e)) miss (one_live ts i live so_far))
  | inr free ↦ rw free (λ miss so_far. cc)
]

pub no_slots : (ts : List Task) → live_below ts 0 ≡ 0
unfolding live_below
no_slots ts = refl

-- The new task in its slot.
module _ {s : Sched} (v : IsSched s) (slot : ℕ) (l : slot < 16)
    (free : is_live (task_at s.tasks slot).state ≡ false) (entry arg cr3 : ℕ) (name : List ℕ)
    (stack : ℕ) where
  abbrev pub fresh : Task
  fresh = new_task entry arg cr3 name stack s.next_pid (task_at s.tasks slot)

  abbrev pub started : Sched
  started = start_task entry arg cr3 name slot stack s

  abbrev pub placed : Sched
  placed = record s { tasks = set s.tasks slot fresh; next_pid = (s.next_pid + 1) % 2 ^ 32 }

  started_states :
      (j : ℕ)
      → (task_at started.tasks j).state ≡ (if j == slot then ready else (task_at s.tasks j).state)
  unfolding start_task new_task
  started_states j =
      (task_list_insert-SameSched slot placed).tasks.same_state j
      ∙ field-set (λ t. t.state) s.tasks slot j fresh (omega (arith, v.storage))

  started_pids :
      (j : ℕ)
      → (task_at started.tasks j).pid ≡ (if j == slot then s.next_pid else (task_at s.tasks j).pid)
  unfolding start_task new_task
  started_pids j =
      (task_list_insert-SameSched slot placed).tasks.same_pid j
      ∙ field-set (λ t. t.pid) s.tasks slot j fresh (omega (arith, v.storage))

  started_live : live_below started.tasks 16 ≡ live_below s.tasks 16 + 1
  unfolding start_task new_task
  started_live =
      live_below-SameCore 16 (task_list_insert-SameSched slot placed).tasks
      ∙ one_more (live_below-set s.tasks slot fresh 16 (omega (arith, v.storage)))
    where
      one_more :
          live_below (set s.tasks slot fresh) 16
              + (if is_live (task_at s.tasks slot).state then if ltb slot 16 then 1 else 0 else 0)
            ≡ live_below s.tasks 16 + (if ltb slot 16 then 1 else 0)
          → live_below (set s.tasks slot fresh) 16 ≡ live_below s.tasks 16 + 1
      one_more e =
          let inside : ltb slot 16 ≡ true = ground arith in omega (arith, rw (free, inside) at e)

  not_running : slot ≢ v.slot
  not_running e = clash (rw e at free) v.is_running
    where
      clash :
          is_live (task_at s.tasks v.slot).state ≡ false
          → (task_at s.tasks v.slot).state ≡ running
          → ⊥
      clash a b = true_ne_false (ap is_live (sym b) ∙ a)
        where
          true_ne_false : true ≡ false → ⊥
          true_ne_false q = cc

  not_root : slot ≢ 0
  not_root e = clash (rw e at free) v.root_live
    where
      clash : {b : Bool} → b ≡ false → b ≡ true → ⊥
      clash x y = cc

  pub started-IsSched : s.next_pid + 1 < 2 ^ 31 → IsSched started
  unfolding start_task
  started-IsSched few =
      let same = task_list_insert-SameSched slot placed in
      record {
        slot = v.slot;
        at = same.running_task ∙ v.at;
        storage = same.tasks.same_length ∙ length-set s.tasks slot fresh ∙ v.storage;
        slot_in = v.slot_in;
        is_running =
            started_states v.slot
            ∙ ap (λ b. if b then ready else (task_at s.tasks v.slot).state)
                (other v.slot not_running)
            ∙ v.is_running;
        only = λ j h. only_old j (sym (started_states j) ∙ h);
        root_pid =
            started_pids 0
            ∙ ap (λ b. if b then s.next_pid else (task_at s.tasks 0).pid) (other 0 not_root)
            ∙ v.root_pid;
        root_live =
            ap is_live (
              started_states 0
              ∙ ap (λ b. if b then ready else (task_at s.tasks 0).state) (other 0 not_root))
            ∙ v.root_live;
        other_pids =
            λ j a b. old_pid j (ap is_live (sym (started_states j)) ∙ a) (sym (started_pids j) ∙ b);
        fresh_pid = omega (arith, same.next_pid, v.fresh_pid, few);
        small_pid = omega (arith, same.next_pid, few);
        counted = omega (arith, same.task_count, started_live, v.counted);
      }
    where
      other : (j : ℕ) → slot ≢ j → (j == slot) ≡ false
      other j ne = ground arith

      only_old :
          (j : ℕ) → (if j == slot then ready else (task_at s.tasks j).state) ≡ running → j ≡ v.slot
      only_old j = elim (Bool-cases (j == slot)) [
        | inl e ↦ rw e (λ h. cc)
        | inr ne ↦ rw ne (v.only j)
      ]

      old_pid :
          (j : ℕ)
          → is_live (if j == slot then ready else (task_at s.tasks j).state) ≡ true
          → (if j == slot then s.next_pid else (task_at s.tasks j).pid) ≡ 1
          → j ≡ 0
      old_pid j = elim (Bool-cases (j == slot)) [
        | inl e ↦ rw e (λ a b. absurd (omega (arith, b, v.fresh_pid)))
        | inr ne ↦ rw ne (v.other_pids j)
      ]

  started_bodies :
      (j : ℕ)
      → unlinked (task_at started.tasks j)
        ≡ (if j == slot then unlinked fresh else unlinked (task_at s.tasks j))
  unfolding start_task
  started_bodies j =
      (task_list_insert-SameSched slot placed).tasks.same_body j
      ∙ field-set unlinked s.tasks slot j fresh (omega (arith, v.storage))

  -- The new task is there.
  pub started_at : unlinked (task_at started.tasks slot) ≡ unlinked fresh
  started_at =
      let e : (slot == slot) ≡ true = ground arith in
      started_bodies slot
      ∙ ap (λ b. if b then unlinked fresh else unlinked (task_at s.tasks slot)) e

  pub started_others :
      (j : ℕ) → slot ≢ j → unlinked (task_at started.tasks j) ≡ unlinked (task_at s.tasks j)
  started_others j ne =
      let e : (j == slot) ≡ false = ground arith in
      started_bodies j ∙ ap (λ b. if b then unlinked fresh else unlinked (task_at s.tasks j)) e

  pub started_counters :
      s.next_pid + 1 < 2 ^ 31
      → (started.task_count ≡ s.task_count + 1)
        × (started.next_pid ≡ s.next_pid + 1)
        × (started.running_task ≡ s.running_task)
        × (started.heap ≡ s.heap)
  unfolding start_task
  started_counters few =
      let same = task_list_insert-SameSched slot placed in
      (
        omega (arith, same.task_count),
        omega (arith, same.next_pid, few),
        same.running_task,
        same.heap,
      )
