-- ===== src/Task/Exit.antt =====
-- `task_exit` of fs/task.c: the running task is gone, another one runs, and the root task never
-- goes.
use artyom_x.Base.{
  ℕ, ◌+◌, ◌-◌, ◌<◌, ◌≡◌, ◌≢◌, refl, sym, ap, subst, ◌∙◌, true, false, none, arith, ltb, ◌==◌,
  if◌then◌else◌, length, length-set, Bool-cases, Option-cases, inl, inr,
}
use artyom_x.Kheap.{Heap, kfree}
use artyom_x.Task.{
  Sched, task_at, is_live, running, terminated, set_state, drop_stack, or_root, pick_next_ready,
  task_list_remove, leave, ExitResult, returned, halted, bad_free, switched, exit_with, exit_self,
  exit_of, task_exit,
}
use artyom_x.Task.Table.{
  IsSched, task_list_remove-SameSched, live_below, live_below-set, live_below-live,
}
use artyom_x.Task.Pick.{pick_sound}
use artyom_x.Task.Yield.{field-set, same-field}

-- `d` is `s` with the task `self` terminated.
record Dead (self : ℕ) (s d : Sched) : Type 0 where
  storage : length d.tasks ≡ 16
  states :
      (j : ℕ)
      → (task_at d.tasks j).state ≡ (if j == self then terminated else (task_at s.tasks j).state)
  pids : (j : ℕ) → (task_at d.tasks j).pid ≡ (task_at s.tasks j).pid
  same_running : d.running_task ≡ s.running_task
  same_count : d.task_count ≡ s.task_count
  same_next : d.next_pid ≡ s.next_pid
  fewer : live_below d.tasks 16 + 1 ≡ live_below s.tasks 16

module _ {s d : Sched} (v : IsSched s) (w : Dead v.slot s d) (not_root : v.slot ≢ 0) where
  abbrev next : ℕ
  next = or_root (pick_next_ready d)

  gone : (j : ℕ) → is_live (task_at d.tasks j).state ≡ true → j ≢ v.slot
  gone j h e = not_live (rw (w.states j, eq e) at h)
    where
      eq : j ≡ v.slot → (j == v.slot) ≡ true
      eq q = ground arith

      not_live : false ≡ true → ⊥
      not_live q = cc

  kept : (j : ℕ) → j ≢ v.slot → (task_at d.tasks j).state ≡ (task_at s.tasks j).state
  kept j ne =
      let e : (j == v.slot) ≡ false = ground arith in
      w.states j ∙ ap (λ b. if b then terminated else (task_at s.tasks j).state) e

  next_live : (next < 16) × (is_live (task_at d.tasks next).state ≡ true)
  next_live = elim (Option-cases (pick_next_ready d)) [
    | inl nobody ↦
        rw nobody (omega arith, ap is_live (kept 0 (λ e. not_root (sym e))) ∙ v.root_live)
    | inr (n, found) ↦
        let sound = pick_sound d v.slot n (w.same_running ∙ v.at) found in
        rw found (sound.0, ap is_live sound.1)
  ]

  after_states :
      (j : ℕ)
      → (task_at (leave v.slot d).tasks j).state
        ≡ (if j == next then running else (task_at d.tasks j).state)
  unfolding leave
  after_states j =
      let same = task_list_remove-SameSched v.slot d in
      field-set (λ t. t.state) (task_list_remove v.slot d).tasks next j _
        (omega (arith, same.tasks.same_length, w.storage, next_live.0))
      ∙ ap (λ x. if j == next then running else x) (same.tasks.same_state j)

  after_pids : (j : ℕ) → (task_at (leave v.slot d).tasks j).pid ≡ (task_at s.tasks j).pid
  unfolding leave
  after_pids j =
      let same = task_list_remove-SameSched v.slot d in
      field-set (λ t. t.pid) (task_list_remove v.slot d).tasks next j _
        (omega (arith, same.tasks.same_length, w.storage, next_live.0))
      ∙ own j
      ∙ same.tasks.same_pid j
      ∙ w.pids j
    where
      own :
          (j : ℕ)
          → (if j == next
              then (task_at (task_list_remove v.slot d).tasks next).pid
              else (task_at (task_list_remove v.slot d).tasks j).pid)
            ≡ (task_at (task_list_remove v.slot d).tasks j).pid
      own j = elim (Bool-cases (j == next)) [
        | inl e ↦ let e' : j ≡ next = ground arith in rw (e, e')
        | inr ne ↦ rw ne
      ]

  after_live :
      (j : ℕ) → is_live (task_at (leave v.slot d).tasks j).state ≡ is_live (task_at d.tasks j).state
  after_live j = ap is_live (after_states j) ∙ choose
    where
      choose :
          is_live (if j == next then running else (task_at d.tasks j).state)
          ≡ is_live (task_at d.tasks j).state
      choose = elim (Bool-cases (j == next)) [
        | inl e ↦ let e' : j ≡ next = ground arith in rw (e, e') (sym next_live.1)
        | inr ne ↦ rw ne
      ]

  after_only : (j : ℕ) → (task_at (leave v.slot d).tasks j).state ≡ running → j ≡ next
  after_only j = rw (after_states j) (elim (Bool-cases (j == next)) [
    | inl e ↦ rw e (λ h. ground arith)
    | inr ne ↦
        rw ne (λ h.
          let away = gone j (ap is_live h) in absurd (away (v.only j (sym (kept j away) ∙ h))))
  ])

  one_less : s.task_count - 1 ≡ live_below d.tasks 16
  one_less = omega (arith, w.fewer, v.counted)

  leave-IsSched : IsSched (leave v.slot d)
  unfolding leave
  leave-IsSched =
      let same = task_list_remove-SameSched v.slot d in
      let here : (next == next) ≡ true = ground arith in
      record {
        slot = next;
        at = refl;
        storage =
            length-set (task_list_remove v.slot d).tasks next _
            ∙ same.tasks.same_length
            ∙ w.storage;
        slot_in = next_live.0;
        is_running =
            after_states next ∙ ap (λ b. if b then running else (task_at d.tasks next).state) here;
        only = after_only;
        root_pid = after_pids 0 ∙ v.root_pid;
        root_live = after_live 0 ∙ ap is_live (kept 0 (λ e. not_root (sym e))) ∙ v.root_live;
        other_pids = λ j a b.
            let alive = sym (after_live j) ∙ a in
            v.other_pids j (sym (ap is_live (kept j (gone j alive))) ∙ alive)
              (sym (after_pids j) ∙ b);
        fresh_pid = omega (arith, v.fresh_pid, w.same_next, same.next_pid);
        small_pid = omega (arith, v.small_pid, w.same_next, same.next_pid);
        counted =
            ap (λ c. c - 1) (same.task_count ∙ w.same_count)
            ∙ one_less
            ∙ sym (live_below-live d.tasks _ 16 after_live);
      }

  leave_terminated : (task_at (leave v.slot d).tasks v.slot).state ≡ terminated
  leave_terminated =
      let e : (v.slot == v.slot) ≡ true = ground arith in
      let dead : (task_at d.tasks v.slot).state ≡ terminated =
        w.states v.slot ∙ ap (λ b. if b then terminated else (task_at s.tasks v.slot).state) e in
      let other : (v.slot == next) ≡ false = elim (Bool-cases (v.slot == next)) [
        | inl q ↦ let q' : next ≡ v.slot = ground arith in absurd (gone next next_live.1 q')
        | inr ne ↦ ne
      ] in
      after_states v.slot
      ∙ ap (λ b. if b then running else (task_at d.tasks v.slot).state) other
      ∙ dead

  leave_count : (leave v.slot d).task_count + 1 ≡ s.task_count
  unfolding leave
  leave_count =
      let same = task_list_remove-SameSched v.slot d in
      omega (arith, same.task_count, w.same_count, w.fewer, v.counted)

module _ {s : Sched} (v : IsSched s) where
  abbrev dead : Sched
  dead = record s { tasks = set_state v.slot terminated s.tasks }

  in_table : v.slot < length s.tasks
  in_table = omega (arith, v.storage, v.slot_in)

  dead-Dead : Dead v.slot s dead
  dead-Dead =
      let inside : ltb v.slot 16 ≡ true = ground (arith, v.slot_in) in
      let lives : is_live (task_at s.tasks v.slot).state ≡ true = rw v.is_running in
      record {
        storage = length-set s.tasks v.slot _ ∙ v.storage;
        states = λ j. field-set (λ t. t.state) s.tasks v.slot j _ in_table;
        pids = λ j. same-field (λ t. t.pid) s.tasks v.slot j _ in_table refl;
        same_running = refl;
        same_count = refl;
        same_next = refl;
        fewer = omega (
          arith,
          rw (lives, inside) at
              (live_below-set s.tasks v.slot
                (record (task_at s.tasks v.slot) { state = terminated }) 16 in_table),
        );
      }

  -- Also with its stack given back.
  freed-Dead :
      (h : Heap) → Dead v.slot s (record dead { tasks = drop_stack v.slot dead.tasks; heap = h })
  freed-Dead h =
      let w = dead-Dead in
      let inside : v.slot < length dead.tasks = omega (arith, w.storage, v.slot_in) in
      let states : (j : ℕ)
          → (task_at (drop_stack v.slot dead.tasks) j).state ≡ (task_at dead.tasks j).state =
        λ j. same-field (λ t. t.state) dead.tasks v.slot j _ inside refl in
      record {
        storage = length-set dead.tasks v.slot _ ∙ w.storage;
        states = λ j. states j ∙ w.states j;
        pids = λ j. same-field (λ t. t.pid) dead.tasks v.slot j _ inside refl ∙ w.pids j;
        same_running = refl;
        same_count = refl;
        same_next = refl;
        fewer = omega (
          arith,
          w.fewer,
          live_below-live dead.tasks (drop_stack v.slot dead.tasks) 16 (λ j. ap is_live (states j)),
        );
      }

-- How a call of `task_exit` ends: halted for the root task only, and else another task runs.
pub Exited : (s : Sched) → ℕ → ExitResult → Type 0
Exited s self returned = ⊥
Exited s self halted = self ≡ 0
Exited s self bad_free = (self ≢ 0) × (kfree (task_at s.tasks self).stack s.heap ≡ none)
Exited s self (switched t) =
    (self ≢ 0)
    × IsSched t
    × ((task_at t.tasks self).state ≡ terminated)
    × (t.task_count + 1 ≡ s.task_count)

module _ {s : Sched} (v : IsSched s) where
  left : {d : Sched} → v.slot ≢ 0 → Dead v.slot s d → Exited s v.slot (switched (leave v.slot d))
  unfolding Exited
  left ne w = (ne, leave-IsSched v w ne, leave_terminated v w ne, leave_count v w ne)

  given_back :
      v.slot ≢ 0
      → Exited s v.slot (exit_with v.slot (kfree (task_at s.tasks v.slot).stack s.heap) (dead v))
  unfolding Exited exit_with
  given_back ne = elim (Option-cases (kfree (task_at s.tasks v.slot).stack s.heap)) [
    | inl bad ↦ rw bad (ne, bad)
    | inr (h, good) ↦ rw good (left ne (freed-Dead v h))
  ]

  is_root : (task_at s.tasks v.slot).pid ≡ 1 → v.slot ≡ 0
  is_root p = v.other_pids v.slot (ap is_live v.is_running) p

  no_root : ((task_at s.tasks v.slot).pid == 1) ≡ false → v.slot ≢ 0
  no_root p e = absurd (ground (arith, rw e at p, v.root_pid))

  exit_self-Exited : Exited s v.slot (exit_self v.slot s)
  unfolding Exited exit_self
  exit_self-Exited = elim (Bool-cases ((task_at s.tasks v.slot).pid == 1)) [
    | inl root ↦ rw root (is_root (ground arith))
    | inr other ↦ elim (Bool-cases ((task_at s.tasks v.slot).stack == 0)) [
      | inl bare ↦ rw (other, bare) (left (no_root other) (dead-Dead v))
      | inr stacked ↦ rw (other, stacked) (given_back (no_root other))
    ]
  ]

  -- `task_exit` in a well-formed state halts for the root task; for any other one it terminates that
  -- task, counts it off and leaves a well-formed state with another task running, unless `kfree`
  -- does not know the stack. It never returns to its caller.
  pub task_exit-Exited : Exited s v.slot (task_exit s)
  unfolding task_exit exit_of
  task_exit-Exited = subst (λ o. Exited s v.slot (exit_of o s)) (sym v.at) exit_self-Exited
