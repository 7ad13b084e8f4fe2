-- ===== src/Task/Yield.antt =====
-- `yield` of fs/task.c: it keeps the scheduler well formed, and every ready task runs within
-- fifteen calls.
use artyom_x.Base.{
  ℕ, zero, suc, ◌≤◌, ◌<◌, ◌≡◌, ◌≢◌, refl, sym, ap, ◌∙◌, true, false, some, List, arith, ◌==◌,
  if◌then◌else◌, set, length, length-set, get_or-set, Bool-cases, Option-cases, inl, inr,
  ℕ_discrete,
}
use artyom_x.Task.{
  Task, Sched, no_task, task_at, is_live, ready, running, set_state, pick_next_ready, switch_to,
  yield_to, yield_task,
}
use artyom_x.Task.Table.{IsSched, live_below-live}
use artyom_x.Task.Pick.{distance, two_live, pick_next_ready-Picked, pick_next_ready_sound}

-- The table after the running task `old` has given way to `next`: two states have changed.
record Swapped (old next : ℕ) (ts us : List Task) : Type 0 where
  storage : length us ≡ length ts
  states :
      (j : ℕ)
      → (task_at us j).state
        ≡ (if j == next then running else if j == old then ready else (task_at ts j).state)
  pids : (j : ℕ) → (task_at us j).pid ≡ (task_at ts j).pid
  stacks : (j : ℕ) → (task_at us j).stack ≡ (task_at ts j).stack

-- A write within the table, as its reads of a field see it.
pub field-set :
    {B : Type 0} (f : Task → B) (ts : List Task) (i j : ℕ) (t : Task)
    → i < length ts
    → f (task_at (set ts i t) j) ≡ (if j == i then f t else f (task_at ts j))
field-set f ts i j t h =
    rw (get_or-set ts i j t no_task h) (elim (Bool-cases (j == i)) [ inl e ↦ rw e | inr e ↦ rw e ])

pub same-field :
    {B : Type 0} (f : Task → B) (ts : List Task) (i j : ℕ) (t : Task)
    → i < length ts
    → f t ≡ f (task_at ts i)
    → f (task_at (set ts i t) j) ≡ f (task_at ts j)
same-field f ts i j t h e = rw (field-set f ts i j t h) (elim (Bool-cases (j == i)) [
  | inl same ↦ let same' : j ≡ i = ground arith in rw (same, same') e
  | inr other ↦ rw other
])

module _ (cr3 old next : ℕ) (ts : List Task) (ho : old < length ts) (hn : next < length ts) where
  abbrev saved : List Task
  saved =
      let o = task_at ts old in
      set ts old (record o { state = ready; regs = record (o.regs) { cr3 = cr3 } })

  length-saved : length saved ≡ length ts
  length-saved = length-set ts old _

  swap-Swapped : Swapped old next ts (set_state next running saved)
  swap-Swapped = record {
    storage = length-set saved next _ ∙ length-saved;
    states = λ j.
        rw
          (
            field-set (λ t. t.state) saved next j _ (omega (arith, length-saved)),
            field-set (λ t. t.state) ts old j _ ho,
          )
          refl;
    pids = λ j.
        same-field (λ t. t.pid) saved next j _ (omega (arith, length-saved)) refl
        ∙ same-field (λ t. t.pid) ts old j _ ho refl;
    stacks = λ j.
        same-field (λ t. t.stack) saved next j _ (omega (arith, length-saved)) refl
        ∙ same-field (λ t. t.stack) ts old j _ ho refl;
  }

swap_live :
    {ts us : List Task} (old next : ℕ)
    → Swapped old next ts us
    → is_live (task_at ts old).state ≡ true
    → is_live (task_at ts next).state ≡ true
    → (j : ℕ) → is_live (task_at us j).state ≡ is_live (task_at ts j).state
swap_live {ts} old next w a b j = rw (w.states j) (elim (Bool-cases (j == next)) [
  | inl e ↦ let e' : j ≡ next = ground arith in rw (e, e') (sym b)
  | inr ne ↦ elim (Bool-cases (j == old)) [
    | inl e ↦ let e' : j ≡ old = ground arith in rw (ne, e, e') (sym a)
    | inr no_old ↦ rw (ne, no_old)
  ]
])

swap_only :
    {ts us : List Task} (old next : ℕ)
    → Swapped old next ts us
    → ((j : ℕ) → (task_at ts j).state ≡ running → j ≡ old)
    → (j : ℕ) → (task_at us j).state ≡ running
    → j ≡ next
swap_only {ts} old next w only j = rw (w.states j) (elim (Bool-cases (j == next)) [
  | inl e ↦ rw e (λ h. ground arith)
  | inr ne ↦ elim (Bool-cases (j == old)) [
    | inl e ↦ rw (ne, e) (λ h. cc)
    | inr no_old ↦ rw (ne, no_old) (λ h. absurd (ground (arith, only j h)))
  ]
])

swap_next :
    {ts us : List Task} (old next : ℕ) → Swapped old next ts us → (task_at us next).state ≡ running
swap_next {ts} old next w = let e : (next == next) ≡ true = ground arith in rw (w.states next, e)

-- A state of the scheduler that the running task has given up to `next`.
module _ {s : Sched} (v : IsSched s) (cr3 next : ℕ) (l : next < 16)
    (r : (task_at s.tasks next).state ≡ ready) where
  gives_way : Swapped v.slot next s.tasks (switch_to cr3 (some v.slot) next s).tasks
  unfolding switch_to
  gives_way =
      swap-Swapped cr3 v.slot next s.tasks (omega (arith, v.storage, v.slot_in))
        (omega (arith, v.storage))

  pub switch_to-IsSched : IsSched (switch_to cr3 (some v.slot) next s)
  unfolding switch_to
  switch_to-IsSched =
      let w = gives_way in
      let live = swap_live v.slot next w (rw v.is_running) (rw r) in
      record {
        slot = next;
        at = refl;
        storage = w.storage ∙ v.storage;
        slot_in = l;
        is_running = swap_next v.slot next w;
        only = swap_only v.slot next w v.only;
        root_pid = w.pids 0 ∙ v.root_pid;
        root_live = live 0 ∙ v.root_live;
        other_pids = λ j a b. v.other_pids j (sym (live j) ∙ a) (sym (w.pids j) ∙ b);
        fresh_pid = v.fresh_pid;
        small_pid = v.small_pid;
        counted = v.counted ∙ sym (live_below-live s.tasks _ 16 live);
      }

switched_task :
    (cr3 old next : ℕ) (s : Sched) → (switch_to cr3 (some old) next s).running_task ≡ some next
unfolding switch_to
switched_task cr3 old next s = refl

module _ {s : Sched} (cr3 : ℕ) (v : IsSched s) where
  -- `yield` keeps the scheduler well formed: one task runs, the root task lives, and the count is
  -- the number of live tasks.
  pub yield_task-IsSched : IsSched (yield_task cr3 s)
  unfolding yield_task yield_to switch_to
  yield_task-IsSched = elim (Option-cases (pick_next_ready s)) [
    | inl nobody ↦ rw nobody v
    | inr (n, found) ↦
        let sound = pick_next_ready_sound n v found in
        rw (found, v.at) (switch_to-IsSched v cr3 n sound.0 sound.1)
  ]

  -- A ready task runs next, or stays ready with fewer slots between the running task and it.
  pub yield_task-nearer :
      (t : ℕ)
      → t < 16
      → (task_at s.tasks t).state ≡ ready
      → (n : ℕ) × ((yield_task cr3 s).running_task ≡ some n)
        × (n ≢ t
            → (distance n t < distance v.slot t)
              × ((task_at (yield_task cr3 s).tasks t).state ≡ ready))
  unfolding yield_task yield_to switch_to
  yield_task-nearer t l r =
      let p = pick_next_ready-Picked v t l r in
      let apart = (two_live v t l r).1 in
      (
        p.0,
        rw (p.1, v.at) (running_now p.0),
        rw (p.1, v.at)
            (λ ne.
              let sound = pick_next_ready_sound p.0 v p.1 in
              (
                omega (arith, p.2.from, p.2.slot, p.3, v.slot_in, ne),
                still p.0 sound.0 sound.1 ne apart,
              )),
      )
    where
      running_now : (n : ℕ) → (switch_to cr3 (some v.slot) n s).running_task ≡ some n
      running_now n = switched_task cr3 v.slot n s

      still :
          (n : ℕ) (h : n < 16) (q : (task_at s.tasks n).state ≡ ready)
          → n ≢ t
          → t ≢ v.slot
          → (task_at (switch_to cr3 (some v.slot) n s).tasks t).state ≡ ready
      still n h q ne apart =
          let a : (t == n) ≡ false = ground arith in
          let b : (t == v.slot) ≡ false = ground arith in
          (gives_way v cr3 n h q).states t ∙ rw (a, b) r

-- `n` calls in a row, each by the task that then runs.
unfoldable pub yields : ℕ → ℕ → Sched → Sched
yields cr3 zero s = s
yields cr3 (suc n) s = yields cr3 n (yield_task cr3 s)

some_inj : {a b : ℕ} → some a ≡ some b → a ≡ b
some_inj e = ground arith

waits :
    (cr3 d t : ℕ) (s : Sched) (v : IsSched s)
    → t < 16
    → (task_at s.tasks t).state ≡ ready
    → distance v.slot t ≤ d
    → (k : ℕ) × (0 < k) × (k ≤ d) × ((yields cr3 k s).running_task ≡ some t)
unfolding yields
waits cr3 zero t s v l r h = absurd (omega (arith, v.slot_in, (two_live v t l r).1))
waits cr3 (suc d) t s v l r h =
    let y = yield_task-nearer cr3 v t l r in
    let v' = yield_task-IsSched cr3 v in
    let same : y.0 ≡ v'.slot = some_inj (sym y.1 ∙ v'.at) in
    elim (ℕ_discrete y.0 t) [
      | yes e ↦ (1, omega arith, omega arith, y.1 ∙ ap some e)
      | no ne ↦
          let near = y.2 ne in
          let rest =
            waits cr3 d t (yield_task cr3 s) v' l near.1 (omega (arith, rw same at near.0)) in
          (suc rest.0, omega arith, omega (arith, rest.2), rest.3)
    ]

-- From a well-formed state, a ready task runs after at most 15 calls of `yield`, whatever the other
-- tasks are, as long as they do nothing but yield.
pub yields_reach :
    {s : Sched} (cr3 t : ℕ)
    → IsSched s
    → t < 16
    → (task_at s.tasks t).state ≡ ready
    → (k : ℕ) × (0 < k) × (k ≤ 15) × ((yields cr3 k s).running_task ≡ some t)
yields_reach {s} cr3 t v l r =
    let w = waits cr3 (distance v.slot t) t s v l r (omega arith) in
    (w.0, w.1, omega (arith, w.2), w.3)
