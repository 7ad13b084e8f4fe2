-- ===== src/Task/Table.antt =====
-- The task table of fs/task.c: what its writes leave alone, and how many tasks are live.
use artyom_x.Base.{
  ℕ, zero, suc, ◌+◌, ◌^◌, ◌≤◌, ◌<◌, ◌≡◌, refl, ap, ◌∙◌, true, Option, none, some, List, [], ◌∷◌,
  arith, ltb, ◌==◌, if◌then◌else◌, set, length, length-set, get_or-set, dec_lt, Bool-cases, inl,
  inr,
}
use artyom_x.Task.{
  Task, running, Sched, no_task, task_at, is_live, set_next, set_prev, insert_after, link_at,
  task_list_insert, unlink, task_list_remove, is_slot,
}

-- A task but for its list pointers.
abbrev pub unlinked : Task → Task
unlinked t = record t { next = none; prev = none }

-- What the list pointers have no part in.
pub record SameCore (ts us : List Task) : Type 0 where
  pub same_length : length us ≡ length ts
  pub same_state : (j : ℕ) → (task_at us j).state ≡ (task_at ts j).state
  pub same_pid : (j : ℕ) → (task_at us j).pid ≡ (task_at ts j).pid
  pub same_stack : (j : ℕ) → (task_at us j).stack ≡ (task_at ts j).stack
  pub same_body : (j : ℕ) → unlinked (task_at us j) ≡ unlinked (task_at ts j)

SameCore-refl : (ts : List Task) → SameCore ts ts
SameCore-refl ts = record {
  same_length = refl;
  same_state = λ j. refl;
  same_pid = λ j. refl;
  same_stack = λ j. refl;
  same_body = λ j. refl;
}

SameCore-trans : {ts us vs : List Task} → SameCore ts us → SameCore us vs → SameCore ts vs
SameCore-trans a b = record {
  same_length = b.same_length ∙ a.same_length;
  same_state = λ j. b.same_state j ∙ a.same_state j;
  same_pid = λ j. b.same_pid j ∙ a.same_pid j;
  same_stack = λ j. b.same_stack j ∙ a.same_stack j;
  same_body = λ j. b.same_body j ∙ a.same_body j;
}

set_outside : (ts : List Task) (i : ℕ) (t : Task) → length ts ≤ i → set ts i t ≡ ts
set_outside [] i t h = refl
set_outside (x ∷ ts) zero t h = absurd (omega arith)
set_outside (x ∷ ts) (suc i) t h = ap (λ r. x ∷ r) (set_outside ts i t (omega arith))

-- A write that keeps all but the pointers of its slot.
set-SameCore :
    (ts : List Task) (i : ℕ) (t : Task)
    → t.state ≡ (task_at ts i).state
    → t.pid ≡ (task_at ts i).pid
    → t.stack ≡ (task_at ts i).stack
    → unlinked t ≡ unlinked (task_at ts i)
    → SameCore ts (set ts i t)
set-SameCore ts i t a b c d = elim (dec_lt i (length ts)) [
  | yes h ↦ record {
    same_length = length-set ts i t;
    same_state = λ j. at (λ u. u.state) h a j;
    same_pid = λ j. at (λ u. u.pid) h b j;
    same_stack = λ j. at (λ u. u.stack) h c j;
    same_body = λ j. at unlinked h d j;
  }
  | no h ↦ rw (set_outside ts i t (omega arith)) (SameCore-refl ts)
]
  where
    at :
        {B : Type 0} (f : Task → B)
        → i < length ts
        → f t ≡ f (task_at ts i)
        → (j : ℕ) → f (task_at (set ts i t) j) ≡ f (task_at ts j)
    at f h e j = rw (get_or-set ts i j t no_task h) (elim (Bool-cases (j == i)) [
      | inl same ↦ let same' : j ≡ i = ground arith in rw (same, same') e
      | inr other ↦ rw other
    ])

set_next-SameCore : (p v : Option ℕ) (ts : List Task) → SameCore ts (set_next p v ts)
set_next-SameCore none v ts = SameCore-refl ts
set_next-SameCore (some i) v ts = set-SameCore ts i _ refl refl refl refl

set_prev-SameCore : (p v : Option ℕ) (ts : List Task) → SameCore ts (set_prev p v ts)
set_prev-SameCore none v ts = SameCore-refl ts
set_prev-SameCore (some i) v ts = set-SameCore ts i _ refl refl refl refl

insert_after-SameCore : (head t : ℕ) (ts : List Task) → SameCore ts (insert_after head t ts)
unfolding insert_after
insert_after-SameCore head t ts =
    let last = (task_at ts head).prev in
    SameCore-trans (set_next-SameCore last (some t) ts) (
      SameCore-trans (set_prev-SameCore (some t) last _) (
        SameCore-trans (set_next-SameCore (some t) (some head) _)
          (set_prev-SameCore (some head) (some t) _)))

-- What the list operations leave alone of the whole state.
pub record SameSched (s t : Sched) : Type 0 where
  pub tasks : SameCore s.tasks t.tasks
  pub running_task : t.running_task ≡ s.running_task
  pub task_count : t.task_count ≡ s.task_count
  pub next_pid : t.next_pid ≡ s.next_pid
  pub heap : t.heap ≡ s.heap

link_at-SameSched : (o : Option ℕ) (t : ℕ) (s : Sched) → SameSched s (link_at o t s)
unfolding link_at
link_at-SameSched none t s = record {
  tasks =
      SameCore-trans (set_next-SameCore (some t) (some t) s.tasks)
        (set_prev-SameCore (some t) (some t) (set_next (some t) (some t) s.tasks));
  running_task = refl;
  task_count = refl;
  next_pid = refl;
  heap = refl;
}
link_at-SameSched (some head) t s = record {
  tasks = insert_after-SameCore head t s.tasks;
  running_task = refl;
  task_count = refl;
  next_pid = refl;
  heap = refl;
}

pub task_list_insert-SameSched : (t : ℕ) (s : Sched) → SameSched s (task_list_insert t s)
unfolding task_list_insert
task_list_insert-SameSched t s = link_at-SameSched s.list_head t s

pub task_list_remove-SameSched : (t : ℕ) (s : Sched) → SameSched s (task_list_remove t s)
unfolding task_list_remove unlink
task_list_remove-SameSched t s = elim (Bool-cases (is_slot (task_at s.tasks t).next t)) [
  | inl alone ↦ rw alone (record {
    tasks = SameCore-refl s.tasks;
    running_task = refl;
    task_count = refl;
    next_pid = refl;
    heap = refl;
  })
  | inr more ↦ rw more (record {
    tasks = SameCore-trans (set_next-SameCore _ _ s.tasks) (set_prev-SameCore _ _ _);
    running_task = refl;
    task_count = refl;
    next_pid = refl;
    heap = refl;
  })
]

-- The number of live tasks among the first `n` slots.
unfoldable pub live_below : List Task → ℕ → ℕ
live_below ts zero = 0
live_below ts (suc n) = (if is_live (task_at ts n).state then 1 else 0) + live_below ts n

pub live_below-SameCore :
    {ts us : List Task} (n : ℕ) → SameCore ts us → live_below us n ≡ live_below ts n
unfolding live_below
live_below-SameCore zero c = refl
live_below-SameCore {ts} {us} (suc n) c =
    rw (c.same_state n) (omega (arith, live_below-SameCore {ts = ts} {us = us} n c))

pub live_below-live :
    (ts us : List Task) (n : ℕ)
    → ((j : ℕ) → is_live (task_at us j).state ≡ is_live (task_at ts j).state)
    → live_below us n ≡ live_below ts n
unfolding live_below
live_below-live ts us zero h = refl
live_below-live ts us (suc n) h = rw (h n) (omega (arith, live_below-live ts us n h))

-- A write changes the count by what it changes in its slot.
pub live_below-set :
    (ts : List Task) (i : ℕ) (t : Task) (n : ℕ)
    → i < length ts
    → live_below (set ts i t) n
        + (if is_live (task_at ts i).state then if ltb i n then 1 else 0 else 0)
      ≡ live_below ts n + (if is_live t.state then if ltb i n then 1 else 0 else 0)
unfolding live_below
live_below-set ts i t zero h = ground arith
live_below-set ts i t (suc n) h = rw (get_or-set ts i n t no_task h) (elim (Bool-cases (n == i)) [
  | inl same ↦
      let same' : n ≡ i = ground arith in rw same (ground (arith, same', live_below-set ts i t n h))
  | inr other ↦ rw other (ground (arith, live_below-set ts i t n h))
])

pub live_below_one :
    (ts : List Task) (i n : ℕ) → i < n → is_live (task_at ts i).state ≡ true → 1 ≤ live_below ts n
unfolding live_below
live_below_one ts i zero l h = absurd (omega arith)
live_below_one ts i (suc n) l h = elim (Bool-cases (i == n)) [
  | inl same ↦ let same' : n ≡ i = ground arith in rw (same', h) (omega arith)
  | inr other ↦ omega (arith, live_below_one ts i n (ground arith) h)
]

-- Two live tasks count as two.
pub live_below_two :
    (ts : List Task) (i j n : ℕ)
    → i < j
    → j < n
    → is_live (task_at ts i).state ≡ true
    → is_live (task_at ts j).state ≡ true
    → 2 ≤ live_below ts n
unfolding live_below
live_below_two ts i j zero a b h k = absurd (omega arith)
live_below_two ts i j (suc n) a b h k = elim (Bool-cases (j == n)) [
  | inl same ↦
      let same' : n ≡ j = ground arith in rw (same', k) (omega (arith, live_below_one ts i j a h))
  | inr other ↦ omega (arith, live_below_two ts i j n a (ground arith) h k)
]

pub live_below-le : (ts : List Task) (n : ℕ) → live_below ts n ≤ n
unfolding live_below
live_below-le ts zero = omega arith
live_below-le ts (suc n) = ground (arith, live_below-le ts n)

-- What holds of the scheduler while task `slot` runs.
pub record IsSched (s : Sched) : Type 0 where
  pub slot : ℕ
  pub at : s.running_task ≡ some slot
  pub storage : length s.tasks ≡ 16
  pub slot_in : slot < 16
  pub is_running : (task_at s.tasks slot).state ≡ running
  pub only : (j : ℕ) → (task_at s.tasks j).state ≡ running → j ≡ slot
  pub root_pid : (task_at s.tasks 0).pid ≡ 1
  pub root_live : is_live (task_at s.tasks 0).state ≡ true
  pub other_pids :
      (j : ℕ) → is_live (task_at s.tasks j).state ≡ true → (task_at s.tasks j).pid ≡ 1 → j ≡ 0
  pub fresh_pid : 2 ≤ s.next_pid
  pub small_pid : s.next_pid < 2 ^ 31
  pub counted : s.task_count ≡ live_below s.tasks 16
