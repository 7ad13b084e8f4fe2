-- ===== src/Task/Pick.antt =====
-- `pick_next_ready` of fs/task.c: the first ready task after the running one, round the table.
use artyom_x.Base.{
  ℕ, zero, suc, ◌+◌, ◌-◌, ◌%◌, ◌≤◌, ◌<◌, ◌≡◌, refl, Bool, true, false, some, List, arith, leb, ◌≢◌,
  dec_lt, Bool-cases, inl, inr,
}
use artyom_x.Task.{
  Task, TaskState, Sched, task_at, is_ready, is_live, ready, running, terminated, blocked,
  pick_from, pick_next_ready,
}
use artyom_x.Task.Table.{IsSched, live_below_two}

abbrev pub ready_at : List Task → ℕ → ℕ → Bool
ready_at ts start k = is_ready (task_at ts ((start + k) % 16)).state

-- The slot picked stands `offset` places behind `start`, and no ready one stands nearer.
pub record Picked (ts : List Task) (start off t : ℕ) : Type 0 where
  pub offset : ℕ
  pub from : off ≤ offset
  pub slot : t ≡ (start + offset) % 16
  pub is_ready : ready_at ts start offset ≡ true
  pub first : (j : ℕ) → off ≤ j → j < offset → ready_at ts start j ≡ false

pub pick_from-Picked :
    (ts : List Task) (start n off k : ℕ)
    → off ≤ k
    → k < off + n
    → ready_at ts start k ≡ true
    → (t : ℕ) × (pick_from ts start n off ≡ some t) × Picked ts start off t
unfolding pick_from
pick_from-Picked ts start zero off k a b r = absurd (omega arith)
pick_from-Picked ts start (suc n) off k a b r = elim (Bool-cases (ready_at ts start off)) [
  | inl here ↦ (
    (start + off) % 16,
    rw here,
    record {
      offset = off;
      from = omega arith;
      slot = refl;
      is_ready = here;
      first = λ j x y. absurd (omega arith);
    },
  )
  | inr not_here ↦
      let later : suc off ≤ k = elim (dec_lt off k) [
        | yes h ↦ h
        | no h ↦ let e : k ≡ off = omega arith in absurd (differ (rw e at r) not_here)
      ] in
      let rest = pick_from-Picked ts start n (off + 1) k (omega arith) (omega arith) r in
      (
        rest.0,
        rw not_here rest.1,
        record {
          offset = rest.2.offset;
          from = omega (arith, rest.2.from);
          slot = rest.2.slot;
          is_ready = rest.2.is_ready;
          first = λ j x y. elim (dec_lt off j) [
            | yes h ↦ rest.2.first j (omega arith) y
            | no h ↦ let e : j ≡ off = omega arith in rw e not_here
          ];
        },
      )
]
  where
    differ : ready_at ts start off ≡ true → ready_at ts start off ≡ false → ⊥
    differ p q = cc

ready-is_live : (x : TaskState) → is_ready x ≡ true → is_live x ≡ true
ready-is_live ready h = refl
ready-is_live terminated h = cc
ready-is_live running h = cc
ready-is_live blocked h = cc

pub two_live :
    {s : Sched} (v : IsSched s) (t : ℕ)
    → t < 16
    → (task_at s.tasks t).state ≡ ready
    → (2 ≤ s.task_count) × (t ≢ v.slot)
two_live {s} v t l r = (counted, different)
  where
    different : t ≢ v.slot
    different e = clash (rw e at r)
      where
        clash : (task_at s.tasks v.slot).state ≡ ready → ⊥
        clash q = cc v.is_running

    slot_live : is_live (task_at s.tasks v.slot).state ≡ true
    slot_live = rw v.is_running

    t_live : is_live (task_at s.tasks t).state ≡ true
    t_live = rw r

    counted : 2 ≤ s.task_count
    counted = elim (dec_lt t v.slot) [
      | yes h ↦
          omega (arith, v.counted, live_below_two s.tasks t v.slot 16 h v.slot_in t_live slot_live)
      | no h ↦
          let order : v.slot < t = omega (arith, different) in
          omega (arith, v.counted, live_below_two s.tasks v.slot t 16 order l slot_live t_live)
    ]

-- Offset of slot `t` from slot `r`, round the table.
abbrev pub distance : ℕ → ℕ → ℕ
distance r t = (t + 16 - r) % 16

-- Some ready task is there: the one picked is the first behind the running one.
pub pick_next_ready-Picked :
    {s : Sched} (v : IsSched s) (t : ℕ)
    → t < 16
    → (task_at s.tasks t).state ≡ ready
    → (n : ℕ) × (pick_next_ready s ≡ some n)
      × (p : Picked s.tasks v.slot 1 n) × (p.offset ≤ distance v.slot t)
unfolding pick_next_ready
pick_next_ready-Picked {s} v t l r =
    let two = two_live v t l r in
    let more : leb s.task_count 1 ≡ false = ground (arith, two.0) in
    let back : (v.slot + distance v.slot t) % 16 ≡ t = omega (arith, v.slot_in) in
    let here : ready_at s.tasks v.slot (distance v.slot t) ≡ true = rw (back, r) in
    let p =
      pick_from-Picked s.tasks v.slot 16 1 (distance v.slot t) (omega (arith, two.1, v.slot_in))
        (omega arith) here in
    (p.0, rw (v.at, more) p.1, p.2, nearest p.2 here)
  where
    clash : {b : Bool} → b ≡ true → b ≡ false → ⊥
    clash x y = cc

    nearest :
        {n : ℕ} (p : Picked s.tasks v.slot 1 n)
        → ready_at s.tasks v.slot (distance v.slot t) ≡ true
        → p.offset ≤ distance v.slot t
    nearest p here = elim (dec_lt (distance v.slot t) p.offset) [
      | yes h ↦
          let apart = (two_live v t l r).1 in
          absurd (clash here (p.first (distance v.slot t) (omega (arith, apart, v.slot_in)) h))
      | no h ↦ omega arith
    ]

ready_state : (x : TaskState) → is_ready x ≡ true → x ≡ ready
ready_state ready h = refl
ready_state terminated h = cc
ready_state running h = cc
ready_state blocked h = cc

pick_from_sound :
    (ts : List Task) (start n off t : ℕ)
    → pick_from ts start n off ≡ some t
    → (t < 16) × ((task_at ts t).state ≡ ready)
unfolding pick_from
pick_from_sound ts start zero off t = λ found. cc
pick_from_sound ts start (suc n) off t =
    let here = (start + off) % 16 in
    elim (Bool-cases (is_ready (task_at ts here).state)) [
      | inl r ↦
          rw r
            (λ found. let at : here ≡ t = ground arith in rw (← at) (omega arith, ready_state _ r))
      | inr nr ↦ rw nr (pick_from_sound ts start n (off + 1) t)
    ]

pub pick_sound :
    (s : Sched) (start t : ℕ)
    → s.running_task ≡ some start
    → pick_next_ready s ≡ some t
    → (t < 16) × ((task_at s.tasks t).state ≡ ready)
unfolding pick_next_ready
pick_sound s start t at = rw at (elim (Bool-cases (leb s.task_count 1)) [
  | inl few ↦ rw few (λ found. cc)
  | inr more ↦ rw more (pick_from_sound s.tasks start 16 1 t)
])

-- What `pick_next_ready` answers is a ready task of the table.
pub pick_next_ready_sound :
    {s : Sched} (t : ℕ)
    → IsSched s
    → pick_next_ready s ≡ some t
    → (t < 16) × ((task_at s.tasks t).state ≡ ready)
pick_next_ready_sound {s} t v found = pick_sound s v.slot t v.at found
