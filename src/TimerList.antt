-- ===== src/TimerList.antt =====
-- youshuang/ch11_timer/lst_timer.h: timers in a list that is sorted by the time they expire at, linked
-- both ways. An address is a number, and NULL is `none`.
pub mod Chains
pub mod Links
pub mod Insert
pub mod Tick
pub mod Segments
pub mod Delete
pub mod Adjust
use unix_network_programming.Base.{
  ℕ, zero, suc, ◌+◌, List, [], ◌∷◌, ◌++◌, Bool, true, false, ◌&&◌, Option, none, some, ◌==◌, ltb,
  if◌then◌else◌,
}

-- util_timer; its callback and its data are named by its address.
pub record Node : Type 0 where
  pub expire : ℕ
  pub prev : Option ℕ
  pub next : Option ℕ

-- sort_timer_lst on the memory, with the timers that were deleted and those whose callback was called.
pub record Timers : Type 0 where
  pub node : ℕ → Node
  pub head : Option ℕ
  pub tail : Option ℕ
  pub deleted : List ℕ
  pub called : List ℕ

-- A write to one timer.
abbrev pub write : ℕ → (Node → Node) → (ℕ → Node) → ℕ → Node
write a f node x = if x == a then f (node x) else node x

abbrev pub set_next : ℕ → Option ℕ → Timers → Timers
set_next a v s = record s { node = write a (λ n. record n { next = v }) s.node }

abbrev pub set_prev : ℕ → Option ℕ → Timers → Timers
set_prev a v s = record s { node = write a (λ n. record n { prev = v }) s.node }

-- The two ends of the loop of the private add_timer.
abbrev pub link : ℕ → ℕ → ℕ → Timers → Timers
link timer prev tmp s =
    set_prev timer (some prev)
      (set_prev tmp (some timer) (set_next timer (some tmp) (set_next prev (some timer) s)))

abbrev pub append : ℕ → ℕ → Timers → Timers
append timer prev s =
    record (set_next timer none (set_prev timer (some prev) (set_next prev (some timer) s))) {
      tail = some timer;
    }

-- add_timer(timer, lst_head), where `prev` and `tmp` are its variables. `none` is that it runs on.
pub insert_after : ℕ → ℕ → ℕ → Option ℕ → Timers → Option Timers
insert_after fuel timer prev none s = some (append timer prev s)
insert_after zero timer prev (some tmp) s = none
insert_after (suc fuel) timer prev (some tmp) s =
    let rest = insert_after fuel timer tmp (s.node tmp).next s in
    if ltb (s.node timer).expire (s.node tmp).expire then some (link timer prev tmp s) else rest

abbrev pub push_front : ℕ → ℕ → Timers → Timers
push_front timer head s = record (set_prev head (some timer) (set_next timer (some head) s)) {
  head = some timer;
}

pub add_to : ℕ → ℕ → Option ℕ → Timers → Option Timers
unfolding insert_after
add_to fuel timer none s = some (record s { head = some timer; tail = some timer })
add_to fuel timer (some head) s =
    let rest = insert_after fuel timer head (s.node head).next s in
    if ltb (s.node timer).expire (s.node head).expire then some (push_front timer head s) else rest

-- add_timer(timer)
unfoldable pub add_timer : ℕ → Option ℕ → Timers → Option Timers
unfolding add_to
add_timer fuel none s = some s
add_timer fuel (some timer) s = add_to fuel timer s.head s

-- `delete`
abbrev pub delete : ℕ → Timers → Timers
delete a s = record s { deleted = s.deleted ++ a ∷ [] }

-- head = next; if(head != NULL) head->prev = NULL;
abbrev pub new_head : Option ℕ → Timers → Timers
new_head none s = record s { head = none }
new_head (some x) s = set_prev x none (record s { head = some x })

abbrev pub expired : ℕ → Timers → Timers
expired x s = delete x (new_head (s.node x).next (record s { called = s.called ++ x ∷ [] }))

-- The loop of tick() at the time `cur`. The callbacks leave the list as it is.
pub tick_loop : ℕ → ℕ → Option ℕ → Timers → Option Timers
tick_loop fuel cur none s = some s
tick_loop zero cur (some x) s = none
tick_loop (suc fuel) cur (some x) s =
    let rest = tick_loop fuel cur (s.node x).next (expired x s) in
    if ltb cur (s.node x).expire then some s else rest

unfoldable pub tick : ℕ → ℕ → Timers → Option Timers
unfolding tick_loop
tick fuel cur s = tick_loop fuel cur s.head s

-- Whether a pointer names the timer.
abbrev pub names : Option ℕ → ℕ → Bool
names none a = false
names (some x) a = x == a

-- p->next and p->prev for a pointer; NULL is followed nowhere in a list, and would be a fault.
abbrev pub with_next : Option ℕ → Option ℕ → Timers → Option Timers
with_next none v s = none
with_next (some a) v s = some (set_next a v s)

abbrev pub with_prev : Option ℕ → Option ℕ → Timers → Option Timers
with_prev none v s = none
with_prev (some a) v s = some (set_prev a v s)

abbrev pub and_then : Option Timers → (Timers → Option Timers) → Option Timers
and_then none f = none
and_then (some s) f = f s

-- timer->prev->next = timer->next; timer->next->prev = timer->prev;
abbrev pub unlink : ℕ → Timers → Option Timers
unlink timer s =
    and_then (with_next (s.node timer).prev (s.node timer).next s)
      (λ u. with_prev (u.node timer).next (u.node timer).prev u)

abbrev pub delete_some : ℕ → Option Timers → Option Timers
delete_some timer o = and_then o (λ s. some (delete timer s))

-- del_timer(timer)
unfoldable pub del_timer : ℕ → Timers → Option Timers
del_timer timer s =
    if names s.head timer && names s.tail timer
    then some (record (delete timer s) { head = none; tail = none })
    else if names s.head timer
    then delete_some timer
        (with_prev (s.node timer).next none (record s { head = (s.node timer).next }))
    else if names s.tail timer
    then delete_some timer
        (with_next (s.node timer).prev none (record s { tail = (s.node timer).prev }))
    else delete_some timer (unlink timer s)

-- adjust_timer(timer), whose expire was raised.
unfoldable pub move_back : ℕ → ℕ → ℕ → Timers → Option Timers
unfolding insert_after
move_back fuel timer tmp s =
    if names s.head timer
    then (let t = set_next timer none (set_prev tmp none (record s { head = some tmp })) in
        insert_after fuel timer tmp (t.node tmp).next t)
    else and_then (unlink timer s) (λ t. insert_after fuel timer tmp (t.node tmp).next t)

unfoldable pub adjust_before : ℕ → ℕ → Option ℕ → Timers → Option Timers
unfolding move_back
adjust_before fuel timer none s = some s
adjust_before fuel timer (some tmp) s =
    if ltb (s.node timer).expire (s.node tmp).expire then some s else move_back fuel timer tmp s

unfoldable pub adjust_timer : ℕ → ℕ → Timers → Option Timers
unfolding adjust_before
adjust_timer fuel timer s = adjust_before fuel timer (s.node timer).next s
