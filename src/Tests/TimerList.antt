-- ===== src/Tests/TimerList.antt =====
-- TimerList with the timers 1, 2 and 3, which expire at 30, 10 and 20.
use unix_network_programming.Base.{
  ℕ, zero, suc, ◌≤◌, ◌<◌, ◌≡◌, refl, List, [], ◌∷◌, Option, none, some, ◌==◌, if◌then◌else◌, All,
  arith,
}
use unix_network_programming.TimerList.{
  Node, Timers, and_then, add_timer, del_timer, adjust_timer, tick,
}
use unix_network_programming.TimerList.Chains.{Sorted, expire_of}
use unix_network_programming.TimerList.Insert.{IsList, add_timer_lem}
use unix_network_programming.TimerList.Delete.{Removed, del_timer_lem}
use unix_network_programming.TimerList.Adjust.{adjust_timer_lem}
use unix_network_programming.TimerList.Tick.{due, pending, Ticked, tick_lem}

abbrev expires : ℕ → ℕ
expires x = if x == 1 then 30 else if x == 2 then 10 else 20

abbrev empty : Timers
empty = record {
  node = λ x. record { expire = expires x; prev = none; next = none };
  head = none;
  tail = none;
  deleted = [];
  called = [];
}

-- The addresses from a pointer on.
abbrev walk : ℕ → (ℕ → Node) → Option ℕ → List ℕ
walk fuel node none = []
walk zero node (some x) = []
walk (suc fuel) node (some x) = x ∷ walk fuel node (node x).next

abbrev order : Option Timers → List ℕ × List ℕ
order none = ([], [])
order (some s) = (walk 9 s.node s.head, s.deleted)

abbrev three : Option Timers
three =
    and_then (and_then (add_timer 0 (some 1) empty) (add_timer 1 (some 2))) (add_timer 2 (some 3))

added : order three ≡ (2 ∷ 3 ∷ 1 ∷ [], [])
unfolding add_timer
added = refl

removed : order (and_then three (del_timer 3)) ≡ (2 ∷ 1 ∷ [], 3 ∷ [])
unfolding add_timer del_timer
removed = refl

abbrev raise : ℕ → ℕ → Timers → Timers
raise a e s = record s { node = λ x. if x == a then record (s.node x) { expire = e } else s.node x }

adjusted : order (and_then three (λ s. adjust_timer 3 2 (raise 2 25 s))) ≡ (3 ∷ 2 ∷ 1 ∷ [], [])
unfolding add_timer adjust_timer
adjusted = refl

ticked : order (and_then three (tick 3 20)) ≡ (1 ∷ [], 2 ∷ 3 ∷ [])
unfolding add_timer tick
ticked = refl

abbrev one : Timers
one = record empty { head = some 1; tail = some 1 }

one-IsList : IsList one (1 ∷ [])
one-IsList = ((refl, refl, (refl, refl)), (tt, tt))

add_timer_lem_example :
    (s' : Timers) × (add_timer 1 (some 2) one ≡ some s')
    × IsList s' (2 ∷ 1 ∷ [])
    × Sorted (expire_of one.node) (2 ∷ 1 ∷ [])
    × ((y : ℕ) → expire_of s'.node y ≡ expire_of one.node y)
add_timer_lem_example =
    add_timer_lem 1 2 (1 ∷ []) one (omega arith) one-IsList (tt, tt) (omega arith, tt) refl refl

tick_lem_example :
    Ticked 30 (1 ∷ []) one (tick 1 30 one)
    × All (λ x. expire_of one.node x ≤ 30) (due (expire_of one.node) 30 (1 ∷ []))
    × All (λ x. 30 < expire_of one.node x) (pending (expire_of one.node) 30 (1 ∷ []))
tick_lem_example = tick_lem 1 30 (1 ∷ []) one (omega arith) one-IsList (tt, tt)

-- The list of the timers 2, 3 and 1, as it stands after the expire of 2 was raised to 25.
abbrev linked : ℕ → Node
linked x =
    if x == 2
    then record { expire = 25; prev = none; next = some 3 }
    else if x == 3
    then record { expire = 20; prev = some 2; next = some 1 }
    else record { expire = 30; prev = some 3; next = none }

abbrev late : Timers
late = record { node = linked; head = some 2; tail = some 1; deleted = []; called = [] }

late-IsList : IsList late (2 ∷ 3 ∷ 1 ∷ [])
late-IsList = (
  (refl, refl, (refl, refl, (refl, refl, (refl, refl)))),
  ((omega arith, (omega arith, tt)), ((omega arith, tt), (tt, tt))),
)

del_timer_lem_example : Removed 3 (2 ∷ 1 ∷ []) late (del_timer 3 late)
del_timer_lem_example = del_timer_lem 3 (2 ∷ []) (1 ∷ []) late late-IsList

adjust_timer_lem_example :
    (s' : Timers) × (adjust_timer 2 2 late ≡ some s')
    × IsList s' (3 ∷ 2 ∷ 1 ∷ [])
    × Sorted (expire_of s'.node) (3 ∷ 2 ∷ 1 ∷ [])
adjust_timer_lem_example =
    adjust_timer_lem 2 2 [] (3 ∷ 1 ∷ []) late (omega arith) late-IsList
      ((omega arith, tt), (tt, tt)) tt
