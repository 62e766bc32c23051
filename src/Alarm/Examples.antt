-- ===== src/Alarm/Examples.antt =====
-- The event queue of kern/kalarm.c with up to three events.
use bradyp_os.Base.{ℕ, zero, suc, ◌≡◌, refl, Option, none, some, [], ◌∷◌, arith}
use bradyp_os.Alarm.{Event, Alarm, register_kalarm_event}
use bradyp_os.Alarm.Chain.{IsQueue}
use bradyp_os.Alarm.Insertion.{IsFresh, register_cuts}

abbrev event : ℕ → Option ℕ → Event
event when next = record { when = when; kind = 1; payload = 0; prev = none; next = next }

-- Event 0 is due at 10; event 1 at 20, and event 2 at 5.
abbrev times : ℕ → Event
times zero = event 10 none
times (suc zero) = event 20 none
times (suc (suc n)) = event 5 none

abbrev one_event : Alarm
one_event = record { next_event = some 0; current_time = 3; events = times }

one_event-IsQueue : IsQueue one_event (0 ∷ [])
one_event-IsQueue = (refl, refl)

one-IsFresh : IsFresh one_event 1 (0 ∷ [])
one-IsFresh = record { distinct = (refl, tt); out = refl; clear = refl; small = omega arith }

none-IsFresh : IsFresh one_event 2 []
none-IsFresh = record { distinct = tt; out = refl; clear = refl; small = omega arith }

register_cuts_example :
    (s' : Alarm) × (register_kalarm_event one_event 2 ≡ some s') × IsQueue s' (2 ∷ [])
register_cuts_example = register_cuts one_event 2 0 [] refl tt refl none-IsFresh refl refl
