-- ===== src/Alarm.antt =====
-- kern/kalarm.c: the kernel's queue of timed events, a doubly linked list that the events themselves
-- carry. An event is named by the index under which `events` keeps it: a `struct kalarm_event *`
-- that is not NULL is `some` of it.
pub mod Chain
pub mod Queue
pub mod Insertion
mod Examples
use bradyp_os.Base.{
  ℕ, zero, suc, ◌+◌, Bool, true, false, Option, none, some, ltb, leb, ◌==◌, if◌then◌else◌,
}

-- `kind` and `payload` are the C fields `type` and `data`.
pub record Event : Type 0 where
  pub when : ℕ
  pub kind : ℕ
  pub payload : ℕ
  pub prev : Option ℕ
  pub next : Option ℕ

-- The static variables of kalarm.c, and the events that they point to.
pub record Alarm : Type 0 where
  pub next_event : Option ℕ
  pub current_time : ℕ
  pub events : ℕ → Event

unfoldable pub kalarm_init : Alarm → Alarm
kalarm_init s = record s { current_time = 0; next_event = none }

-- `events[e] = v`
unfoldable pub put : (ℕ → Event) → ℕ → Event → ℕ → Event
put f e v i = if i == e then v else f i

abbrev pub is_event : Option ℕ → ℕ → Bool
is_event none e = false
is_event (some i) e = i == e

-- `p->prev = q` and `p->next = q`
unfoldable pub set_prev : Alarm → ℕ → Option ℕ → Alarm
unfolding put
set_prev s e q = record s { events = put s.events e (record (s.events e) { prev = q }) }

unfoldable pub set_next : Alarm → ℕ → Option ℕ → Alarm
unfolding put
set_next s e q = record s { events = put s.events e (record (s.events e) { next = q }) }

-- `if (p) p->prev = q;` and `if (p) p->next = q;`
unfoldable pub set_prev? : Alarm → Option ℕ → Option ℕ → Alarm
unfolding set_prev
set_prev? s none q = s
set_prev? s (some e) q = set_prev s e q

unfoldable pub set_next? : Alarm → Option ℕ → Option ℕ → Alarm
unfolding set_next
set_next? s none q = s
set_next? s (some e) q = set_next s e q

-- A `struct kalarm_event **`: `&next_event`, or the address of an event's field `next`.
pub data Slot : Type 0 where
  head : Slot
  after : ℕ → Slot

unfoldable pub read : Alarm → Slot → Option ℕ
read s head = s.next_event
read s (after e) = (s.events e).next

unfoldable pub write : Alarm → Slot → Option ℕ → Alarm
unfolding set_next
write s head q = record s { next_event = q }
write s (after e) q = set_next s e q

-- The loop of `find_insertion_point`; `none` where it has not ended after `fuel` rounds.
pub find_from : ℕ → Alarm → Slot → ℕ → Option Slot
find_from zero s cur when = none
find_from (suc fuel) s cur when = elim (read s cur) [
  | none ↦ some cur
  | some e ↦ elim (ltb (s.events e).when when) [
    | true ↦ find_from fuel s (after e) when
    | false ↦ some cur
  ]
]

-- There are 17 events: one for each of the 16 threads, and the one of the scheduler. A chain
-- without a cycle ends within 18 rounds.
abbrev pub chain_limit : ℕ
chain_limit = 18

unfoldable pub find_insertion_point : Alarm → ℕ → Option Slot
unfolding find_from read
find_insertion_point s when = find_from chain_limit s head when

-- `none`: the loop does not end, or the assertion fails.
link : Alarm → ℕ → Slot → Option Alarm
unfolding write set_prev set_next set_prev? read
link s ev slot =
    let old = read s slot in
    let s1 = set_prev (write s slot (some ev)) ev old in
    let s2 : Alarm = elim old [
      | none ↦ s1
      | some o ↦ set_next (set_prev? s1 (s1.events o).next (some ev)) o (some ev)
    ] in
    if is_event old ev then none else some s2

unfoldable pub register_kalarm_event : Alarm → ℕ → Option Alarm
unfolding find_insertion_point link
register_kalarm_event s ev = elim (find_insertion_point s (s.events ev).when) [
  | none ↦ none
  | some slot ↦ link s ev slot
]

unfoldable pub unlink_event : Alarm → ℕ → Alarm
unfolding set_prev? set_next?
unlink_event s ev =
    let s1 = set_prev? s (s.events ev).next (s.events ev).prev in
    let s2 = set_next? s1 (s1.events ev).prev (s1.events ev).next in
    if is_event s2.next_event ev then record s2 { next_event = (s2.events ev).next } else s2

abbrev pub next_of : Alarm → Option ℕ → Option ℕ
next_of s none = none
next_of s (some e) = (s.events e).next

-- The unlinked event with its new time and links; the insertion point was looked up before.
prepare : Alarm → ℕ → ℕ → Slot → Alarm
unfolding unlink_event read put set_prev set_next set_prev?
prepare s event when slot =
    let s1 = unlink_event s event in
    let s2 = record s1 {
      events = put s1.events event (record (s1.events event) { when = when });
    } in
    let s3 = set_prev s2 event (read s2 slot) in
    let s4 = set_next s3 event (next_of s3 (read s3 slot)) in
    set_prev? s4 (read s4 slot) (some event)

relink : Alarm → ℕ → ℕ → Slot → Alarm
unfolding prepare write
relink s event when slot = write (prepare s event when slot) slot (some event)

unfoldable pub update_kalarm_event : Alarm → ℕ → ℕ → Option Alarm
unfolding find_insertion_point relink
update_kalarm_event s event when = elim (find_insertion_point s when) [
  | none ↦ none
  | some slot ↦ some (relink s event when slot)
]

unfoldable pub has_pending_kalarm : Alarm → Bool
has_pending_kalarm s = elim s.next_event [
  | none ↦ false
  | some e ↦ leb (s.events e).when s.current_time
]

-- The event at the head, which the caller has made sure of, and the queue without it.
pop_from : Alarm → ℕ → Alarm
unfolding set_prev set_next set_prev?
pop_from s current =
    let next = (s.events current).next in
    let s1 = set_prev? s next none in
    record (set_prev (set_next s1 current none) current none) { next_event = next }

unfoldable pub pop_kalarm_event : Alarm → Option (ℕ × Alarm)
unfolding pop_from
pop_kalarm_event s = elim s.next_event [
  | none ↦ none
  | some current ↦ some (current, pop_from s current)
]
