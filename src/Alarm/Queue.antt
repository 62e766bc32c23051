-- ===== src/Alarm/Queue.antt =====
-- The head of the event queue of kern/kalarm.c: popping due events, and moving the scheduler's event.
use mathlib.Core.Path.{subst}
use bradyp_os.Base.{
  ℕ, ◌<◌, ◌≡◌, refl, ◌∙◌, true, false, Option, none, some, List, inl, inr, Bool-cases, [], ◌∷◌,
  ◌==◌, arith, no_result, some_inj,
}
use bradyp_os.Alarm.{
  Alarm, head, after, read, write, set_next, set_prev, set_prev?, put, find_from,
  update_kalarm_event, relink, prepare, unlink_event, pop_kalarm_event, pop_from, chain_limit,
}
use bradyp_os.Alarm.Chain.{IsSegment, IsQueue, has, Distinct, find_from-last_slot}

-- Segments are the same in two states with the same links.
pub IsSegment-frame :
    (s s' : Alarm) (p : Option ℕ) (xs : List ℕ) (q : Option ℕ)
    → ((e : ℕ) → has e xs ≡ true → (s'.events e).next ≡ (s.events e).next)
    → IsSegment s p xs q
    → IsSegment s' p xs q
IsSegment-frame s s' p [] q same c = c
IsSegment-frame s s' p (x ∷ xs) q same c =
    rw (same x (ground arith))
      (c.0, IsSegment-frame s s' (s.events x).next xs q (λ e i. same e (ground arith)) c.1)

has_ne : (x : ℕ) (xs : List ℕ) (e : ℕ) → has x xs ≡ false → has e xs ≡ true → (e == x) ≡ false
has_ne x [] e out i = cc
has_ne x (y ∷ ys) e out i = elim (Bool-cases (y == e)) [
  | inl hit ↦ ground arith
  | inr miss ↦ has_ne x ys e (ground arith) (ground arith)
]

pop_from_links :
    (s : Alarm) (c e : ℕ) → (e == c) ≡ false → ((pop_from s c).events e).next ≡ (s.events e).next
unfolding pop_from put
pop_from_links s c e n = ground arith

pop_from_next : (s : Alarm) (c : ℕ) → (pop_from s c).next_event ≡ (s.events c).next
unfolding pop_from
pop_from_next s c = ground arith

pop_from_clears :
    (s : Alarm) (c : ℕ)
    → (((pop_from s c).events c).next ≡ none) × (((pop_from s c).events c).prev ≡ none)
unfolding pop_from put
pop_from_clears s c = ground arith

-- Popping from a queue of distinct events returns the first one, leaves the others queued in
-- order, and clears the links of the event.
pub pop-IsQueue :
    (s : Alarm) (x : ℕ) (xs : List ℕ)
    → IsQueue s (x ∷ xs)
    → Distinct (x ∷ xs)
    → (s' : Alarm) × (pop_kalarm_event s ≡ some (x, s'))
      × IsQueue s' xs
      × ((s'.events x).next ≡ none)
      × ((s'.events x).prev ≡ none)
unfolding pop_kalarm_event
pop-IsQueue s x xs q d = (
  pop_from s x,
  ground arith,
  rw (pop_from_next s x) (
      IsSegment-frame s (pop_from s x) (s.events x).next xs none
        (λ e i. pop_from_links s x e (has_ne x xs e d.0 i)) q.1),
  (pop_from_clears s x).0,
  (pop_from_clears s x).1,
)

set_prev?-next_event : (s : Alarm) (p q : Option ℕ) → (set_prev? s p q).next_event ≡ s.next_event
unfolding set_prev?
set_prev?-next_event s none q = refl
set_prev?-next_event s (some e) q = refl

unlink_alone :
    (s : Alarm) (ev : ℕ)
    → IsQueue s (ev ∷ [])
    → (s.events ev).prev ≡ none
    → (unlink_event s ev).next_event ≡ none
unfolding unlink_event
unlink_alone s ev q p = ground arith

relink-next_event :
    (s : Alarm) (ev when e : ℕ)
    → (relink s ev when (after e)).next_event ≡ (unlink_event s ev).next_event
unfolding relink prepare write set_next set_prev
relink-next_event s ev when e = rw set_prev?-next_event

write-read : (s : Alarm) (e : ℕ) (q : Option ℕ) → ((write s (after e) q).events e).next ≡ q
unfolding write put
write-read s e q = ground arith

relink_self : (s : Alarm) (ev when : ℕ) → ((relink s ev when (after ev)).events ev).next ≡ some ev
unfolding relink
relink_self s ev when = write-read (prepare s ev when (after ev)) ev (some ev)

-- Moving the only queued event, which has no `prev`, to a later time returns, empties the queue,
-- and links the event to itself.
pub update_loses :
    (s : Alarm) (ev when : ℕ)
    → IsQueue s (ev ∷ [])
    → (s.events ev).prev ≡ none
    → (s.events ev).when < when
    → (s' : Alarm) × (update_kalarm_event s ev when ≡ some s')
      × (s'.next_event ≡ none)
      × ((s'.events ev).next ≡ some ev)
update_loses s ev when q p later = (
  relink s ev when (after ev),
  moved,
  relink-next_event s ev when ev ∙ unlink_alone s ev q p,
  relink_self s ev when,
)
  where
    found : find_from chain_limit s head when ≡ some (after ev)
    found =
        find_from-last_slot chain_limit s head when (ev ∷ []) none (omega arith) (unfold read in q)
          (later, tt) tt

    moved : update_kalarm_event s ev when ≡ some (relink s ev when (after ev))
    moved = unfold update_kalarm_event in rw (found, update_kalarm_event)

-- The times, kinds and arguments of the events are the same.
pub record SameEvents (s s' : Alarm) : Type 0 where
  pub times : (e : ℕ) → (s'.events e).when ≡ (s.events e).when
  pub kinds : (e : ℕ) → (s'.events e).kind ≡ (s.events e).kind
  pub payloads : (e : ℕ) → (s'.events e).payload ≡ (s.events e).payload

pop_from-SameEvents : (s : Alarm) (c : ℕ) → SameEvents s (pop_from s c)
unfolding pop_from put set_prev set_next set_prev?
pop_from-SameEvents s c = record {
  times = λ e. ground arith;
  kinds = λ e. ground arith;
  payloads = λ e. ground arith;
}

pop_from-clock : (s : Alarm) (c : ℕ) → (pop_from s c).current_time ≡ s.current_time
unfolding pop_from set_prev set_next set_prev?
pop_from-clock s c = ground arith

-- Popping keeps the clock and the times, kinds and arguments of the events.
pub pop-kept :
    (s s' : Alarm) (x : ℕ)
    → pop_kalarm_event s ≡ some (x, s')
    → SameEvents s s' × (s'.current_time ≡ s.current_time)
unfolding pop_kalarm_event
pop-kept s s' x h = kept s.next_event h
  where
    kept :
        (o : Option ℕ)
        → elim o as (λ y. Option (ℕ × Alarm)) [ none ↦ none | some c ↦ some (c, pop_from s c) ]
          ≡ some (x, s')
        → SameEvents s s' × (s'.current_time ≡ s.current_time)
    kept none e = no_result e
    kept (some c) e =
        subst (λ (r : ℕ × Alarm). SameEvents s r.1 × (r.1.current_time ≡ s.current_time))
          (some_inj e) (pop_from-SameEvents s c, pop_from-clock s c)
