-- ===== src/Alarm/Insertion.antt =====
-- What `register_kalarm_event` of kern/kalarm.c does to the queue: an event that is due after all
-- the others goes to the end; before another event it cuts the queue off.
use mathlib.Core.Path.{subst}
use bradyp_os.Base.{
  sym, ℕ, ◌<◌, ◌≡◌, refl, false, none, some, List, [], ◌∷◌, ◌++◌, ltb, ◌==◌, if◌then◌else◌, arith,
}
use bradyp_os.Base.Lists.{length}
use bradyp_os.Alarm.{
  Alarm, Slot, head, after, read, write, set_next, set_prev, set_prev?, put, link,
  register_kalarm_event, chain_limit,
}
use bradyp_os.Alarm.Chain.{
  IsSegment, IsQueue, last_slot, AllBefore, has, Distinct, find_from-last_slot, SameBefore,
  IsSegment-retarget, IsSegment-append, last_of, last_slot-after, ne-last_of,
  SameBefore-of_Distinct, read-last_slot,
}

-- `ev` is not queued, and its link is clear.
pub record IsFresh (s : Alarm) (ev : ℕ) (xs : List ℕ) : Type 0 where
  pub distinct : Distinct xs
  pub out : has ev xs ≡ false
  pub clear : (s.events ev).next ≡ none
  pub small : length xs < chain_limit

appended : Alarm → ℕ → Slot → Alarm
unfolding set_prev write
appended s ev slot = set_prev (write s slot (some ev)) ev none

appended_links :
    (s : Alarm) (ev l e : ℕ)
    → ((appended s ev (after l)).events e).next ≡ (if e == l then some ev else (s.events e).next)
unfolding appended put
appended_links s ev l e = ground arith

appended-IsQueue_after :
    (s : Alarm) (ev x : ℕ) (xs : List ℕ)
    → IsQueue s (x ∷ xs)
    → IsFresh s ev (x ∷ xs)
    → IsQueue (appended s ev (after (last_of x xs))) ((x ∷ xs) ++ ev ∷ [])
unfolding read
appended-IsQueue_after s ev x xs q f =
    IsSegment-append s' s'.next_event (x ∷ xs) (ev ∷ []) (some ev) none
      (IsSegment-retarget s s' head (x ∷ xs) none (some ev) q (same_head, same_links) last)
      (refl, ground (arith, links ev, f.clear, ne-last_of ev x xs f.out))
  where
    s' : Alarm
    s' = appended s ev (after (last_of x xs))

    links :
        (e : ℕ) → (s'.events e).next ≡ (if e == last_of x xs then some ev else (s.events e).next)
    links = appended_links s ev (last_of x xs)

    same_head : read s' head ≡ read s head
    same_head = unfold appended in refl

    same_links : SameBefore s s' (after x) xs
    same_links =
        SameBefore-of_Distinct s s' x xs ev f.distinct f.out (λ e n m. ground (arith, links e))

    last : read s' (last_slot (after x) xs) ≡ some ev
    last = rw (last_slot-after x xs) (ground (arith, links (last_of x xs)))

-- A link into the last slot leads through the same events, then to `ev`, and ends.
appended-IsQueue :
    (s : Alarm) (ev : ℕ) (xs : List ℕ)
    → IsQueue s xs
    → IsFresh s ev xs
    → IsQueue (appended s ev (last_slot head xs)) (xs ++ ev ∷ [])
appended-IsQueue s ev [] q f = unfold appended put in (refl, ground (arith, f.clear))
appended-IsQueue s ev (x ∷ xs) q f =
    subst (λ slot. IsQueue (appended s ev slot) ((x ∷ xs) ++ ev ∷ [])) (sym (last_slot-after x xs))
      (appended-IsQueue_after s ev x xs q f)

link-appended :
    (s : Alarm) (ev : ℕ) (slot : Slot)
    → read s slot ≡ none
    → link s ev slot ≡ some (appended s ev slot)
unfolding link appended
link-appended s ev slot e = ground arith

-- Registering an event that is due after all queued events and is fresh returns, and puts the
-- event at the end of the queue.
pub register-append :
    (s : Alarm) (ev : ℕ) (xs : List ℕ)
    → IsQueue s xs
    → AllBefore s xs (s.events ev).when
    → IsFresh s ev xs
    → (s' : Alarm) × (register_kalarm_event s ev ≡ some s') × IsQueue s' (xs ++ ev ∷ [])
unfolding register_kalarm_event read
register-append s ev xs q b f = (
  appended s ev (last_slot head xs),
  rw
      (
        find_from-last_slot chain_limit s head (s.events ev).when xs none f.small q b tt,
        register_kalarm_event,
      )
      (link-appended s ev (last_slot head xs) (read-last_slot s head xs none q)),
  appended-IsQueue s ev xs q f,
)

-- What `link` makes of the queue before the event `o`.
cut : Alarm → ℕ → Slot → ℕ → Alarm
unfolding set_prev set_next write set_prev?
cut s ev slot o =
    let s1 = set_prev (write s slot (some ev)) ev (some o) in
    set_next (set_prev? s1 (s1.events o).next (some ev)) o (some ev)

link-cut :
    (s : Alarm) (ev : ℕ) (slot : Slot) (o : ℕ)
    → read s slot ≡ some o
    → (o == ev) ≡ false
    → link s ev slot ≡ some (cut s ev slot o)
unfolding link cut
link-cut s ev slot o e n = ground arith

cut_links :
    (s : Alarm) (ev l o e : ℕ)
    → ((cut s ev (after l) o).events e).next
      ≡ (if e == o then some ev else if e == l then some ev else (s.events e).next)
unfolding cut put
cut_links s ev l o e = ground arith

cut_head_links :
    (s : Alarm) (ev o e : ℕ)
    → ((cut s ev head o).events e).next ≡ (if e == o then some ev else (s.events e).next)
unfolding cut put
cut_head_links s ev o e = ground arith

cut_head : (s : Alarm) (ev o : ℕ) → (cut s ev head o).next_event ≡ some ev
unfolding cut put
cut_head s ev o = ground arith

cut_after_head : (s : Alarm) (ev l o : ℕ) → (cut s ev (after l) o).next_event ≡ s.next_event
unfolding cut put
cut_after_head s ev l o = ground arith

module _ (s : Alarm) (ev o : ℕ) (n : (o == ev) ≡ false) where
  cut-IsQueue_after :
      (x : ℕ) (xs : List ℕ)
      → IsSegment s s.next_event (x ∷ xs) (some o)
      → IsFresh s ev (x ∷ xs)
      → has o (x ∷ xs) ≡ false
      → IsQueue (cut s ev (after (last_of x xs)) o) ((x ∷ xs) ++ ev ∷ [])
  unfolding read
  cut-IsQueue_after x xs q f out =
      IsSegment-append s' s'.next_event (x ∷ xs) (ev ∷ []) (some ev) none
        (IsSegment-retarget s s' head (x ∷ xs) (some o) (some ev) q (same_head, same_links) last)
        (refl, ground (arith, links ev, f.clear, ne-last_of ev x xs f.out))
    where
      s' : Alarm
      s' = cut s ev (after (last_of x xs)) o

      links :
          (e : ℕ)
          → (s'.events e).next
            ≡ (if e == o then some ev else if e == last_of x xs then some ev else (s.events e).next)
      links = cut_links s ev (last_of x xs) o

      same_head : read s' head ≡ read s head
      same_head = cut_after_head s ev (last_of x xs) o

      same_links : SameBefore s s' (after x) xs
      same_links =
          SameBefore-of_Distinct s s' x xs o f.distinct out (λ e m k. ground (arith, links e))

      last : read s' (last_slot (after x) xs) ≡ some ev
      last = rw (last_slot-after x xs) (ground (arith, links (last_of x xs)))

  cut-IsQueue :
      (xs : List ℕ)
      → IsSegment s s.next_event xs (some o)
      → IsFresh s ev xs
      → has o xs ≡ false
      → IsQueue (cut s ev (last_slot head xs) o) (xs ++ ev ∷ [])
  cut-IsQueue [] q f out = (cut_head s ev o, ground (arith, cut_head_links s ev o ev, f.clear))
  cut-IsQueue (x ∷ xs) q f out =
      subst (λ slot. IsQueue (cut s ev slot o) ((x ∷ xs) ++ ev ∷ [])) (sym (last_slot-after x xs))
        (cut-IsQueue_after x xs q f out)

-- Where the walk stops at a queued event `o`, behind distinct others, registering a fresh event
-- that is not `o` returns, and the new event ends the queue: `o` and the events behind it are not
-- reached any more.
pub register_cuts :
    (s : Alarm) (ev o : ℕ) (xs : List ℕ)
    → IsSegment s s.next_event xs (some o)
    → AllBefore s xs (s.events ev).when
    → ltb (s.events o).when (s.events ev).when ≡ false
    → IsFresh s ev xs
    → has o xs ≡ false
    → (o == ev) ≡ false
    → (s' : Alarm) × (register_kalarm_event s ev ≡ some s') × IsQueue s' (xs ++ ev ∷ [])
unfolding register_kalarm_event read
register_cuts s ev o xs q b stop f out n = (
  cut s ev (last_slot head xs) o,
  rw
      (
        find_from-last_slot chain_limit s head (s.events ev).when xs (some o) f.small q b stop,
        register_kalarm_event,
      )
      (link-cut s ev (last_slot head xs) o (read-last_slot s head xs (some o) q) n),
  cut-IsQueue s ev o n xs q f out,
)
