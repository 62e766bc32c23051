-- ===== src/Alarm/Chain.antt =====
-- The chain of `next` pointers of the event queue of kern/kalarm.c, and how a write to one link
-- changes it.
use bradyp_os.Base.{
  ℕ, zero, suc, ◌<◌, ◌≡◌, refl, ◌∙◌, Bool, true, false, ◌||◌, Option, none, some, List, [], ◌∷◌,
  ◌++◌, ltb, ◌==◌, arith,
}
use bradyp_os.Base.Lists.{length}
use bradyp_os.Alarm.{Alarm, Slot, after, read, find_from}

-- From `p` the `next` pointers lead through the events `xs` to `q`.
abbrev pub IsSegment : Alarm → Option ℕ → List ℕ → Option ℕ → Type 0
IsSegment s p [] q = p ≡ q
IsSegment s p (e ∷ es) q = (p ≡ some e) × IsSegment s (s.events e).next es q

-- The queue holds the events `xs`, in order.
abbrev pub IsQueue : Alarm → List ℕ → Type 0
IsQueue s xs = IsSegment s s.next_event xs none

-- The slot behind the events `xs`, which start at `slot`.
abbrev pub last_slot : Slot → List ℕ → Slot
last_slot slot [] = slot
last_slot slot (x ∷ xs) = last_slot (after x) xs

-- Every event of the list is due before `t`.
abbrev pub AllBefore : Alarm → List ℕ → ℕ → Type 0
AllBefore s [] t = Unit
AllBefore s (x ∷ xs) t = ((s.events x).when < t) × AllBefore s xs t

abbrev pub has : ℕ → List ℕ → Bool
has a [] = false
has a (x ∷ xs) = (x == a) || has a xs

abbrev pub Distinct : List ℕ → Type 0
Distinct [] = Unit
Distinct (x ∷ xs) = (has x xs ≡ false) × Distinct xs

-- The walk stops at `q`: at the end of the queue, or at an event that is not due before `t`.
abbrev pub StopsAt : Alarm → Option ℕ → ℕ → Type 0
StopsAt s none t = Unit
StopsAt s (some o) t = ltb (s.events o).when t ≡ false

-- The walk of `find_insertion_point` ends behind the events that are due earlier.
pub find_from-last_slot :
    (fuel : ℕ) (s : Alarm) (slot : Slot) (t : ℕ) (xs : List ℕ) (q : Option ℕ)
    → length xs < fuel
    → IsSegment s (read s slot) xs q
    → AllBefore s xs t
    → StopsAt s q t
    → find_from fuel s slot t ≡ some (last_slot slot xs)
unfolding find_from read
find_from-last_slot zero s slot t xs q f c b stop = absurd (omega arith)
find_from-last_slot (suc fuel) s slot t [] none f c b stop = rw (c, find_from)
find_from-last_slot (suc fuel) s slot t [] (some o) f c b stop = rw (c, find_from, stop)
find_from-last_slot (suc fuel) s slot t (x ∷ xs) q f c b stop =
    let early : ltb (s.events x).when t ≡ true = ground arith in
    rw (c.0, find_from, early)
      (find_from-last_slot fuel s (after x) t xs q (omega arith) c.1 b.1 stop)

-- Between two states, the links from `slot` through all but the last of `xs` are the same.
abbrev pub SameBefore : Alarm → Alarm → Slot → List ℕ → Type 0
SameBefore s s' slot [] = Unit
SameBefore s s' slot (x ∷ xs) = (read s' slot ≡ read s slot) × SameBefore s s' (after x) xs

-- A change of the last link of a segment moves its end.
pub IsSegment-retarget :
    (s s' : Alarm) (slot : Slot) (xs : List ℕ) (q q' : Option ℕ)
    → IsSegment s (read s slot) xs q
    → SameBefore s s' slot xs
    → read s' (last_slot slot xs) ≡ q'
    → IsSegment s' (read s' slot) xs q'
unfolding read
IsSegment-retarget s s' slot [] q q' c same last = last
IsSegment-retarget s s' slot (x ∷ xs) q q' c same last =
    (same.0 ∙ c.0, IsSegment-retarget s s' (after x) xs q q' c.1 same.1 last)

-- A segment may be put behind another.
pub IsSegment-append :
    (s : Alarm) (p : Option ℕ) (xs ys : List ℕ) (q r : Option ℕ)
    → IsSegment s p xs q
    → IsSegment s q ys r
    → IsSegment s p (xs ++ ys) r
IsSegment-append s p [] ys q r c d = rw c d
IsSegment-append s p (x ∷ xs) ys q r c d =
    (c.0, IsSegment-append s (s.events x).next xs ys q r c.1 d)

-- The last event of `x ∷ xs`.
abbrev pub last_of : ℕ → List ℕ → ℕ
last_of x [] = x
last_of x (y ∷ ys) = last_of y ys

pub last_slot-after : (x : ℕ) (xs : List ℕ) → last_slot (after x) xs ≡ after (last_of x xs)
last_slot-after x [] = refl
last_slot-after x (y ∷ ys) = last_slot-after y ys

-- What is not in the list is not its last event.
pub ne-last_of : (e x : ℕ) (xs : List ℕ) → has e (x ∷ xs) ≡ false → (e == last_of x xs) ≡ false
ne-last_of e x [] h = ground arith
ne-last_of e x (y ∷ ys) h = ne-last_of e y ys (ground arith)

-- In a queue of distinct events, a change of the last link and of one elsewhere keeps the others.
pub SameBefore-of_Distinct :
    (s s' : Alarm) (x : ℕ) (xs : List ℕ) (b : ℕ)
    → Distinct (x ∷ xs)
    → has b (x ∷ xs) ≡ false
    → ((e : ℕ)
        → (e == last_of x xs) ≡ false
        → (e == b) ≡ false
        → (s'.events e).next ≡ (s.events e).next)
    → SameBefore s s' (after x) xs
unfolding read
SameBefore-of_Distinct s s' x [] b d out same = tt
SameBefore-of_Distinct s s' x (y ∷ ys) b d out same = (
  same x (ne-last_of x y ys d.0) (ground arith),
  SameBefore-of_Distinct s s' y ys b d.1 (ground arith) same,
)

-- The last link of a segment is its end.
pub read-last_slot :
    (s : Alarm) (slot : Slot) (xs : List ℕ) (q : Option ℕ)
    → IsSegment s (read s slot) xs q
    → read s (last_slot slot xs) ≡ q
unfolding read
read-last_slot s slot [] q c = c
read-last_slot s slot (x ∷ xs) q c = read-last_slot s (after x) xs q c.1
