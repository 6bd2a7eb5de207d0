-- ===== src/Jobs/Events.antt =====
-- The queues of the subscribers: `publish_event` and `publish_sentinel` of
-- packages/stackwarden/src/stackwarden/web/jobs/manager.py
-- A queue is what it holds, the oldest first, 1000 items at most.
use stack_warden.Base.{
  ℕ, ◌+◌, ◌≤◌, true, false, Option, none, some, List, [], ◌∷◌, ◌++◌, length, ltb, ◌≡◌, refl, arith,
  if◌then◌else◌, Bool-cases, inl, inr,
}
use stack_warden.Jobs.Records.{JobEvent}

pub data Item : Type 0 where
  event : JobEvent → Item
  sentinel : Item

abbrev pub Queue : Type 0
Queue = List Item

abbrev pub maxsize : ℕ
maxsize = 1000

-- `put_nowait`, `none` where it raises `QueueFull`
abbrev pub put_nowait : Item → Queue → Option Queue
put_nowait item q = if ltb (length q) maxsize then some (q ++ item ∷ []) else none

-- `publish_event` at one queue: dropped if the queue is full
unfoldable pub offer : JobEvent → Queue → Queue
offer e q = elim (put_nowait (event e) q) [ none ↦ q | some q' ↦ q' ]

-- `get_nowait`, an empty queue stays
abbrev pub drop_oldest : Queue → Queue
drop_oldest [] = []
drop_oldest (item ∷ q) = q

-- `publish_sentinel` at one queue: room is made once
unfoldable pub finish : Queue → Queue
finish q = elim (put_nowait sentinel q) [
  | some q' ↦ q'
  | none ↦ elim (put_nowait sentinel (drop_oldest q)) [ some q' ↦ q' | none ↦ drop_oldest q ]
]

abbrev pub IsBounded : Queue → Type 0
IsBounded q = length q ≤ maxsize

-- the queue ends with the sentinel
pub record IsFinished (q : Queue) : Type 0 where
  pub before : Queue
  pub ends : q ≡ before ++ sentinel ∷ []
  pub bounded : length q ≤ maxsize

length-snoc : (q : Queue) (item : Item) → length (q ++ item ∷ []) ≡ length q + 1
length-snoc [] item = refl
length-snoc (x ∷ q) item = ground (arith, length-snoc q item)

length-drop_oldest :
    (q : Queue) → ltb (length q) maxsize ≡ false → length (drop_oldest q) + 1 ≡ length q
length-drop_oldest [] h = absurd (ground arith)
length-drop_oldest (x ∷ q) h = ground arith

pub offer-IsBounded : (e : JobEvent) (q : Queue) → IsBounded q → IsBounded (offer e q)
unfolding offer
offer-IsBounded e q b = elim (Bool-cases (ltb (length q) maxsize)) [
  | inl room ↦ rw (offer, room) (ground (arith, length-snoc q (event e)))
  | inr full ↦ rw (offer, full) b
]

-- every queue that holds 1000 items at most gets the sentinel, as its last item
pub finish-IsFinished : (q : Queue) → IsBounded q → IsFinished (finish q)
unfolding finish
finish-IsFinished q b = elim (Bool-cases (ltb (length q) maxsize)) [
  | inl room ↦
      rw (finish, room)
        (record { before = q; ends = refl; bounded = ground (arith, length-snoc q sentinel) })
  | inr full ↦
      let room : ltb (length (drop_oldest q)) maxsize ≡ true =
        ground (arith, length-drop_oldest q full) in
      rw (finish, full, room)
        (record {
          before = drop_oldest q;
          ends = refl;
          bounded = ground (arith, length-snoc (drop_oldest q) sentinel, length-drop_oldest q full);
        })
]
