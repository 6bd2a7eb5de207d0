-- ===== src/Jobs/Delivery.antt =====
-- What the subscribers of a job get: packages/stackwarden/src/stackwarden/web/jobs/manager.py
use stack_warden.Base.{
  Text, List, [], ◌∷◌, map, All, get, get_or, get-put, text_eq, ◌≡◌, refl, Option-cases, inl, inr,
  ==_refl,
}
use stack_warden.Jobs.Records.{JobEvent}
use stack_warden.Jobs.Events.{
  Queue, offer, finish, IsBounded, IsFinished, offer-IsBounded, finish-IsFinished,
}
use stack_warden.Jobs.Manager.{JobManager, at_queues, publish_event, publish_sentinel}

-- the queues of the subscribers of a job
abbrev pub queues_of : Text → JobManager → List Queue
queues_of id m = get_or id [] m.subscribers

queues_of-at_queues :
    (f : Queue → Queue) (id : Text) (m : JobManager)
    → queues_of id (at_queues f id m) ≡ map f (queues_of id m)
unfolding at_queues
queues_of-at_queues f id m = elim (Option-cases (get id m.subscribers)) [
  | inl none_there ↦ rw (at_queues, none_there) (rw (get_or, none_there) refl)
  | inr (qs, there) ↦
      rw (at_queues, there)
        (rw (get_or, there, get-put id id (map f qs) m.subscribers, ==_refl id) refl)
]

map-IsBounded :
    (e : JobEvent) (qs : List Queue) → All IsBounded qs → All IsBounded (map (offer e) qs)
map-IsBounded e [] b = tt
map-IsBounded e (q ∷ qs) b = (offer-IsBounded e q b.0, map-IsBounded e qs b.1)

map-IsFinished : (qs : List Queue) → All IsBounded qs → All IsFinished (map finish qs)
map-IsFinished [] b = tt
map-IsFinished (q ∷ qs) b = (finish-IsFinished q b.0, map-IsFinished qs b.1)

-- events, the first published last
unfoldable pub publish_all : Text → List JobEvent → JobManager → JobManager
publish_all id [] m = m
publish_all id (e ∷ es) m = publish_event id e (publish_all id es m)

publish_all-IsBounded :
    (id : Text) (es : List JobEvent) (m : JobManager)
    → All IsBounded (queues_of id m)
    → All IsBounded (queues_of id (publish_all id es m))
unfolding publish_all publish_event
publish_all-IsBounded id [] m b = b
publish_all-IsBounded id (e ∷ es) m b =
    rw (queues_of-at_queues (offer e) id (publish_all id es m))
      (map-IsBounded e (queues_of id (publish_all id es m)) (publish_all-IsBounded id es m b))

-- However many events were published to queues that held 1000 items at most, `publish_sentinel`
-- makes the end of the job the last item of each queue of it, and none holds more than 1000.
pub publish_sentinel-IsFinished :
    (id : Text) (es : List JobEvent) (m : JobManager)
    → All IsBounded (queues_of id m)
    → All IsFinished (queues_of id (publish_sentinel id (publish_all id es m)))
unfolding publish_sentinel
publish_sentinel-IsFinished id es m b =
    rw (queues_of-at_queues finish id (publish_all id es m))
      (map-IsFinished (queues_of id (publish_all id es m)) (publish_all-IsBounded id es m b))
