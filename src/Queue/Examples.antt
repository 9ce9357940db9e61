-- ===== src/Queue/Examples.antt =====
-- Two waiting requests of one priority, one worker of each class.
use shopping_agent.Common.{◌≡◌, refl, none, List, [], ◌∷◌, codes, Perm, insert}
use shopping_agent.Queue.Heap.{Request, sorted_heap}
use shopping_agent.Queue.Heads.{TookLeast, acquire-TookLeast}
use shopping_agent.Queue.Capacity.{IsWithin, init-run-IsWithin}
use shopping_agent.Queue.Discard.{discard-first}
use shopping_agent.Queue.{
  normal, heavy, Config, Queues, Event, enqueued, acquiring, init, run, discard, queue, position,
}

abbrev first_user : Request
first_user = record {
  object = 1;
  priority = 5;
  timestamp = 100;
  thread_id = codes "a";
  query = codes "shoes";
  user_id = none;
}

abbrev second_user : Request
second_user = record first_user { object = 2; thread_id = codes "b" }

abbrev premium_user : Request
premium_user = record first_user { object = 3; priority = 1; thread_id = codes "c" }

abbrev config : Config
config = record {
  normal_workers = 1;
  heavy_workers = 1;
  heavy_threshold = 30;
  rebalance_threshold = 20;
}

abbrev idle : Queues
idle = record {
  normal_queue = [];
  heavy_queue = [];
  normal_active = 0;
  heavy_active = 0;
  heavy_limit = 1;
}

abbrev arrivals : List Event
arrivals =
    enqueued second_user normal ∷ enqueued first_user normal ∷ enqueued premium_user normal ∷ []

abbrev waiting : Queues
waiting = record idle { normal_queue = first_user ∷ second_user ∷ [] }

premium_first :
    run config sorted_heap arrivals idle
    ≡ record idle { normal_queue = premium_user ∷ first_user ∷ second_user ∷ [] }
unfolding run sorted_heap insert
premium_first = refl

second_position : position second_user normal waiting ≡ 2
unfolding position
second_position = refl

init-run-IsWithin_example : IsWithin config (
    run config sorted_heap (enqueued first_user heavy ∷ acquiring first_user heavy ∷ arrivals) idle)
unfolding init
init-run-IsWithin_example =
    init-run-IsWithin sorted_heap 1 1 30 20 config idle
      (enqueued first_user heavy ∷ acquiring first_user heavy ∷ arrivals) refl

acquire-TookLeast_example :
    TookLeast config premium_user normal
      (run config sorted_heap arrivals idle)
      (record waiting { normal_active = 1 })
unfolding run sorted_heap insert
acquire-TookLeast_example =
    acquire-TookLeast sorted_heap config premium_user arrivals idle normal
      (record waiting { normal_active = 1 }) (record { normal_heap = tt; heavy_heap = tt }) refl

-- The second user's cancellation drops the first user's request.
discard-first_example :
    Perm (queue normal (discard config sorted_heap second_user normal waiting)) (second_user ∷ [])
discard-first_example =
    discard-first second_user config sorted_heap normal waiting first_user (second_user ∷ []) refl
      refl
