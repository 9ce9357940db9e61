-- ===== src/Transport.antt =====
-- app/api/connection.py: one thread's part of `ConnectionManager`. Every operation reads and writes the
-- entries of its own thread alone, and holds the thread's lock; `connect` reads the generation and accepts
-- the socket before it takes the lock, so it is two operations. Whether a send succeeds is an argument.
mod Replay
mod History
mod Discarded
mod Examples
use shopping_agent.Common.{
  ℕ, zero, suc, ◌+◌, ◌-◌, ◌≡◌, Bool, true, false, not, ◌&&◌, ◌||◌, Option, none, some, List, [],
  ◌∷◌, ◌++◌, map, length, last_n, ◌==◌, if◌then◌else◌,
}

-- `WebSocket`, by its identity.
abbrev pub Socket : Type 0
Socket = ℕ

-- `self.active.get(thread_id) is websocket`
abbrev pub is_active : Socket → Option Socket → Bool
is_active socket none = false
is_active socket (some current) = current == socket

-- `active`, `_events`, `_generations` and `_discarded` of one thread, and what its sockets were sent and
-- which were closed with which code.
pub record Transport (A : Type 0) : Type 0 where
  pub active : Option Socket
  pub events : List A
  pub generation : ℕ
  pub discarded : Bool
  pub sent : List (Socket × A)
  pub closed : List (Socket × ℕ)

module _ {A : Type 0} where
  abbrev pub fresh : Transport A
  fresh = record {
    active = none;
    events = [];
    generation = 0;
    discarded = false;
    sent = [];
    closed = [];
  }

  abbrev pub close : Socket → ℕ → Transport A → Transport A
  close socket code t = record t { closed = t.closed ++ (socket, code) ∷ [] }

  -- Drops the socket if it is the active one.
  abbrev pub drop_if_active : Socket → Transport A → Transport A
  drop_if_active socket t = record t {
    active = if is_active socket t.active then none else t.active;
  }

  abbrev pub close_previous : Option Socket → Socket → Transport A → Transport A
  close_previous none socket t = t
  close_previous (some previous) socket t = if previous == socket then t else close previous 1000 t

  -- `_send` and `_replay`: what went out before the first failure, and whether all of it did.
  unfoldable pub send_all : (ℕ → Bool) → ℕ → List A → List A × Bool
  send_all answers i [] = ([], true)
  send_all answers i (payload ∷ payloads) =
      let rest = send_all answers (i + 1) payloads in
      if answers i then (payload ∷ rest.0, rest.1) else ([], false)

  -- What a new socket is sent first: the payload of `bootstrap` and the events of its snapshot, or
  -- the history.
  abbrev pub greeting : Option (A × List A) → Transport A → List A
  greeting none t = t.events
  greeting (some (payload, snapshot)) t = payload ∷ snapshot

  abbrev pub deliver : Socket → List A → Transport A → Transport A
  deliver socket payloads t = record t { sent = t.sent ++ map (λ p. (socket, p)) payloads }

  abbrev pub welcome : Socket → Option (A × List A) → (ℕ → Bool) → Transport A → Transport A × Bool
  unfolding send_all
  welcome socket bootstrap answers t =
      let out = send_all answers 0 (greeting bootstrap t) in
      let greeted = deliver socket out.0 t in
      if out.1 then (greeted, true) else (close socket 1011 (drop_if_active socket greeted), false)

  -- `connect` after `accept`, with the generation read before it.
  unfoldable pub connect :
      ℕ → Socket → Option (A × List A) → (ℕ → Bool) → Transport A → Transport A × Bool
  unfolding send_all
  connect generation socket bootstrap answers t =
      if t.discarded || not (t.generation == generation)
      then (close socket 1000 t, false)
      else welcome socket bootstrap answers
          (record (close_previous t.active socket t) { active = some socket })

  unfoldable pub disconnect : Socket → Transport A → Transport A
  disconnect socket t = drop_if_active socket t

  send_active : Option Socket → A → Bool → Transport A → Transport A
  send_active none payload ok t = t
  send_active (some socket) payload ok t =
      if ok then deliver socket (payload ∷ []) t else drop_if_active socket t

  -- `deque(maxlen=max_events).append`
  abbrev pub append_bounded : ℕ → A → List A → List A
  append_bounded max_events payload events = last_n max_events (events ++ payload ∷ [])

  unfoldable pub send_to_thread : ℕ → A → Bool → Transport A → Transport A
  unfolding send_active
  send_to_thread max_events payload ok t =
      if t.discarded
      then t
      else send_active t.active payload ok
          (record t { events = append_bounded max_events payload t.events })

  ephemeral_active : Option Socket → A → Bool → Transport A → Transport A
  ephemeral_active none payload ok t = t
  ephemeral_active (some socket) payload ok t = if ok then deliver socket (payload ∷ []) t else t

  -- `send_ephemeral`, which lets a failure out to its caller and changes nothing then.
  unfoldable pub send_ephemeral : A → Bool → Transport A → Transport A
  unfolding ephemeral_active
  send_ephemeral payload ok t = if t.discarded then t else ephemeral_active t.active payload ok t

  unfoldable pub history : Transport A → List A
  history t = if t.discarded then [] else t.events

  pop_active : Option Socket → ℕ → Transport A → Transport A
  pop_active none code t = t
  pop_active (some socket) code t = close socket code (record t { active = none })

  unfoldable pub clear : Bool → Transport A → Transport A
  unfolding pop_active
  clear closing t =
      let emptied = record t { discarded = false; events = [] } in
      if closing then pop_active emptied.active 1012 emptied else emptied

  unfoldable pub close_active : ℕ → Transport A → Transport A
  unfolding pop_active
  close_active code t = pop_active t.active code t

  unfoldable pub discard : Transport A → Transport A
  unfolding pop_active
  discard t =
      pop_active t.active 1000
        (record t { generation = t.generation + 1; discarded = true; events = [] })

-- What happens to a thread's transport, in the order in which the lock is held.
pub data Event (A : Type 0) : Type 0 where
  connected : ℕ → Socket → Option (A × List A) → (ℕ → Bool) → Event A
  disconnected : Socket → Event A
  sent_event sent_ephemeral : A → Bool → Event A
  cleared : Bool → Event A
  closing : ℕ → Event A
  discarding : Event A

module _ {A : Type 0} (max_events : ℕ) where
  unfoldable pub step : Event A → Transport A → Transport A
  unfolding connect disconnect send_to_thread send_ephemeral clear close_active discard
  step (connected generation socket bootstrap answers) t =
      (connect generation socket bootstrap answers t).0
  step (disconnected socket) t = disconnect socket t
  step (sent_event payload ok) t = send_to_thread max_events payload ok t
  step (sent_ephemeral payload ok) t = send_ephemeral payload ok t
  step (cleared closes) t = clear closes t
  step (closing code) t = close_active code t
  step discarding t = discard t

  unfoldable pub run : List (Event A) → Transport A → Transport A
  unfolding step
  run [] t = t
  run (e ∷ es) t = run es (step e t)
