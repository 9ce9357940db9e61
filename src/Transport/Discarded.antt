-- ===== src/Transport/Discarded.antt =====
-- What is left of a discarded thread's transport, and sockets that a discard overtook.
use shopping_agent.Common.{
  ℕ, ◌+◌, ◌≤◌, ◌<◌, ◌≡◌, refl, sym, subst, Bool, true, false, Bool-cases, inl, inr, Option, none,
  some, List, [], ◌∷◌, any, arith, if◌then◌else◌,
}
use shopping_agent.Transport.{
  Socket, Transport, Event, connected, disconnected, sent_event, sent_ephemeral, cleared, closing,
  discarding, close_previous, connect, disconnect, send_to_thread, send_active, send_ephemeral,
  ephemeral_active, clear, close_active, pop_active, discard, step, run,
}

module _ {A : Type 0} where
  abbrev pub is_clear : Event A → Bool
  is_clear (cleared closes) = true
  is_clear _ = false

  abbrev pub is_discard : Event A → Bool
  is_discard discarding = true
  is_discard _ = false

  -- No socket, no history, and exactly these payloads sent.
  pub record IsSilent (sent : List (Socket × A)) (t : Transport A) : Type 0 where
    pub gone : t.discarded ≡ true
    pub inactive : t.active ≡ none
    pub forgotten : t.events ≡ []
    pub unsent : t.sent ≡ sent

  pop_active-IsSilent :
      (a : Option Socket) (code : ℕ) (t : Transport A)
      → t.active ≡ a
      → t.discarded ≡ true
      → t.events ≡ []
      → IsSilent t.sent (pop_active a code t)
  unfolding pop_active
  pop_active-IsSilent none code t a g e = record {
    gone = g;
    inactive = a;
    forgotten = e;
    unsent = refl;
  }
  pop_active-IsSilent (some s) code t a g e = record {
    gone = g;
    inactive = refl;
    forgotten = e;
    unsent = refl;
  }

  discard-IsSilent : (t : Transport A) → IsSilent t.sent (discard t)
  unfolding discard
  discard-IsSilent t =
      pop_active-IsSilent t.active 1000
        (record t { generation = t.generation + 1; discarded = true; events = [] }) refl refl refl

  module _ (max_events : ℕ) (sent : List (Socket × A)) where
    step-IsSilent :
        (e : Event A) (t : Transport A)
        → is_clear e ≡ false
        → IsSilent sent t
        → IsSilent sent (step max_events e t)
    unfolding step connect disconnect send_to_thread send_ephemeral close_active
    step-IsSilent (connected g s b answers) t n i = record {
      gone = ground (arith, i.gone);
      inactive = ground (arith, i.gone, i.inactive);
      forgotten = ground (arith, i.gone, i.forgotten);
      unsent = ground (arith, i.gone, i.unsent);
    }
    step-IsSilent (disconnected s) t n i = record {
      gone = i.gone;
      inactive = ground (arith, i.inactive);
      forgotten = i.forgotten;
      unsent = i.unsent;
    }
    step-IsSilent (sent_event p ok) t n i = record {
      gone = ground (arith, i.gone);
      inactive = ground (arith, i.gone, i.inactive);
      forgotten = ground (arith, i.gone, i.forgotten);
      unsent = ground (arith, i.gone, i.unsent);
    }
    step-IsSilent (sent_ephemeral p ok) t n i = record {
      gone = ground (arith, i.gone);
      inactive = ground (arith, i.gone, i.inactive);
      forgotten = ground (arith, i.gone, i.forgotten);
      unsent = ground (arith, i.gone, i.unsent);
    }
    step-IsSilent (cleared closes) t n i = absurd (ground arith)
    step-IsSilent (closing code) t n i =
        subst (λ known. IsSilent known (pop_active t.active code t)) i.unsent
          (pop_active-IsSilent t.active code t refl i.gone i.forgotten)
    step-IsSilent discarding t n i = rw (sym i.unsent) (discard-IsSilent t)

    run-IsSilent :
        (es : List (Event A)) (t : Transport A)
        → any is_clear es ≡ false
        → IsSilent sent t
        → IsSilent sent (run max_events es t)
    unfolding run
    run-IsSilent [] t n i = i
    run-IsSilent (e ∷ es) t n i =
        run-IsSilent es (step max_events e t) (ground (arith, n))
          (step-IsSilent e t (ground (arith, n)) i)

  -- After `discard`, and until the thread is cleared, no event sends anything, keeps a socket or
  -- buffers a payload: connections are refused and payloads dropped.
  pub discard-run-IsSilent :
      (max_events : ℕ) (t : Transport A) (es : List (Event A))
      → any is_clear es ≡ false
      → IsSilent t.sent (run max_events es (discard t))
  discard-run-IsSilent max_events t es n =
      run-IsSilent max_events t.sent es (discard t) n (discard-IsSilent t)

  bump : Event A → ℕ
  bump e = if is_discard e then 1 else 0

  generation-close_previous :
      (a : Option Socket) (s : Socket) (t : Transport A)
      → (close_previous a s t).generation ≡ t.generation
  generation-close_previous none s t = refl
  generation-close_previous (some p) s t = ground arith

  generation-pop_active :
      (a : Option Socket) (code : ℕ) (t : Transport A)
      → (pop_active a code t).generation ≡ t.generation
  unfolding pop_active
  generation-pop_active none code t = refl
  generation-pop_active (some s) code t = refl

  module _ (max_events : ℕ) where
    generation-step :
        (e : Event A) (t : Transport A) → (step max_events e t).generation ≡ t.generation + bump e
    unfolding step connect disconnect send_to_thread send_active send_ephemeral ephemeral_active
        close_active clear discard bump
    generation-step (connected g s b answers) t =
        ground (arith, generation-close_previous t.active s t)
    generation-step (disconnected s) t = omega arith
    generation-step (sent_event p ok) t = ground arith
    generation-step (sent_ephemeral p ok) t = ground arith
    generation-step (cleared true) t =
        omega
          (arith, generation-pop_active t.active 1012 (record t { discarded = false; events = [] }))
    generation-step (cleared false) t = omega arith
    generation-step (closing code) t = omega (arith, generation-pop_active t.active code t)
    generation-step discarding t =
        generation-pop_active t.active 1000
          (record t { generation = t.generation + 1; discarded = true; events = [] })

    generation-run :
        (es : List (Event A)) (t : Transport A) → t.generation ≤ (run max_events es t).generation
    unfolding run
    generation-run [] t = omega arith
    generation-run (e ∷ es) t =
        omega (arith, generation-step e t, generation-run es (step max_events e t))

    generation-grows :
        (es : List (Event A)) (t : Transport A)
        → any is_discard es ≡ true
        → t.generation < (run max_events es t).generation
    unfolding run bump
    generation-grows [] t h = absurd (ground arith)
    generation-grows (e ∷ es) t h = elim (Bool-cases (is_discard e)) [
      | inl d ↦ ground (arith, generation-step e t, generation-run es (step max_events e t))
      | inr d ↦ ground (
        arith,
        generation-step e t,
        generation-grows es (step max_events e t) (ground (arith, h, d)),
      )
    ]

  -- A socket whose `connect` read the generation before a `discard` is refused when it gets the lock,
  -- whatever happened in between, a later `clear` included: the active socket stays, nothing is sent.
  pub connect-stale :
      (max_events : ℕ) (t : Transport A) (es : List (Event A))
      → (socket : Socket) (bootstrap : Option (A × List A)) (answers : ℕ → Bool)
      → any is_discard es ≡ true
      → let u = run max_events es t in
        let result = connect t.generation socket bootstrap answers u in
        (result.1 ≡ false) × (result.0.active ≡ u.active) × (result.0.sent ≡ u.sent)
  unfolding connect
  connect-stale max_events t es socket bootstrap answers h =
      let grown = generation-grows max_events es t h in
      (ground (arith, grown), ground (arith, grown), ground (arith, grown))
