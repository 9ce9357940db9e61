-- ===== src/Transport/History.antt =====
-- The buffered history of a thread against what was published on it.
use shopping_agent.Common.{
  ℕ, zero, suc, ◌+◌, ◌-◌, ◌≤◌, ◌≡◌, refl, sym, subst, ap, ◌∙◌, Bool, true, false, Option, none,
  some, List, [], ◌∷◌, ◌++◌, length, drop, last_n, length-append, length-drop, arith, if◌then◌else◌,
}
use shopping_agent.Transport.{
  Socket, Transport, fresh, Event, connected, disconnected, sent_event, sent_ephemeral, cleared,
  closing, discarding, close_previous, connect, disconnect, send_to_thread, send_active,
  send_ephemeral, ephemeral_active, clear, close_active, pop_active, discard, history, step, run,
  append_bounded,
}

module _ {ℓ} {A : Type ℓ} where
  drop-nil : (m : ℕ) → drop {A = A} m [] ≡ []
  drop-nil zero = refl
  drop-nil (suc m) = refl

  drop-drop : (m n k : ℕ) (xs : List A) → k ≡ n + m → drop m (drop n xs) ≡ drop k xs
  drop-drop m zero k xs e = ap (λ i. drop i xs) (omega (arith, e))
  drop-drop m (suc n) zero xs e = absurd (omega (arith, e))
  drop-drop m (suc n) (suc k) [] e = drop-nil m
  drop-drop m (suc n) (suc k) (x ∷ xs) e = drop-drop m n k xs (omega (arith, e))

  drop-append_left : (n : ℕ) (xs ys : List A) → n ≤ length xs → drop n (xs ++ ys) ≡ drop n xs ++ ys
  drop-append_left zero xs ys h = refl
  drop-append_left (suc n) [] ys h = absurd (omega (arith, h))
  drop-append_left (suc n) (x ∷ xs) ys h = drop-append_left n xs ys (omega (arith, h))

  -- Bounding before an append to a bounded buffer changes nothing.
  last_n-append :
      (n : ℕ) (xs : List A) (x : A) → last_n n (last_n n xs ++ x ∷ []) ≡ last_n n (xs ++ x ∷ [])
  last_n-append n xs x =
      ap (last_n n) (sym (drop-append_left (length xs - n) xs (x ∷ []) (omega arith)))
      ∙ drop-drop _ (length xs - n) _ (xs ++ x ∷ []) (omega (arith, longer, kept))
    where
      longer : length (xs ++ x ∷ []) ≡ length xs + 1
      longer = length-append xs (x ∷ [])

      kept : length (drop (length xs - n) (xs ++ x ∷ [])) ≡ length (xs ++ x ∷ []) - (length xs - n)
      kept = length-drop (length xs - n) (xs ++ x ∷ [])

-- What a thread was to keep: whether it is discarded, and every payload published on it since it was last
-- cleared or discarded.
module _ {A : Type 0} where
  abbrev pub publish : Event A → Bool × List A → Bool × List A
  publish (sent_event payload ok) (gone, kept) =
      if gone then (gone, kept) else (gone, kept ++ payload ∷ [])
  publish (cleared closes) (gone, kept) = (false, [])
  publish discarding (gone, kept) = (true, [])
  publish (connected g s b a) known = known
  publish (disconnected s) known = known
  publish (sent_ephemeral p ok) known = known
  publish (closing code) known = known

  unfoldable pub published : List (Event A) → Bool × List A → Bool × List A
  published [] known = known
  published (e ∷ es) known = published es (publish e known)

  pub record Agrees (max_events : ℕ) (known : Bool × List A) (t : Transport A) : Type 0 where
    pub gone : t.discarded ≡ known.0
    pub kept : t.events ≡ last_n max_events known.1

  abbrev SameBuffer : Transport A → Transport A → Type 0
  SameBuffer t u = (u.discarded ≡ t.discarded) × (u.events ≡ t.events)

  close_previous-same :
      (a : Option Socket) (s : Socket) (t : Transport A) → SameBuffer t (close_previous a s t)
  close_previous-same none s t = (refl, refl)
  close_previous-same (some p) s t = ground arith

  pop_active-same :
      (a : Option Socket) (code : ℕ) (t : Transport A) → SameBuffer t (pop_active a code t)
  unfolding pop_active
  pop_active-same none code t = (refl, refl)
  pop_active-same (some p) code t = (refl, refl)

  send_active-same :
      (a : Option Socket) (p : A) (ok : Bool) (t : Transport A)
      → SameBuffer t (send_active a p ok t)
  unfolding send_active
  send_active-same none p ok t = (refl, refl)
  send_active-same (some s) p true t = (refl, refl)
  send_active-same (some s) p false t = (refl, refl)

  ephemeral-same : (p : A) (ok : Bool) (t : Transport A) → SameBuffer t (send_ephemeral p ok t)
  unfolding send_ephemeral ephemeral_active
  ephemeral-same p ok t = ground arith

  connect-same :
      (g : ℕ) (s : Socket) (b : Option (A × List A)) (answers : ℕ → Bool) (t : Transport A)
      → SameBuffer t (connect g s b answers t).0
  unfolding connect
  connect-same g s b answers t = ground (arith, close_previous-same t.active s t)

  module _ (max_events : ℕ) where
    Agrees-same :
        (known : Bool × List A) (t u : Transport A)
        → SameBuffer t u
        → Agrees max_events known t
        → Agrees max_events known u
    Agrees-same known t u s a = record { gone = s.0 ∙ a.gone; kept = s.1 ∙ a.kept }

    send_to_thread-live :
        (p : A) (ok : Bool) (t : Transport A)
        → t.discarded ≡ false
        → send_to_thread max_events p ok t
          ≡ send_active t.active p ok (record t { events = append_bounded max_events p t.events })
    unfolding send_to_thread
    send_to_thread-live p ok t h = ground arith

    send_to_thread-gone :
        (p : A) (ok : Bool) (t : Transport A)
        → t.discarded ≡ true
        → send_to_thread max_events p ok t ≡ t
    unfolding send_to_thread
    send_to_thread-gone p ok t h = ground arith

    send-Agrees :
        (p : A) (ok : Bool) (gone : Bool) (kept : List A) (t : Transport A)
        → Agrees max_events (gone, kept) t
        → Agrees max_events
            (publish (sent_event p ok) (gone, kept))
            (send_to_thread max_events p ok t)
    send-Agrees p ok true kept t a =
        subst (Agrees max_events (true, kept)) (sym (send_to_thread-gone p ok t a.gone)) a
    send-Agrees p ok false kept t a =
        subst (Agrees max_events (false, kept ++ p ∷ [])) (sym (send_to_thread-live p ok t a.gone))
          (Agrees-same (false, kept ++ p ∷ [])
            (record t { events = append_bounded max_events p t.events }) _
            (send_active-same t.active p ok _)
            (record {
              gone = a.gone;
              kept = ap (append_bounded max_events p) a.kept ∙ last_n-append max_events kept p;
            }))

    empty-Agrees :
        (gone : Bool) (t : Transport A)
        → t.discarded ≡ gone
        → t.events ≡ []
        → Agrees max_events (gone, []) t
    empty-Agrees gone t g e = record { gone = g; kept = e ∙ sym (drop-nil (0 - max_events)) }

    step-Agrees :
        (e : Event A) (known : Bool × List A) (t : Transport A)
        → Agrees max_events known t
        → Agrees max_events (publish e known) (step max_events e t)
    unfolding step disconnect clear close_active discard
    step-Agrees (sent_event p ok) (gone, kept) t a = send-Agrees p ok gone kept t a
    step-Agrees (cleared true) (gone, kept) t a =
        Agrees-same (false, []) (record t { discarded = false; events = [] }) _
          (pop_active-same t.active 1012 _) (empty-Agrees false _ refl refl)
    step-Agrees (cleared false) (gone, kept) t a = empty-Agrees false _ refl refl
    step-Agrees discarding (gone, kept) t a =
        Agrees-same (true, [])
          (record t { generation = t.generation + 1; discarded = true; events = [] }) _
          (pop_active-same t.active 1000 _) (empty-Agrees true _ refl refl)
    step-Agrees (connected g s b answers) (gone, kept) t a =
        Agrees-same (gone, kept) t _ (connect-same g s b answers t) a
    step-Agrees (disconnected s) (gone, kept) t a = Agrees-same (gone, kept) t _ (refl, refl) a
    step-Agrees (sent_ephemeral p ok) (gone, kept) t a =
        Agrees-same (gone, kept) t _ (ephemeral-same p ok t) a
    step-Agrees (closing code) (gone, kept) t a =
        Agrees-same (gone, kept) t _ (pop_active-same t.active code t) a

    run-Agrees :
        (es : List (Event A)) (known : Bool × List A) (t : Transport A)
        → Agrees max_events known t
        → Agrees max_events (published es known) (run max_events es t)
    unfolding run published
    run-Agrees [] known t a = a
    run-Agrees (e ∷ es) known t a =
        run-Agrees es (publish e known) (step max_events e t) (step-Agrees e known t a)

  -- Whatever sockets come, fail and go, the history of a thread is the last `max_events` of the payloads
  -- published since it was last cleared or discarded, in order, and empty while it is discarded.
  pub history-run :
      (max_events : ℕ) (es : List (Event A))
      → history (run max_events es fresh) ≡ (
          if (published es (false, [])).0
          then []
          else last_n max_events (published es (false, [])).1)
  unfolding history
  history-run max_events es =
      let a =
        run-Agrees max_events es (false, []) fresh
          (empty-Agrees max_events false fresh refl refl) in
      rw (a.gone, a.kept) refl
