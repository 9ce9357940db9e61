-- ===== src/Transport/Replay.antt =====
-- What a new socket is sent, and which socket is the live one.

use shopping_agent.Common.{
  ℕ, ◌+◌, ◌≡◌, refl, sym, ap, ap₂, ◌∙◌, Bool, true, false, Bool-cases, inl, inr, Option, none, some,
  List, [], ◌∷◌, ◌++◌, map, arith, if◌then◌else◌,
}
use shopping_agent.Transport.{
  Socket, Transport, close_previous, welcome, connect, send_all, greeting,
}

module _ {A : Type 0} where
  send_all_complete :
      (answers : ℕ → Bool) (i : ℕ) (payloads : List A)
      → (send_all answers i payloads).1 ≡ true
      → (send_all answers i payloads).0 ≡ payloads
  unfolding send_all
  send_all_complete answers i [] h = refl
  send_all_complete answers i (p ∷ ps) h = elim (Bool-cases (answers i)) [
    | inl e ↦
        ground
          (arith, ap (λ xs. p ∷ xs) (send_all_complete answers (i + 1) ps (ground (arith, h, e))))
    | inr e ↦ absurd (ground arith)
  ]

  -- What a socket that `connect` accepted finds.
  pub record IsWelcomed (generation : ℕ) (socket : Socket) (bootstrap : Option (A × List A))
      (t next : Transport A) : Type 0 where
    pub live : t.discarded ≡ false
    pub current : t.generation ≡ generation
    pub installed : next.active ≡ some socket
    pub greeted : next.sent ≡ t.sent ++ map (λ p. (socket, p)) (greeting bootstrap t)
    pub unchanged : next.events ≡ t.events

  close_previous-fields :
      (a : Option Socket) (s : Socket) (t : Transport A)
      → ((close_previous a s t).events ≡ t.events) × ((close_previous a s t).sent ≡ t.sent)
  close_previous-fields none s t = (refl, refl)
  close_previous-fields (some p) s t = ground arith

  greeting-closed :
      (b : Option (A × List A)) (s : Socket) (t : Transport A)
      → greeting b (record (close_previous t.active s t) { active = some s }) ≡ greeting b t
  greeting-closed none s t = (close_previous-fields t.active s t).0
  greeting-closed (some (p, ps)) s t = refl

  abbrev outcome : Bool → Transport A → Transport A → Transport A × Bool
  outcome out t u = if out then (t, true) else (u, false)

  flagged : (out : Bool) (t u : Transport A) → (outcome out t u).1 ≡ true → out ≡ true
  flagged true t u h = refl
  flagged false t u h = h

  either_sent :
      (out : Bool) (t u : Transport A) → t.sent ≡ u.sent → (outcome out t u).0.sent ≡ t.sent
  either_sent true t u h = refl
  either_sent false t u h = sym h

  welcome-sent :
      (s : Socket) (b : Option (A × List A)) (answers : ℕ → Bool) (u : Transport A)
      → (welcome s b answers u).1 ≡ true
      → (welcome s b answers u).0.sent ≡ u.sent ++ map (λ p. (s, p)) (greeting b u)
  unfolding welcome
  welcome-sent s b answers u h =
      let out = send_all answers 0 (greeting b u) in
      let all_out = flagged out.1 _ _ h in
      either_sent out.1 _ _ refl
      ∙ ap (λ ps. u.sent ++ map (λ p. (s, p)) ps)
          (send_all_complete answers 0 (greeting b u) all_out)

  connect-welcome :
      (g : ℕ) (s : Socket) (b : Option (A × List A)) (answers : ℕ → Bool) (t : Transport A)
      → (connect g s b answers t).1 ≡ true
      → connect g s b answers t
        ≡ welcome s b answers (record (close_previous t.active s t) { active = some s })
  unfolding connect
  connect-welcome g s b answers t h = ground arith

  connect-sent :
      (g : ℕ) (s : Socket) (b : Option (A × List A)) (answers : ℕ → Bool) (t : Transport A)
      → (connect g s b answers t).1 ≡ true
      → (connect g s b answers t).0.sent ≡ t.sent ++ map (λ p. (s, p)) (greeting b t)
  connect-sent g s b answers t h =
      let w = connect-welcome g s b answers t h in
      ap (λ r. r.0.sent) w
      ∙ welcome-sent s b answers _ (sym (ap (λ r. r.1) w) ∙ h)
      ∙ ap₂ (λ old ps. old ++ map (λ p. (s, p)) ps) (close_previous-fields t.active s t).1
          (greeting-closed b s t)

  -- A `connect` that returns True found its thread live and of the generation it had read. Its socket is
  -- now the active one and was sent the whole greeting in order: the payload of `bootstrap` and the events
  -- of its snapshot, or, without `bootstrap`, the history. The buffered events are as before.
  pub connect-IsWelcomed :
      (generation : ℕ) (socket : Socket) (bootstrap : Option (A × List A)) (answers : ℕ → Bool)
      → (t : Transport A) → (connect generation socket bootstrap answers t).1 ≡ true
      → IsWelcomed generation socket bootstrap t (connect generation socket bootstrap answers t).0
  unfolding connect
  connect-IsWelcomed generation socket bootstrap answers t h = record {
    live = ground arith;
    current = ground arith;
    installed = ground arith;
    greeted = connect-sent generation socket bootstrap answers t h;
    unchanged = ground (arith, close_previous-fields t.active socket t);
  }
