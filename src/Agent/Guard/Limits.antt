-- ===== src/Agent/Guard/Limits.antt =====
-- No sequence of calls gets past the limits.
use shopping_agent.Common.{
  ◌+◌, ◌≤◌, ◌≡◌, true, Bool-cases, inl, inr, List, [], ◌∷◌, ◌++◌, text_eq_sound, subst, sym, ap₂,
  count_if, count_if-append, length, length-append, leb, arith,
}
use shopping_agent.Agent.Guard.{
  Key, same_key, ToolGuardState, Policy, record_tool_call, stored, record_all,
}

-- All recorded calls are counted, within the limit, and no key is recorded more often than allowed.
pub record IsGuarded (policy : Policy) (state : ToolGuardState) : Type 0 where
  pub counted : state.total_calls ≡ length state.calls
  pub bounded : state.total_calls ≤ policy.max_tool_calls
  pub repeated : (key : Key) → count_if (same_key key) state.calls ≤ policy.loop_threshold

same_key_sound : (a b : Key) → same_key a b ≡ true → a ≡ b
same_key_sound (n, x) (m, y) h =
    ap₂ (λ p q. (p, q)) (text_eq_sound n m (ground (arith, h)))
      (text_eq_sound x y (ground (arith, h)))

module _ (policy : Policy) (state : ToolGuardState) (guarded : IsGuarded policy state) where
  repeated-append :
      (new key : Key)
      → count_if (same_key new) state.calls + 1 ≤ policy.loop_threshold
      → count_if (same_key key) (state.calls ++ new ∷ []) ≤ policy.loop_threshold
  repeated-append new key room = elim (Bool-cases (same_key key new)) [
    | inl same ↦
        subst (λ k. count_if (same_key k) (state.calls ++ new ∷ []) ≤ policy.loop_threshold)
          (sym (same_key_sound key new same))
          (ground (arith, count_if-append (same_key new) state.calls (new ∷ []), room))
    | inr other ↦
        ground (
          arith,
          count_if-append (same_key key) state.calls (new ∷ []),
          guarded.repeated key,
          other,
        )
  ]

  recorded-IsGuarded :
      (new : Key)
      → state.total_calls + 1 ≤ policy.max_tool_calls
      → count_if (same_key new) state.calls + 1 ≤ policy.loop_threshold
      → IsGuarded policy
          (record { total_calls = state.total_calls + 1; calls = state.calls ++ new ∷ [] })
  recorded-IsGuarded new total room = record {
    counted = omega (arith, length-append state.calls (new ∷ []), guarded.counted);
    bounded = total;
    repeated = λ key. repeated-append new key room;
  }

  stored-IsGuarded :
      (new : Key) → IsGuarded policy (stored policy (record_tool_call policy new state) state)
  unfolding record_tool_call
  stored-IsGuarded new = elim (Bool-cases (leb policy.max_tool_calls state.total_calls)) [
    | inl full ↦ rw full guarded
    | inr free ↦
        elim (Bool-cases (leb policy.loop_threshold (count_if (same_key new) state.calls))) [
          | inl looping ↦ rw (free, looping) guarded
          | inr fresh ↦
              rw (free, fresh)
                (recorded-IsGuarded new (ground (arith, free)) (ground (arith, fresh)))
        ]
  ]

-- From a state within the limits, whatever calls a model asks for, the state counts the recorded
-- calls, they are at most the limit, and no tool is recorded with the same arguments more often than the loop threshold.
pub record_all-IsGuarded :
    (policy : Policy) (keys : List Key) (state : ToolGuardState)
    → IsGuarded policy state
    → IsGuarded policy (record_all policy keys state)
unfolding record_all
record_all-IsGuarded policy [] state g = g
record_all-IsGuarded policy (key ∷ keys) state g =
    record_all-IsGuarded policy keys _ (stored-IsGuarded policy state g key)
