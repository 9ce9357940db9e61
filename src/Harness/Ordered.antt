-- ===== src/Harness/Ordered.antt =====
-- The phases put the tools of a task in order.
use shopping_agent.Common.{
  ◌≡◌, refl, sym, subst, Bool, true, false, ◌||◌, Bool-cases, inl, inr, List, [], ◌∷◌, ◌++◌, Text,
  codes, text_eq, text_eq_sound, text_eq_refl, text_mem, if◌then◌else◌, arith,
}
use shopping_agent.Harness.{
  Phase, planning, searching, comparing, concluding, phase_tools, is_tool_allowed, observed_phase,
  observe_tool, Step, call, planned, transition, planner_output_ready, Session, call_tool, step,
  run, started,
}

-- The first list is found in the second in this order.
unfoldable pub in_order : List Text → List Text → Bool
unfolding text_eq
in_order [] log = true
in_order (t ∷ ts) [] = false
in_order (t ∷ ts) (u ∷ log) =
    let found = in_order ts log in
    let later = in_order (t ∷ ts) log in if text_eq t u then found else later

in_order-append :
    (ts log : List Text) (u : Text) → in_order ts log ≡ true → in_order ts (log ++ u ∷ []) ≡ true
unfolding in_order
in_order-append [] log u h = refl
in_order-append (t ∷ ts) [] u h = cc
in_order-append (t ∷ ts) (v ∷ log) u h =
    ground (arith, h, in_order-append ts log u, in_order-append (t ∷ ts) log u)

in_order_next :
    (ts log : List Text) (u : Text)
    → in_order ts log ≡ true
    → in_order (ts ++ u ∷ []) (log ++ u ∷ []) ≡ true
unfolding in_order
in_order_next [] [] u h = rw (text_eq_refl u) refl
in_order_next [] (v ∷ log) u h = ground (arith, in_order_next [] log u h)
in_order_next (t ∷ ts) [] u h = cc
in_order_next (t ∷ ts) (v ∷ log) u h =
    ground (arith, h, in_order_next ts log u, in_order_next (t ∷ ts) log u)

-- What has been carried out, in this order, before a phase.
abbrev pub needs : Phase → List Text
needs planning = []
needs searching = []
needs comparing = codes "recall" ∷ []
needs concluding = codes "recall" ∷ codes "shipping_calc" ∷ []

abbrev IsOrdered : Session → Type 0
IsOrdered s = in_order (needs s.state.phase) s.log ≡ true

shipping_comparing :
    (p : Phase) → text_mem (codes "shipping_calc") (phase_tools p) ≡ true → p ≡ comparing
unfolding text_mem phase_tools
shipping_comparing planning h = cc
shipping_comparing searching h = cc
shipping_comparing comparing h = refl
shipping_comparing concluding h = cc

module _ (p : Phase) (log : List Text) (ordered : in_order (needs p) log ≡ true) where
  recall-in_order : in_order (needs comparing) (log ++ codes "recall" ∷ []) ≡ true
  unfolding in_order
  recall-in_order = in_order_next [] log (codes "recall") refl

  shipping-in_order :
      text_mem (codes "shipping_calc") (phase_tools p) ≡ true
      → in_order (needs concluding) (log ++ codes "shipping_calc" ∷ []) ≡ true
  shipping-in_order allowed =
      in_order_next (needs comparing) log (codes "shipping_calc")
        (subst (λ q. in_order (needs q) log ≡ true) (shipping_comparing p allowed) ordered)

  planner-in_order : (tool : Text) → in_order (needs searching) (log ++ tool ∷ []) ≡ true
  unfolding in_order
  planner-in_order tool = refl

  observed-in_order :
      (tool : Text)
      → text_mem tool (phase_tools p) ≡ true
      → in_order (needs (observed_phase tool p)) (log ++ tool ∷ []) ≡ true
  unfolding observed_phase
  observed-in_order tool allowed = elim (Bool-cases (text_eq tool (codes "planner"))) [
    | inl plan ↦ rw plan (planner-in_order tool)
    | inr a ↦ elim (Bool-cases (text_eq tool (codes "recall"))) [
      | inl recalls ↦
          rw (a, recalls)
            (subst (λ t. in_order (needs comparing) (log ++ t ∷ []) ≡ true)
              (sym (text_eq_sound tool (codes "recall") recalls)) recall-in_order)
      | inr b ↦ elim (Bool-cases (text_eq tool (codes "shipping_calc"))) [
        | inl ships ↦
            let same = text_eq_sound tool (codes "shipping_calc") ships in
            rw (a, b, ships)
              (subst (λ t. in_order (needs concluding) (log ++ t ∷ []) ≡ true) (sym same)
                (shipping-in_order (subst (λ t. text_mem t (phase_tools p) ≡ true) same allowed)))
        | inr c ↦ rw (a, b, c) (in_order-append (needs p) log tool ordered)
      ]
    ]
  ]

first : IsOrdered started
unfolding in_order
first = refl

call_tool-IsOrdered :
    (tool : Text) (succeeds : Bool) (s : Session)
    → is_tool_allowed tool s.state ≡ true
    → IsOrdered s
    → IsOrdered (call_tool tool succeeds s)
unfolding is_tool_allowed observe_tool
call_tool-IsOrdered tool false s allowed ordered = ordered
call_tool-IsOrdered tool true s allowed ordered =
    observed-in_order s.state.phase s.log ordered tool allowed

planned-IsOrdered :
    (p : Phase) (history log : List Text)
    → in_order (needs p) log ≡ true
    → in_order
        (needs (transition planner_output_ready (record { phase = p; history = history })).0.phase)
        log
      ≡ true
unfolding transition in_order
planned-IsOrdered planning history log ordered = refl
planned-IsOrdered searching history log ordered = ordered
planned-IsOrdered comparing history log ordered = ordered
planned-IsOrdered concluding history log ordered = ordered

step-IsOrdered : (a : Step) (s : Session) → IsOrdered s → IsOrdered (step a s)
unfolding step
step-IsOrdered planned s ordered = planned-IsOrdered s.state.phase s.state.history s.log ordered
step-IsOrdered (call tool succeeds) s ordered = elim (Bool-cases (is_tool_allowed tool s.state)) [
  | inl allowed ↦ rw allowed (call_tool-IsOrdered tool succeeds s allowed ordered)
  | inr refused ↦ rw refused ordered
]

run-IsOrdered : (steps : List Step) (s : Session) → IsOrdered s → IsOrdered (run steps s)
unfolding run
run-IsOrdered [] s ordered = ordered
run-IsOrdered (a ∷ rest) s ordered = run-IsOrdered rest (step a s) (step-IsOrdered a s ordered)

abbrev pub conclusions : List Text
conclusions = codes "item_picker" ∷ codes "shopping_summary" ∷ []

permits_conclusion :
    (p : Phase)
    → (text_mem (codes "item_picker") (phase_tools p)
        || text_mem (codes "shopping_summary") (phase_tools p))
      ≡ true
    → p ≡ concluding
unfolding text_mem phase_tools
permits_conclusion planning h = cc
permits_conclusion searching h = cc
permits_conclusion comparing h = cc
permits_conclusion concluding h = refl

first_or : (a b : Bool) → a ≡ true → (a || b) ≡ true
first_or a b h = ground (arith, h)

second_or : (a b : Bool) → b ≡ true → (a || b) ≡ true
second_or a b h = ground (arith, h)

other_name :
    (tool : Text)
    → text_mem tool conclusions ≡ true
    → text_eq tool (codes "item_picker") ≡ false
    → text_eq tool (codes "shopping_summary") ≡ true
unfolding text_mem
other_name tool h k = ground (arith, h, k)

concluding_tools :
    (tool : Text) (p : Phase)
    → text_mem tool conclusions ≡ true
    → text_mem tool (phase_tools p) ≡ true
    → p ≡ concluding
concluding_tools tool p concludes allowed = elim (Bool-cases (text_eq tool (codes "item_picker"))) [
  | inl picks ↦ permits_conclusion p (
      first_or _ _
        (subst (λ t. text_mem t (phase_tools p) ≡ true) (text_eq_sound tool _ picks) allowed))
  | inr other ↦ permits_conclusion p (
      second_or _ _ (
        subst (λ t. text_mem t (phase_tools p) ≡ true)
          (text_eq_sound tool _ (other_name tool concludes other)) allowed))
]

-- Whatever tools a task calls, one after the other, and whichever of the calls fail: when the picker or the
-- summary is permitted, a recall has been carried out, and a shipping calculation after it.
pub run-in_order :
    (steps : List Step) (tool : Text)
    → text_mem tool conclusions ≡ true
    → is_tool_allowed tool (run steps started).state ≡ true
    → in_order (codes "recall" ∷ codes "shipping_calc" ∷ []) (run steps started).log ≡ true
unfolding is_tool_allowed
run-in_order steps tool concludes allowed =
    let after = run steps started in
    subst (λ p. in_order (needs p) after.log ≡ true)
      (concluding_tools tool after.state.phase concludes allowed)
      (run-IsOrdered steps started first)
