-- ===== src/Engine/Closer.antt =====
-- Each step of the agent graph brings its end closer.
use synode.Prelude.{
  ℕ, suc, ◌+◌, ◌-◌, ◌*◌, ◌≤◌, ◌<◌, Bool, true, false, not, ◌&&◌, ◌||◌, ◌≡◌, refl, Option, none,
  some, List, [], ◌∷◌, if◌then◌else◌, ltb, ltb→lt, Bool-cases, inl, inr, arith, is_some,
}
use synode.Engine.Routes.{
  GraphNode, RouteState, did_fail, needs_operator, after_patch, Verification, Proposed,
  route_after_supervisor, route_after_coding_inspect, route_after_verify, route_after_patch_propose,
  route_after_patch_repair, inspected, proposed, propose_patch,
}

-- The most nodes that are visited from here on, where `left` repairs may still be tried.
abbrev pub steps_to_end : GraphNode → ℕ → ℕ
steps_to_end GraphNode.finish left = 0
steps_to_end GraphNode.synthesizer left = 1
steps_to_end GraphNode.reviewer left = 2
steps_to_end GraphNode.graph_workers left = 3
steps_to_end GraphNode.verify left = 3 + 3 * left
steps_to_end GraphNode.coding_patch_repair left = 2 + 3 * left
steps_to_end GraphNode.patch_apply left = 4 + 3 * left
steps_to_end GraphNode.coding_patch_propose left = 5 + 3 * left
steps_to_end GraphNode.coding_inspect left = 6 + 3 * left
steps_to_end GraphNode.supervisor left = 7 + 3 * left
steps_to_end GraphNode.intake left = 8 + 3 * left

-- A repair is only begun where one is left.
abbrev pub Enough : ℕ → GraphNode → RouteState → Type 0
Enough limit GraphNode.coding_patch_repair s = s.coding_repair_attempts < limit
Enough limit node s = Unit

abbrev pub is_repair : GraphNode → Bool
is_repair GraphNode.coding_patch_repair = true
is_repair _ = false

abbrev pub repairs : List GraphNode → ℕ
repairs [] = 0
repairs (node ∷ visited) = if is_repair node then suc (repairs visited) else repairs visited

-- The most repairs that are visited from here on.
abbrev pub budget : GraphNode → ℕ → ℕ
budget GraphNode.finish left = 0
budget GraphNode.synthesizer left = 0
budget GraphNode.reviewer left = 0
budget GraphNode.graph_workers left = 0
budget node left = left

abbrev pub weight : GraphNode → ℕ
weight node = if is_repair node then 1 else 0

module _ (limit : ℕ) where
  abbrev pub left_of : RouteState → ℕ
  left_of s = limit - s.coding_repair_attempts

  -- From `node` in the state `s` on to `next` in the state `s'`.
  pub record Closer (node : GraphNode) (s : RouteState) (next : GraphNode) (s' : RouteState)
      : Type 0 where
    pub closer : steps_to_end next (left_of s') < steps_to_end node (left_of s)
    pub room : Enough limit next s'
    pub spent : weight node + budget next (left_of s') ≤ budget node (left_of s)

  Closer-if :
      (node : GraphNode) (s : RouteState) (c : Bool) (yes_node no_node : GraphNode)
      (s' : RouteState)
      → (c ≡ true → Closer node s yes_node s')
      → (c ≡ false → Closer node s no_node s')
      → Closer node s (if c then yes_node else no_node) s'
  Closer-if node s true a b s' f g = f refl
  Closer-if node s false a b s' f g = g refl

  pub supervisor-Closer :
      (s : RouteState) → Closer GraphNode.supervisor s (route_after_supervisor s) s
  unfolding route_after_supervisor
  supervisor-Closer s = elim (Bool-cases s.plan_only) [
    | inl p ↦
        rw (route_after_supervisor, p)
          (record { closer = omega arith; room = tt; spent = omega arith })
    | inr p ↦ elim (Bool-cases s.coding) [
      | inl c ↦ elim (Bool-cases s.native_coder) [
        | inl n ↦
            rw (route_after_supervisor, p, c, n)
              (record { closer = omega arith; room = tt; spent = omega arith })
        | inr n ↦
            rw (route_after_supervisor, p, c, n)
              (record { closer = omega arith; room = tt; spent = omega arith })
      ]
      | inr c ↦
          rw (route_after_supervisor, p, c)
            (record { closer = omega arith; room = tt; spent = omega arith })
    ]
  ]

  -- To the reviewer, from a node that comes before it.
  pub to_reviewer :
      (node : GraphNode) (s s' : RouteState)
      → 2 < steps_to_end node (left_of s)
      → weight node ≤ budget node (left_of s)
      → Closer node s GraphNode.reviewer s'
  to_reviewer node s s' far some_left = record {
    closer = far;
    room = tt;
    spent = omega (arith, some_left);
  }

  pub inspect-Closer :
      (s : RouteState) (usable : Bool)
      → Closer GraphNode.coding_inspect s
          (route_after_coding_inspect (inspected usable s))
          (inspected usable s)
  unfolding route_after_coding_inspect inspected
  inspect-Closer s false = to_reviewer _ s _ (omega arith) (omega arith)
  inspect-Closer s true =
      Closer-if GraphNode.coding_inspect s
        (s.patch_repair_error || is_some s.coding_failure_category) GraphNode.reviewer
        GraphNode.coding_patch_propose s (λ e. to_reviewer _ s s (omega arith) (omega arith))
        (λ e. record { closer = omega arith; room = tt; spent = omega arith })

  pub verify-Closer :
      (s : RouteState) (result : Verification)
      → Closer GraphNode.verify s
          (route_after_verify limit (record s { verification_result = result }))
          (record s { verification_result = result })
  unfolding route_after_verify
  verify-Closer s result =
      Closer-if GraphNode.verify s
        (s.coding && not s.fake_provider && did_fail result && ltb s.coding_repair_attempts limit)
        GraphNode.coding_patch_repair GraphNode.reviewer (record s { verification_result = result })
        (λ e.
          let more : ltb s.coding_repair_attempts limit ≡ true = ground (arith, e) in
          let less = ltb→lt s.coding_repair_attempts limit more in
          record { closer = omega (arith, less); room = less; spent = omega arith })
        (λ e. to_reviewer _ s _ (omega arith) (omega arith))

  -- To the patch's application, or past it to the verification, from a node before both.
  patch-Closer :
      (node : GraphNode) (s s' : RouteState)
      → 4 + 3 * left_of s' < steps_to_end node (left_of s)
      → weight node + left_of s' ≤ budget node (left_of s)
      → Closer node s (after_patch s') s'
  patch-Closer node s s' far room =
      Closer-if node s s'.no_change GraphNode.verify GraphNode.patch_apply s'
        (λ e. record { closer = omega (arith, far); room = tt; spent = room })
        (λ e. record { closer = far; room = tt; spent = room })

  pub propose-Closer :
      (s : RouteState) (stored : Option Bool) (outcome : Proposed)
      → let s' = propose_patch false stored outcome s in
        Closer GraphNode.coding_patch_propose s (route_after_patch_propose s') s'
  unfolding route_after_patch_propose
  propose-Closer s stored outcome =
      let s' = propose_patch false stored outcome s in
      Closer-if GraphNode.coding_patch_propose s
        (s'.patch_repair_error || needs_operator s'.coding_failure_category) GraphNode.reviewer
        (after_patch s') s' (λ e. to_reviewer _ s s' (omega arith) (omega arith))
        (λ e.
          patch-Closer _ s s' (omega (arith, same stored outcome))
            (omega (arith, same stored outcome)))
    where
      same :
          (stored : Option Bool) (outcome : Proposed)
          → (propose_patch false stored outcome s).coding_repair_attempts ≡ s.coding_repair_attempts
      same (some b) outcome = unfold propose_patch in refl
      same none (Proposed.invalid c) = unfold propose_patch proposed in refl
      same none Proposed.asks_operator = unfold propose_patch proposed in refl
      same none (Proposed.proposal b) = unfold propose_patch proposed in refl

  pub repair-Closer :
      (s : RouteState) (outcome : Proposed)
      → s.coding_repair_attempts < limit
      → let s' = propose_patch true none outcome s in
        Closer GraphNode.coding_patch_repair s (route_after_patch_repair s') s'
  unfolding route_after_patch_repair propose_patch proposed
  repair-Closer s (Proposed.invalid category) less =
      to_reviewer _ s _ (omega (arith, less)) (omega (arith, less))
  repair-Closer s Proposed.asks_operator less =
      to_reviewer _ s _ (omega (arith, less)) (omega (arith, less))
  repair-Closer s (Proposed.proposal no_change) less =
      let s' = propose_patch true none (Proposed.proposal no_change) s in
      Closer-if GraphNode.coding_patch_repair s s.patch_repair_error GraphNode.reviewer
        (after_patch s') s' (λ e. to_reviewer _ s s' (omega (arith, less)) (omega (arith, less)))
        (λ e. patch-Closer _ s s' (omega (arith, less)) (omega (arith, less)))
