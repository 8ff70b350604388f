-- ===== src/Native/Once.antt =====
-- The invariant of the state of the native loop.
use synode.Prelude.{
  ℕ, suc, ◌<◌, String, false, ◌≡◌, refl, sym, ◌∙◌, ap, Option, none, some, List, [], ◌∷◌, ◌++◌,
  append_assoc, append-nil, ◌==◌, eq_refl, length, length-append, mem_text, mem_text-All, Distinct,
  Distinct-append, All, All-append, All-mono, Bool-cases, inl, inr, arith,
}
use synode.Tools.{ToolCall}
use synode.Policy.{ToolResult}
use synode.Native.Action.{TraceStep, LoopState, LoopError, times_seen, mark_seen}

-- What the steps of a trace observed, in order.
abbrev shown : Option ToolResult → List ToolResult
shown none = []
shown (some r) = r ∷ []

abbrev pub observations : List TraceStep → List ToolResult
observations [] = []
observations (t ∷ trace) = shown t.observation ++ observations trace

observations-snoc :
    (trace : List TraceStep) (t : TraceStep)
    → observations (trace ++ t ∷ []) ≡ observations trace ++ shown t.observation
observations-snoc [] t = elim t.observation as (λ o. shown o ++ [] ≡ shown o) [
  | none ↦ refl
  | some r ↦ refl
]
observations-snoc (u ∷ trace) t =
    elim u.observation
      as (λ o.
        shown o ++ observations (trace ++ t ∷ [])
        ≡ (shown o ++ observations trace) ++ shown t.observation) [
          | none ↦ observations-snoc trace t
          | some r ↦ ap (λ rest. r ∷ rest) (observations-snoc trace t)
        ]

-- A signature that counts as seen.
abbrev Seen : List (String × ℕ) → String → Type 0
Seen seen signature = 0 < times_seen signature seen

times_seen_self :
    (k : String) (n : ℕ) (seen : List (String × ℕ)) → times_seen k (mark_seen k n seen) ≡ n
unfolding times_seen mark_seen
times_seen_self k n [] = rw (eq_refl k) refl
times_seen_self k n ((s, m) ∷ seen) = elim (Bool-cases (s == k)) [
  | inl e ↦ rw (e, e) refl
  | inr e ↦ rw (e, e) (times_seen_self k n seen)
]

-- What was seen stays seen when a signature is marked again.
pub mark_seen-Seen :
    (k x : String) (n : ℕ) (seen : List (String × ℕ))
    → Seen seen x
    → Seen (mark_seen k (suc n) seen) x
unfolding times_seen mark_seen
mark_seen-Seen k x n [] h = omega (arith, h)
mark_seen-Seen k x n ((s, m) ∷ seen) h = elim (Bool-cases (s == k)) [
  | inl e ↦ elim (Bool-cases (s == x)) [
    | inl e' ↦ rw (e, e') (omega arith)
    | inr e' ↦ rw (e, e') (rw e' at h)
  ]
  | inr e ↦ elim (Bool-cases (s == x)) [
    | inl e' ↦ rw (e, e') (rw e' at h)
    | inr e' ↦ rw (e, e') (mark_seen-Seen k x n seen (rw e' at h))
  ]
]

module _ (dumps : ToolCall → String) where
  abbrev signature : Option ToolResult → Option ToolCall → List String
  signature none call = []
  signature (some result) none = []
  signature (some result) (some call) = dumps call ∷ []

  -- The signatures of the calls that were executed, in order.
  abbrev pub executed : List TraceStep → List String
  executed [] = []
  executed (t ∷ trace) = signature t.observation t.call ++ executed trace

  executed-quiet :
      (trace : List TraceStep) (t : TraceStep)
      → signature t.observation t.call ≡ []
      → executed (trace ++ t ∷ []) ≡ executed trace
  executed-quiet [] t h = rw h refl
  executed-quiet (u ∷ trace) t h =
      ap (λ rest. signature u.observation u.call ++ rest) (executed-quiet trace t h)

  executed-call :
      (trace : List TraceStep) (t : TraceStep) (k : String)
      → signature t.observation t.call ≡ k ∷ []
      → executed (trace ++ t ∷ []) ≡ executed trace ++ k ∷ []
  executed-call [] t k h = rw h refl
  executed-call (u ∷ trace) t k h =
      ap (λ rest. signature u.observation u.call ++ rest) (executed-call trace t k h)
      ∙ sym (append_assoc (signature u.observation u.call) (executed trace) (k ∷ []))

  -- After `n` steps: every step is in the trace, no call was executed twice, what was executed is
  -- marked as seen, and the results are what the steps observed.
  pub record Good (n : ℕ) (s : LoopState) : Type 0 where
    pub steps : length s.trace ≡ n
    pub once : Distinct (executed s.trace)
    pub known : All (Seen s.seen_tool_calls) (executed s.trace)
    pub results : observations s.trace ≡ s.tool_results

  module _ (n : ℕ) (s : LoopState) (g : Good n s) where
    longer : (t : TraceStep) → length (s.trace ++ t ∷ []) ≡ suc n
    longer t = omega (arith, length-append s.trace (t ∷ []), g.steps)

    -- A step that executes nothing.
    pub Good-quiet :
        (t : TraceStep) (errors : List LoopError) (seen : List (String × ℕ))
        → t.observation ≡ none
        → ((x : String) → Seen s.seen_tool_calls x → Seen seen x)
        → Good (suc n) (record s {
          validation_errors = errors;
          trace = s.trace ++ t ∷ [];
          seen_tool_calls = seen;
        })
    Good-quiet t errors seen quiet keep =
        let same : executed (s.trace ++ t ∷ []) ≡ executed s.trace =
          executed-quiet s.trace t (rw quiet refl) in
        record {
          steps = longer t;
          once = rw same g.once;
          known = rw same (All-mono _ _ keep (executed s.trace) g.known);
          results =
              rw (observations-snoc s.trace t, quiet, append-nil (observations s.trace)) g.results;
        }

    -- A mark alone.
    pub Good-marked :
        (k : String) (m : ℕ)
        → Good n (record s { seen_tool_calls = mark_seen k (suc m) s.seen_tool_calls })
    Good-marked k m = record {
      steps = g.steps;
      once = g.once;
      known =
          All-mono _ _ (λ x h. mark_seen-Seen k x m s.seen_tool_calls h) (executed s.trace) g.known;
      results = g.results;
    }

    -- A call that was never seen was never executed.
    unseen :
        (k : String) → times_seen k s.seen_tool_calls ≡ 0 → mem_text k (executed s.trace) ≡ false
    unseen k zero_times = elim (Bool-cases (mem_text k (executed s.trace))) [
      | inl m ↦
          let seen = mem_text-All (Seen s.seen_tool_calls) k (executed s.trace) m g.known in
          let bad : ⊥ = omega (arith, seen, zero_times) in absurd bad
      | inr m ↦ m
    ]

    -- A step that executes a call for the first time.
    pub Good-call :
        (t : TraceStep) (call : ToolCall) (result : ToolResult)
        → t.observation ≡ some result
        → t.call ≡ some call
        → times_seen (dumps call) s.seen_tool_calls ≡ 0
        → Good (suc n) (record s {
          tool_results = s.tool_results ++ result ∷ [];
          validation_errors = [];
          trace = s.trace ++ t ∷ [];
          seen_tool_calls = mark_seen (dumps call) 1 s.seen_tool_calls;
        })
    Good-call t call result o c zero_times =
        let k : String = dumps call in
        let more : executed (s.trace ++ t ∷ []) ≡ executed s.trace ++ k ∷ [] =
          executed-call s.trace t k (rw (o, c) refl) in
        record {
          steps = longer t;
          once = rw more (Distinct-append (executed s.trace) k g.once (unseen k zero_times));
          known = rw more (
              All-append _ (executed s.trace) (k ∷ [])
                (All-mono _ _ (λ x h. mark_seen-Seen k x 0 s.seen_tool_calls h) (executed s.trace)
                  g.known)
                (rw (times_seen_self k 1 s.seen_tool_calls) (omega arith), tt));
          results = rw (observations-snoc s.trace t, o) (ap (λ rs. rs ++ result ∷ []) g.results);
        }
