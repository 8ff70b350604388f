-- ===== src/Repository/Requests.antt =====
-- The operator requests of src/synode/infrastructure/persistence/repository.py: creation,
-- resolution, cancellation, and the response that a resumed run consumes. Payloads are not cut to
-- their size limit here.
use synode.Prelude.{
  ℕ, String, Bool, not, ◌&&◌, Option, none, some, List, [], ◌∷◌, ◌++◌, ◌==◌, ◌⊹◌, if◌then◌else◌,
  keep_if, ltb, or_else, is_some,
}
use synode.Domain.{
  RunStatus, ThreadMessageAuthorType, ThreadMessageType, EventType, OperatorRequestKind,
  OperatorRequestStatus, OperatorResponseType, is_open, is_resolved,
}
use synode.Store.{
  OperatorRequest, Response, Json, Details, Db, Error, M, pure, gets, or_raise, modify, raise_if,
  ◌>>=◌, ◌>>◌, find, update, for_each, request_key,
}
use synode.Repository.Threads.{add_thread_message, add_event}
use synode.Repository.Runs.{set_run_status}

unfoldable pub require_request : String → M OperatorRequest
require_request id = do
  found ← gets (λ db. find request_key id db.requests)
  or_raise found (Error.request_not_found id)

unfoldable pub write_request : String → (ℕ → OperatorRequest → OperatorRequest) → M (Unit {0})
write_request id f =
    modify (λ db. record db { requests = update request_key id (f db.now) db.requests })

unfoldable pub insert_request : OperatorRequest → M OperatorRequest
insert_request q = do
  modify (λ db. record db { requests = db.requests ++ q ∷ [] })
  set_run_status q.run_id RunStatus.waiting_operator none none
  add_event q.run_id EventType.operator_required q.role
      (Details.operator_wanted q.id q.kind q.node_id q.role)
  add_thread_message q.thread_id ThreadMessageAuthorType.system "operator"
      ThreadMessageType.operator_request q.prompt (some q.run_id)
  pure q

-- `id` is the request id that the caller gave, or else what `new_id()` returned, under which no
-- request is found. A request that exists already is returned as it is.
unfoldable pub create_operator_request :
    String
    → String
    → String
    → OperatorRequestKind
    → String
    → Json
    → Json
    → Option String
    → Option String
    → M OperatorRequest
create_operator_request id run_id thread_id kind prompt context proposed node_id role = do
  existing ← gets (λ db. find request_key id db.requests)
  let fresh : OperatorRequest = record {
    id = id;
    run_id = run_id;
    thread_id = thread_id;
    node_id = node_id;
    role = role;
    kind = kind;
    prompt = prompt;
    context = context;
    proposed_payload = proposed;
    status = OperatorRequestStatus.pending;
    response_payload = Response.no_response;
    resolved_at = none;
    cancelled_at = none;
    consumed_at = none;
  }
  elim existing [ none ↦ insert_request fresh | some q ↦ pure q ]

unfoldable pub response_word : Option OperatorResponseType → String
response_word none = "response"
response_word (some OperatorResponseType.approve) = "approve"
response_word (some OperatorResponseType.edit) = "edit"
response_word (some OperatorResponseType.reject) = "reject"
response_word (some OperatorResponseType.respond) = "respond"

-- The payload's `response_type` is one of the enumeration or missing, as the callers ensure.
unfoldable pub resolve_operator_request :
    String → Option OperatorResponseType → Option String → Json → M OperatorRequest
resolve_operator_request id response_type message payload = do
  q ← require_request id
  raise_if (not (is_open q.status)) (Error.request_already_decided id)
  write_request id (λ now r. record r {
    status = OperatorRequestStatus.resolved;
    response_payload = Response.answered response_type message payload;
    resolved_at = some now;
  })
  add_event q.run_id EventType.operator_decided q.role
      (Details.operator_outcome q.id q.kind response_type)
  add_thread_message q.thread_id ThreadMessageAuthorType.system "operator"
      ThreadMessageType.operator_decision
      ("Operator response recorded: " ⊹ response_word response_type) (some q.run_id)
  pure q

-- `reason or "cancelled"`
abbrev dropped_reason : Option String → String
dropped_reason none = "cancelled"
dropped_reason (some reason) = if reason == "" then "cancelled" else reason

unfoldable pub request_cancelled : Option String → ℕ → OperatorRequest → OperatorRequest
request_cancelled reason now q = record q {
  status = OperatorRequestStatus.cancelled;
  cancelled_at = some now;
  response_payload = Response.dropped (dropped_reason reason);
}

unfoldable pub cancel_one : Option String → OperatorRequest → M (Unit {0})
cancel_one reason q = do
  write_request q.id (request_cancelled reason)
  add_event q.run_id EventType.operator_cancelled q.role
      (Details.operator_dropped q.id q.kind reason)

unfoldable pub cancel_operator_request : String → Option String → M OperatorRequest
cancel_operator_request id reason = do
  q ← require_request id
  raise_if (not (is_open q.status)) (Error.request_already_decided id)
  cancel_one reason q
  pure q

-- The pending operator requests of a run, in the order of their creation.
unfoldable pub open_requests : String → Db → List OperatorRequest
open_requests run_id db = keep_if (λ q. q.run_id == run_id && is_open q.status) db.requests

unfoldable pub cancel_pending_operator_requests : String → Option String → M (Unit {0})
cancel_pending_operator_requests run_id reason = do
  requests ← gets (open_requests run_id)
  for_each requests (cancel_one reason)

-- Resolved and not consumed.
abbrev pub is_ready : String → OperatorRequest → Bool
is_ready run_id q = q.run_id == run_id && is_resolved q.status && not (is_some q.consumed_at)

-- The earlier by `resolved_at`, the first of the two where they are equal.
abbrev earlier : OperatorRequest → Option OperatorRequest → Option OperatorRequest
earlier q none = some q
earlier q (some p) =
    if ltb (or_else p.resolved_at 0) (or_else q.resolved_at 0) then some p else some q

first_resolved : List OperatorRequest → Option OperatorRequest
first_resolved [] = none
first_resolved (q ∷ qs) = earlier q (first_resolved qs)

unfoldable pub latest_unconsumed_operator_response : String → Db → Option OperatorRequest
unfolding first_resolved
latest_unconsumed_operator_response run_id db =
    first_resolved (keep_if (is_ready run_id) db.requests)

unfoldable pub mark_operator_request_consumed : String → M (Unit {0})
mark_operator_request_consumed id = do
  require_request id
  write_request id (λ now r. record r { consumed_at = some now })
