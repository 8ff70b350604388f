-- ===== src/Graph/Contracts.antt =====
-- The contracts of nodes and the backends that run them:
-- src/synode/domain/runtime/contracts.py and src/synode/domain/runtime/capabilities.py. The schema
-- of a contract's payload is left out.
use synode.Prelude.{
  String, Bool, true, false, not, ◌&&◌, List, [], ◌∷◌, ◌==◌, if◌then◌else◌, mem_text,
}

pub data AgentGraphNodeKind : Type 0 where
  control worker : AgentGraphNodeKind

abbrev pub same_kind : AgentGraphNodeKind → AgentGraphNodeKind → Bool
same_kind AgentGraphNodeKind.control AgentGraphNodeKind.control = true
same_kind AgentGraphNodeKind.worker AgentGraphNodeKind.worker = true
same_kind _ _ = false

-- The exceptions that the rules of a graph raise.
pub data GraphError : Type 0 where
  profile_not_found role_not_found node_not_found : String → GraphError
  wrong_version no_nodes invalid_node invalid_edge : GraphError
  duplicate_node duplicate_role wrong_kind : String → GraphError
  duplicate_role_nodes unknown_edge_end cyclic : GraphError
  unknown_contract wrong_contract_kind : String → GraphError
  supervisor_contract reviewer_contract : GraphError
  unknown_backend : String → GraphError
  unsupported_contract : String → String → GraphError

pub data Checked {ℓ} (A : Type ℓ) : Type ℓ where
  good : A → Checked A
  bad : GraphError → Checked A

-- `if b: raise e`
unfoldable pub refuse : Bool → GraphError → Checked (Unit {0})
refuse b e = if b then Checked.bad e else Checked.good tt

infixl 5 ◌>>=◌
-- Opening this opens `refuse` too.
unfoldable pub ◌>>=◌ : {A B : Type 0} → Checked A → (A → Checked B) → Checked B
unfolding refuse
Checked.good a >>= f = f a
Checked.bad e >>= f = Checked.bad e

infixl 5 ◌>>◌
abbrev pub ◌>>◌ : {A B : Type 0} → Checked A → Checked B → Checked B
m >> k = m >>= λ _. k

-- The contracts of `_default_contracts`, by the kind of node that they are for.
abbrev pub control_contracts : List String
control_contracts = "supervisor_decision" ∷ "reviewer_decision" ∷ []

abbrev pub worker_contracts : List String
worker_contracts =
    "worker_agent_output" ∷ "coding_inspection" ∷ "coding_patch_proposal" ∷ "verification_plan"
    ∷ "tool_result" ∷ []

-- `get`, down to the contract's node kind
unfoldable pub contract_kind : String → Checked AgentGraphNodeKind
contract_kind id =
    if mem_text id control_contracts
    then Checked.good AgentGraphNodeKind.control
    else if mem_text id worker_contracts
    then Checked.good AgentGraphNodeKind.worker
    else Checked.bad (GraphError.unknown_contract id)

unfoldable pub validate_binding : String → String → AgentGraphNodeKind → Checked (Unit {0})
unfolding contract_kind
validate_binding contract_id role_name kind = do
  spec_kind ← contract_kind contract_id
  refuse (not (same_kind spec_kind kind)) (GraphError.wrong_contract_kind contract_id)
  refuse (role_name == "supervisor" && not (contract_id == "supervisor_decision"))
      GraphError.supervisor_contract
  refuse (role_name == "reviewer" && not (contract_id == "reviewer_decision"))
      GraphError.reviewer_contract

unfoldable pub default_contract_for_role : String → String
default_contract_for_role role_name =
    if role_name == "supervisor"
    then "supervisor_decision"
    else if role_name == "reviewer"
    then "reviewer_decision"
    else "worker_agent_output"

-- `_expected_node_kind` of src/synode/infrastructure/persistence/repository.py
unfoldable pub expected_node_kind : String → AgentGraphNodeKind
expected_node_kind role_name =
    if mem_text role_name ("supervisor" ∷ "reviewer" ∷ [])
    then AgentGraphNodeKind.control
    else AgentGraphNodeKind.worker

abbrev pub openhands_contracts : List String
openhands_contracts = "supervisor_decision" ∷ "reviewer_decision" ∷ "worker_agent_output" ∷ []

-- `backend_capabilities`, down to the supported contracts
unfoldable pub supported_contracts : String → Checked (List String)
supported_contracts backend_id =
    if backend_id == "native_langgraph"
    then Checked.good ("supervisor_decision" ∷ "reviewer_decision" ∷ worker_contracts)
    else if backend_id == "openhands"
    then Checked.good openhands_contracts
    else Checked.bad (GraphError.unknown_backend backend_id)

unfoldable pub validate_backend_contract : String → String → Checked (Unit {0})
unfolding supported_contracts
validate_backend_contract backend_id contract_id = do
  supported ← supported_contracts backend_id
  refuse (not (mem_text contract_id supported))
      (GraphError.unsupported_contract backend_id contract_id)
