-- ===== src/Graph/Bindings.antt =====
-- How the rules for contracts, node kinds and backends fit together.
use synode.Prelude.{String, ◌≡◌, refl, ◌==◌, eq_iff, Bool-cases, inl, inr}
use synode.Graph.Contracts.{
  Checked, validate_binding, default_contract_for_role, expected_node_kind,
  validate_backend_contract, supported_contracts, contract_kind, refuse, ◌>>=◌,
}

-- The default contract of every role is one that its node may have, and that both backends run.
pub default_contract-binding :
    (role_name : String)
    → (validate_binding
          (default_contract_for_role role_name)
          role_name
          (expected_node_kind role_name)
        ≡ Checked.good tt)
      × (validate_backend_contract "native_langgraph" (default_contract_for_role role_name)
          ≡ Checked.good tt)
      × (validate_backend_contract "openhands" (default_contract_for_role role_name)
          ≡ Checked.good tt)
unfolding validate_binding default_contract_for_role expected_node_kind validate_backend_contract
    supported_contracts contract_kind refuse ◌>>=◌
default_contract-binding role_name = elim (Bool-cases (role_name == "supervisor")) [
  | inl e ↦ rw ((eq_iff role_name "supervisor").0 e) (refl, refl, refl)
  | inr e ↦ elim (Bool-cases (role_name == "reviewer")) [
    | inl e' ↦ rw ((eq_iff role_name "reviewer").0 e') (refl, refl, refl)
    | inr e' ↦ rw (e, e') (refl, refl, refl)
  ]
]
