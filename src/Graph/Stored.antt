-- ===== src/Graph/Stored.antt =====
-- What holds of the agent graphs in the table, whatever creations and updates were made.
use synode.Prelude.{
  any, ◌||◌, ◌≤◌, String, Bool, true, false, ◌≡◌, refl, sym, ap, ◌∙◌, Option, none, some, List, [],
  ◌∷◌, ◌==◌, if◌then◌else◌, or_else, All-append, Bool-cases, Option-cases, inl, inr, arith,
}
use synode.Store.{find, update, All-update_found}
use synode.Graph.Contracts.{Checked}
use synode.Graph.Config.{AgentRole, GraphConfig, Resolved, normalize_graph_config}
use synode.Graph.Rows.{
  AgentGraph, GraphValues, WriteError, Written, graph_key, cleared, clear_default_graphs,
  cleared_if, normalized, insert_graph, create_agent_graph, merged, sets_graph, updated_config,
  updated_row, takes_name, update_agent_graph,
}
use synode.Graph.Defaults.{
  IsSound, count_default, AllSound, normalized-IsSound, clear-count, count-update,
  count-update_plain, cleared_if-AllSound, cleared_if-count, after_write,
}

module _ (profiles : List String) (roles : List AgentRole) (id : String) (rows : List AgentGraph)
    (h : AllSound rows) where
  create-AllSound :
      (name : String) (g : GraphConfig) (is_default enabled : Bool)
      → AllSound
          (after_write rows (create_agent_graph profiles roles id name g is_default enabled rows))
  unfolding create_agent_graph
  create-AllSound name g is_default enabled =
      resolved_as (normalize_graph_config profiles roles g) refl
    where
      resolved_as :
          (c : Checked Resolved)
          → normalize_graph_config profiles roles g ≡ c
          → AllSound (
              after_write rows
                (create_agent_graph profiles roles id name g is_default enabled rows))
      resolved_as (Checked.bad e) s = rw (create_agent_graph, s) h
      resolved_as (Checked.good r) s =
          rw (create_agent_graph, s)
            (inserted
              (record {
                id = id;
                name = name;
                config = normalized g r;
                is_default = is_default;
                enabled = enabled;
              })
              refl (normalized-IsSound profiles roles g r s))
        where
          inserted :
              (row : AgentGraph)
              → row.is_default ≡ is_default
              → IsSound row.config
              → AllSound (after_write rows (insert_graph row (cleared_if is_default rows)))
          inserted row d sound =
              elim (Bool-cases
                (any (λ x. x.name == row.name || x.id == row.id) (cleared_if is_default rows))) [
                  | inl e ↦ rw e h
                  | inr e ↦ rw e (
                    All-append _ (cleared_if is_default rows) (row ∷ [])
                        (cleared_if-AllSound is_default rows h).0 (sound, tt),
                    cleared_if-count is_default rows row d h.1,
                  )
                ]

  updated-IsSound :
      (v : GraphValues) (g : GraphConfig) (r : Resolved)
      → normalize_graph_config profiles roles (merged v g) ≡ Checked.good r
      → IsSound g
      → IsSound (updated_config v g r)
  updated-IsSound v g r s sound = elim (Bool-cases (sets_graph v)) [
    | inl e ↦ rw e (normalized-IsSound profiles roles (merged v g) r s)
    | inr e ↦ rw e (record {
      distinct_ids = sound.distinct_ids;
      distinct_roles = sound.distinct_roles;
      known_ends = sound.known_ends;
      acyclic = sound.acyclic;
      runs = sound.runs;
    })
  ]

  -- The row that is found where the defaults are cleared has the configuration that it had.
  find-cleared :
      (b : Bool) (table : List AgentGraph) (x row : AgentGraph)
      → find graph_key id (cleared_if b table) ≡ some x
      → find graph_key id table ≡ some row
      → x.config ≡ row.config
  unfolding find clear_default_graphs
  find-cleared b [] x row e e' = cc
  find-cleared false (g ∷ table) x row e e' = cc (e, e')
  find-cleared true (g ∷ table) x row e e' = elim (Bool-cases (g.id == id)) [
    | inl same ↦
        let here : some (cleared g) ≡ some x = rw same at e in
        let there : some g ≡ some row = rw same at e' in
        let left : cleared g ≡ x = cc in
        let right : g ≡ row = cc in ap (λ y. y.config) (sym left) ∙ ap (λ y. y.config) right
    | inr other ↦ find-cleared true table x row (rw other at e) (rw other at e')
  ]

  updated-count :
      (default : Option Bool) (f : AgentGraph → AgentGraph)
      → ((g : AgentGraph) → (f g).is_default ≡ or_else default g.is_default)
      → count_default (update graph_key id f (cleared_if (or_else default false) rows)) ≤ 1
  updated-count (some true) f e =
      omega (arith, count-update id f (clear_default_graphs rows), clear-count rows)
  updated-count (some false) f e = omega (arith, count-update_plain id f rows (λ g d. e g), h.1)
  updated-count none f e = omega (arith, count-update_plain id f rows (λ g d. e g ∙ d), h.1)

  update-AllSound :
      (v : GraphValues) → AllSound (after_write rows (update_agent_graph profiles roles id v rows))
  unfolding update_agent_graph
  update-AllSound v = elim (Option-cases (find graph_key id rows)) [
    | inl e ↦ rw (update_agent_graph, e) h
    | inr (row, e) ↦
        rw (update_agent_graph, e)
          (resolved_as row e (normalize_graph_config profiles roles (merged v row.config)) refl)
  ]
    where
      table : List AgentGraph
      table = cleared_if (or_else v.is_default false) rows

      settled :
          (row : AgentGraph)
          → find graph_key id rows ≡ some row
          → (r : Resolved)
          → normalize_graph_config profiles roles (merged v row.config) ≡ Checked.good r
          → AllSound (update graph_key id (updated_row v r) table)
      settled row e r s = (
        All-update_found graph_key id (updated_row v r) (λ g. IsSound g.config) table
            (λ x found sound.
              let same = find-cleared (or_else v.is_default false) rows x row found e in
              updated-IsSound v x.config r
                (ap (λ c. normalize_graph_config profiles roles (merged v c)) same ∙ s) sound)
            (cleared_if-AllSound (or_else v.is_default false) rows h).0,
        updated-count v.is_default (updated_row v r) (λ g. refl),
      )

      resolved_as :
          (row : AgentGraph)
          → find graph_key id rows ≡ some row
          → (c : Checked Resolved) → normalize_graph_config profiles roles (merged v row.config) ≡ c
          → AllSound (
              after_write rows (elim c [
                | Checked.bad e ↦ Written.raised (WriteError.refused e)
                | Checked.good r ↦
                    if takes_name id v.name rows
                    then Written.raised (WriteError.name_taken (or_else v.name row.name))
                    else Written.written (update graph_key id (updated_row v r) table)
              ]))
      resolved_as row e (Checked.bad x) s = h
      resolved_as row e (Checked.good r) s = elim (Bool-cases (takes_name id v.name rows)) [
        | inl t ↦ rw t h
        | inr t ↦ rw t (settled row e r s)
      ]

-- The writes to the table, each with the model profiles and the roles that it found.
pub data GraphWrite : Type 0 where
  creates : List String → List AgentRole → String → String → GraphConfig → Bool → Bool → GraphWrite
  updates : List String → List AgentRole → String → GraphValues → GraphWrite

unfoldable pub write_graph : GraphWrite → List AgentGraph → List AgentGraph
unfolding create_agent_graph update_agent_graph
write_graph (GraphWrite.creates profiles roles id name g is_default enabled) rows =
    after_write rows (create_agent_graph profiles roles id name g is_default enabled rows)
write_graph (GraphWrite.updates profiles roles id v) rows =
    after_write rows (update_agent_graph profiles roles id v rows)

unfoldable pub write_graphs : List GraphWrite → List AgentGraph → List AgentGraph
unfolding write_graph
write_graphs [] rows = rows
write_graphs (w ∷ writes) rows = write_graphs writes (write_graph w rows)

-- Whatever graphs are created and updated, with whatever profiles and roles, and whichever of these
-- writes raise: each graph of the table has distinct nodes and roles, edges between its nodes, no
-- cycle, and backends that run the contracts they are bound to; and at most one is the default.
pub write_graphs-AllSound :
    (writes : List GraphWrite) (rows : List AgentGraph)
    → AllSound rows
    → AllSound (write_graphs writes rows)
unfolding write_graphs write_graph
write_graphs-AllSound [] rows h = h
write_graphs-AllSound (GraphWrite.creates profiles roles id name g is_default enabled ∷ writes) rows
      h =
    write_graphs-AllSound writes _
      (create-AllSound profiles roles id rows h name g is_default enabled)
write_graphs-AllSound (GraphWrite.updates profiles roles id v ∷ writes) rows h =
    write_graphs-AllSound writes _ (update-AllSound profiles roles id rows h v)
