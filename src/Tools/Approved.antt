-- ===== src/Tools/Approved.antt =====
-- Under which approval the gateway runs a call.
use synode.Prelude.{
  String, Bool, true, ◌≡◌, ◌∙◌, subst, ◌⊎◌, inl, inr, Option, none, some, List, [], ◌∷◌, Bool-cases,
  Option-cases,
}
use synode.Domain.{ToolRisk}
use synode.Store.{Db, Approval}
use synode.Tools.Roles.{RoleSpec}
use synode.Tools.Admission.{
  ToolCall, requires_approval, grants, find_last, find_existing_approval, known_approval,
}

-- One of the rows is so.
abbrev pub Any : (Approval → Type 0) → List Approval → Type 0
Any P [] = ⊥
Any P (a ∷ rows) = P a ⊎ Any P rows

find_last-Any :
    (p : Approval → Bool) (rows : List Approval) (a : Approval)
    → find_last p rows ≡ some a
    → Any (λ b. (p b ≡ true) × (b.id ≡ a.id)) rows
unfolding find_last
find_last-Any p [] a h = cc
find_last-Any p (b ∷ rows) a h = elim (Option-cases (find_last p rows)) [
  | inl e ↦ elim (Bool-cases (p b)) [
    | inl t ↦ let here : some b ≡ some a = rw (e, t) at h in inl (t, cc)
    | inr f ↦ let gone : none ≡ some a = rw (e, f) at h in cc
  ]
  | inr (c, e) ↦ let here : some c ≡ some a = rw e at h in inr (find_last-Any p rows a (e ∙ here))
]

-- The approval under which a call runs: the one that the caller names, or a row that was approved for
-- this call in this run.
abbrev pub Approved : String → RoleSpec → ToolCall → Option String → Db → String → Type 0
Approved run role call approved db id =
    (approved ≡ some id)
    ⊎ Any (λ a. (grants run call.name role.name call.arguments a ≡ true) × (a.id ≡ id)) db.approvals

pub known_approval-Approved :
    (run : String) (role : RoleSpec) (call : ToolCall) (risk : ToolRisk) (approved : Option String)
    (db : Db) (id : String)
    → known_approval run role call risk approved db ≡ some id
    → Approved run role call approved db id
unfolding known_approval find_existing_approval
known_approval-Approved run role call risk (some other) db id h = inl h
known_approval-Approved run role call risk none db id h =
    elim (Bool-cases (requires_approval risk)) [
      | inl e ↦
          elim (Option-cases
            (find_last (grants run call.name role.name call.arguments) db.approvals)) [
              | inl n ↦ let gone : none ≡ some id = rw (find_existing_approval, e, n) at h in cc
              | inr (a, s) ↦
                  let same : some a.id ≡ some id = rw (find_existing_approval, e, s) at h in
                  let eq : a.id ≡ id = cc in
                  inr (
                    subst
                      (λ i.
                        Any
                          (λ b.
                            (grants run call.name role.name call.arguments b ≡ true) × (b.id ≡ i))
                          db.approvals)
                      eq (find_last-Any _ db.approvals a s))
            ]
      | inr e ↦ let gone : none ≡ some id = rw e at h in cc
    ]
