-- ===== src/Lifecycle/Lasting.antt =====
-- Two things that histories carry on: that a run is not in the queue, and that an approval is decided.
use synode.Prelude.{
  String, Bool, false, ◌≡◌, ◌≢◌, ◌∙◌, List, some, ◌==◌, eq_iff, Bool-cases, inl, inr, subst, sym,
}
use synode.Domain.{is_queued, is_pending}
use synode.Store.{
  Run, Approval, find, update, run_key, approval_key, find-append, find-update_self, find-update_ne,
}
use synode.Lifecycle.Onward.{Carries}
use synode.Lifecycle.Outlasts.{Requeues, Reopens}

module _ {A : Type 0} (key : A → String) (p : A → Bool) where
  -- The row of this key is there, and the test says no to it.
  abbrev pub Denied : String → List A → Type 0
  Denied k rows = (r : A) × (find key k rows ≡ some r) × (p r ≡ false)

  Denied-update :
      (j k : String) (f : A → A) (rows : List A)
      → ((x : A) → key (f x) ≡ key x)
      → ((x : A) → p x ≡ false → p (f x) ≡ false)
      → Denied j rows
      → Denied j (update key k f rows)
  Denied-update j k f rows same keep (r, e, h) = elim (Bool-cases (k == j)) [
    | inl b ↦
        let eq : k ≡ j = (eq_iff k j).0 b in
        (
          f r,
          subst (λ i. find key j (update key i f rows) ≡ some (f r)) (sym eq)
              (find-update_self key j f same rows r e),
          keep r h,
        )
    | inr b ↦
        let other : k ≢ j = λ eq. cc ((eq_iff k j).1 eq) in
        (r, find-update_ne key k f same j rows other ∙ e, h)
  ]

module _ (j : String) where
  -- The run is there and not in the queue.
  abbrev pub Unqueued : List Run → List Approval → Type 0
  Unqueued rows approvals = Denied run_key (λ r. is_queued r.status) j rows

  pub Unqueued-Carries : Carries Unqueued
  Unqueued-Carries = record {
    run_written = λ id f rows approvals u h. Denied-update _ _ j id f rows u.0 u.1 h;
    run_added = λ run rows approvals h. (h.0, find-append run_key j rows _ h.0 h.1, h.2);
    approval_written = λ id f rows approvals d h. h;
    approval_added = λ a rows approvals h. h;
  }

  pub Unqueued-Reopens : Reopens Unqueued
  Unqueued-Reopens id f rows approvals h = h

  -- The approval is there and decided.
  abbrev pub Settled : List Run → List Approval → Type 0
  Settled rows approvals = Denied approval_key (λ a. is_pending a.status) j approvals

  pub Settled-Carries : Carries Settled
  Settled-Carries = record {
    run_written = λ id f rows approvals u h. h;
    run_added = λ run rows approvals h. h;
    approval_written = λ id f rows approvals d h. Denied-update _ _ j id f approvals d.0 d.1 h;
    approval_added =
        λ a rows approvals h. (h.0, find-append approval_key j approvals _ h.0 h.1, h.2);
  }

  pub Settled-Requeues : Requeues Settled
  Settled-Requeues id f rows approvals h = h
