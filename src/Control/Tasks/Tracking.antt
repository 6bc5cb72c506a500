-- ===== src/Control/Tasks/Tracking.antt =====
-- Tasks through any calls of the tracker.
use localup.Base.{
  ℕ, ◌≡◌, sym, ◌∙◌, subst, ◌⊎◌, inl, inr, Option, none, some, List, [], ◌∷◌, Bool-cases, Any, here,
  there, ◌==◌, ==_iff, ==_refl, nat_eq, list_eq, Map, lookup, remove, insert, lookup-remove,
  lookup-insert, lookup-insert_self, Text,
}
use localup.Control.Tasks.{TaskTracker, abort_removed, register, unregister}

-- The task still belongs to the tunnel, or it was aborted.
abbrev pub IsTracked : TaskTracker → ℕ → Type 0
IsTracked t handle =
    ((id : Text) × (lookup id t.tasks ≡ some handle)) ⊎ Any (λ h. h ≡ handle) t.aborted

pub data Call : Type 0 where
  registers : Text → ℕ → Call
  unregisters : Text → Call

unfoldable pub step : TaskTracker → Call → TaskTracker
step t (registers id handle) = register t id handle
step t (unregisters id) = unregister t id

unfoldable pub run : TaskTracker → List Call → TaskTracker
run t [] = t
run t (call ∷ calls) = run (step t call) calls

some-injective : {x y : ℕ} → some x ≡ some y → x ≡ y
some-injective e = cc

abort_removed-here :
    (o : Option ℕ) (aborted : List ℕ) (handle : ℕ)
    → o ≡ some handle
    → Any (λ h. h ≡ handle) (abort_removed o aborted)
abort_removed-here none aborted handle e = absurd (nothing e)
  where
    nothing : ◌≡◌ {A = Option ℕ} none (some handle) → ⊥
    nothing x = cc
abort_removed-here (some h) aborted handle e = here (some-injective e)

abort_removed-there :
    (o : Option ℕ) (aborted : List ℕ) (handle : ℕ)
    → Any (λ h. h ≡ handle) aborted
    → Any (λ h. h ≡ handle) (abort_removed o aborted)
abort_removed-there none aborted handle a = a
abort_removed-there (some h) aborted handle a = there a

unregister-IsTracked :
    (t : TaskTracker) (id : Text) (handle : ℕ)
    → IsTracked t handle
    → IsTracked (unregister t id) handle
unfolding unregister
unregister-IsTracked t id handle (inr a) =
    inr (abort_removed-there (lookup id t.tasks) t.aborted handle a)
unregister-IsTracked t id handle (inl (i, e)) = elim (Bool-cases (id == i)) [
  | inl same ↦ inr (
      abort_removed-here (lookup id t.tasks) t.aborted handle
        (subst (λ k. lookup k t.tasks ≡ some handle) (sym ((==_iff id i).0 same)) e))
  | inr other ↦ inl (i, lookup-remove id i t.tasks ∙ rw other e)
]

insert-IsTracked :
    (t : TaskTracker) (id : Text) (new_handle handle : ℕ)
    → lookup id t.tasks ≡ none
    → IsTracked t handle
    → IsTracked (record { tasks = insert id new_handle t.tasks; aborted = t.aborted }) handle
insert-IsTracked t id new_handle handle free (inr a) = inr a
insert-IsTracked t id new_handle handle free (inl (i, e)) = elim (Bool-cases (id == i)) [
  | inl same ↦
      absurd (nothing (sym (subst (λ k. lookup k t.tasks ≡ none) ((==_iff id i).0 same) free) ∙ e))
  | inr other ↦ inl (i, lookup-insert id i new_handle t.tasks ∙ rw other e)
]
  where
    nothing : ◌≡◌ {A = Option ℕ} none (some handle) → ⊥
    nothing x = cc

removed_free : (id : Text) (tasks : Map Text ℕ) → lookup id (remove id tasks) ≡ none
removed_free id tasks = lookup-remove id id tasks ∙ rw (==_refl id)

step-IsTracked :
    (t : TaskTracker) (call : Call) (handle : ℕ)
    → IsTracked t handle
    → IsTracked (step t call) handle
unfolding step register unregister
step-IsTracked t (registers id new_handle) handle h =
    insert-IsTracked (unregister t id) id new_handle handle (removed_free id t.tasks)
      (unregister-IsTracked t id handle h)
step-IsTracked t (unregisters id) handle h = unregister-IsTracked t id handle h

run-IsTracked :
    (t : TaskTracker) (calls : List Call) (handle : ℕ)
    → IsTracked t handle
    → IsTracked (run t calls) handle
unfolding run
run-IsTracked t [] handle h = h
run-IsTracked t (call ∷ calls) handle h =
    run-IsTracked (step t call) calls handle (step-IsTracked t call handle h)

register-IsTracked :
    (t : TaskTracker) (id : Text) (handle : ℕ) → IsTracked (register t id handle) handle
unfolding register
register-IsTracked t id handle = inl (id, lookup-insert_self id handle (remove id t.tasks))

-- A task that was registered is not lost: after any further calls it belongs to a tunnel or was aborted; and
-- a tunnel that is unregistered has no task.
pub register-run :
    (t : TaskTracker) (id : Text) (handle : ℕ) (calls : List Call)
    → IsTracked (run (register t id handle) calls) handle
      × (lookup id (unregister (run (register t id handle) calls) id).tasks ≡ none)
unfolding unregister
register-run t id handle calls = (
  run-IsTracked (register t id handle) calls handle (register-IsTracked t id handle),
  removed_free id (run (register t id handle) calls).tasks,
)
