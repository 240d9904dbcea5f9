-- ===== src/Runs/Trails.antt =====
-- Every statement moves each run along a legal trail, so a terminal status is final.
use free_weight.Base.{
  ℕ, ◌≡◌, refl, sym, ap, ◌∙◌, true, String, Option, some, List, [], ◌∷◌, ◌++◌, arith, str_eq,
  eq_iff, Bool-cases, inl, inr,
}
use free_weight.RunState.{RunStatus, run_eq, is_legal_run_transition}
use free_weight.RunState.Paths.{Trail, stay, move}
use free_weight.RunState.Table.{run_eq→eq}
use free_weight.Store.Rows.{Run, find_run, update_run, find_run-update_run}
use free_weight.Store.Queries.{in_flight, with_status, to_preparing, orphan_ids}
use free_weight.Store.Keyed.{IsKeyed, find_run-id}
use free_weight.Store.Orphans.{find_run-interrupt_ids, orphan_exact}
use free_weight.Runs.Steps.{
  RunsStep, insert, set, claim, interrupt_all, Chain, none_yet, then_step, IsSerial, with_status-id,
  to_preparing-id,
}
use free_weight.Runs.Serial.{Chain-IsSerial}

-- The run's row afterwards, and the trail to its status.
pub record WentOn (id : String) (s : RunStatus) (rs : List Run) : Type 0 where
  pub row : Run
  pub found : find_run id rs ≡ some row
  pub trail : Trail s row.status

find-snoc :
    (id : String) (rs : List Run) (x r : Run)
    → find_run id rs ≡ some r
    → find_run id (rs ++ x ∷ []) ≡ some r
unfolding find_run
find-snoc id [] x r h = cc
find-snoc id (y ∷ rs) x r h = ground (arith, find-snoc id rs x r)

-- An update of one row, seen from the row of another id or of the same.
update-WentOn :
    (k id : String) (f : Run → Run) (rs : List Run) (r : Run)
    → ((x : Run) → (f x).id ≡ x.id)
    → find_run k rs ≡ some r
    → (str_eq r.id id ≡ true → Trail r.status (f r).status)
    → WentOn k r.status (update_run id f rs)
update-WentOn k id f rs r same found step =
    let after = find_run-update_run id k f rs same in
    elim (Bool-cases (str_eq r.id id)) [
      | inl e ↦ record { row = f r; found = rw after (rw found (rw e)); trail = step e }
      | inr e ↦ record { row = r; found = rw after (rw found (rw e)); trail = stay }
    ]

legal_step : (s t : RunStatus) → is_legal_run_transition s t ≡ true → Trail s t
legal_step s t h = move stay h

set-trail :
    (id k : String) (r x : Run) (t : RunStatus) (s c : Option ℕ) (ec et : Option String)
    (rs : List Run)
    → find_run id rs ≡ some r
    → find_run k rs ≡ some x
    → is_legal_run_transition r.status t ≡ true
    → str_eq x.id id ≡ true
    → Trail x.status (with_status t s c ec et x).status
unfolding with_status
set-trail id k r x t s c ec et rs found found' legal e =
    let x_id : x.id ≡ id = (eq_iff x.id id).0 e in
    let k_id : k ≡ id = sym (find_run-id k rs x found') ∙ x_id in
    let same : x ≡ r = some_injective (sym found' ∙ ap (λ j. find_run j rs) k_id ∙ found) in
    legal_step x.status t (rw same legal)
  where
    some_injective : {a b : Run} → some a ≡ some b → a ≡ b
    some_injective h = cc

claim-trail : (now : ℕ) (x : Run) → Trail x.status (to_preparing now x).status
unfolding to_preparing
claim-trail now x = elim (Bool-cases (run_eq x.status RunStatus.queued)) [
  | inl q ↦ rw q (
      rw (run_eq→eq x.status RunStatus.queued q)
        (legal_step RunStatus.queued RunStatus.preparing (unfold is_legal_run_transition in refl)))
  | inr q ↦ rw q stay
]

orphan_may_stop :
    (x : Run) → in_flight x ≡ true → is_legal_run_transition x.status RunStatus.interrupted ≡ true
unfolding is_legal_run_transition
orphan_may_stop x h = by_status x.status h
  where
    by_status :
        (s : RunStatus)
        → in_flight (record x { status = s }) ≡ true
        → is_legal_run_transition s RunStatus.interrupted ≡ true
    by_status RunStatus.queued h = ground arith
    by_status _ h = ground arith

pub RunsStep-WentOn :
    {rs rs' : List Run} (k : String) (x : Run)
    → IsKeyed rs
    → RunsStep rs rs'
    → find_run k rs ≡ some x
    → WentOn k x.status rs'
RunsStep-WentOn {rs} k x key (insert r new q e) found =
    rw e (record { row = x; found = find-snoc k rs r x found; trail = stay })
RunsStep-WentOn {rs} k x key (set id r t s c ec et found' legal ne stamp e) found = rw e (
    update-WentOn k id (with_status t s c ec et) rs x (with_status-id t s c ec et) found
      (set-trail id k r x t s c ec et rs found' found legal))
RunsStep-WentOn {rs} k x key (claim now id idle e) found = rw e (
    update-WentOn k id (to_preparing now) rs x (to_preparing-id now) found (λ _. claim-trail now x))
RunsStep-WentOn {rs} k x key (interrupt_all now db same e) found =
    let after = find_run-interrupt_ids now (orphan_ids db) k rs x found in
    let exact = orphan_exact k db x (rw same key) (rw same found) in
    rw e (elim (Bool-cases (in_flight x)) [
      | inl f ↦ record {
        row = record x { status = RunStatus.interrupted; completed_at = some now };
        found = after ∙ rw (exact ∙ f);
        trail = legal_step x.status RunStatus.interrupted (orphan_may_stop x f);
      }
      | inr f ↦ record { row = x; found = after ∙ rw (exact ∙ f); trail = stay }
    ])

Trail-append : {s t u : RunStatus} → Trail s t → Trail t u → Trail s u
Trail-append a stay = a
Trail-append a (move b h) = move (Trail-append a b) h

pub Chain-WentOn :
    {rs rs' : List Run} (k : String) (x : Run)
    → IsSerial rs
    → Chain rs rs'
    → find_run k rs ≡ some x
    → WentOn k x.status rs'
Chain-WentOn k x h none_yet found = record { row = x; found = found; trail = stay }
Chain-WentOn k x h (then_step {mid = mid} c s) found =
    let before = Chain-WentOn k x h c found in
    let after = RunsStep-WentOn k before.row (Chain-IsSerial c h).keyed s before.found in
    record { row = after.row; found = after.found; trail = Trail-append before.trail after.trail }
