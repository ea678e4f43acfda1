-- ===== src/Queue/Steps.antt =====
-- Each method of the work queue keeps its invariant, whether it returns or raises, and so does any
-- sequence of calls.
use universal_agent.Prelude.{
  ℕ, ◌<◌, ◌≡◌, refl, sym, ap, ◌∙◌, subst, String, Bool, true, not, none, some, ok, arith,
  bind-keeps, Bool-cases, ◌>>=◌, ◌>>◌, lift, return, inl, inr, String_eq, ltb, ◌&&◌, require,
}
use universal_agent.Prelude.Text.{is_blank}
use universal_agent.Prelude.Dict.{Dict, get, put}
use universal_agent.Queue.Models.{
  WorkItem, WorkItemStatus, WorkerLease, is_queued, is_leased, checked, is_terminal,
}
use universal_agent.Queue.Store.{Queue, QueueMethod, store}
use universal_agent.Queue.Leasing.{lease_deadline}
use universal_agent.Queue.Settling.{
  leased_item, renewed_item, heartbeat, completed_item, complete, failed_item, fail,
}
use universal_agent.Queue.Life.{Moves, Traced, change-Traced}
use universal_agent.Queue.Expiry.{Keeps}
use universal_agent.Queue.Held.{IsHeld, leased_item-IsHeld, leased_item-Keeps}
use universal_agent.Queue.Valid.{IsValidItem, checked-eq, item-get, item-IsValidItem}

-- An item whose lease is gone.
pub cleared-IsValidItem :
    {fences : Dict ℕ} (y : WorkItem)
    → checked y ≡ ok y
    → (is_queued y.status ≡ true → y.attempts < y.max_attempts)
    → y.lease ≡ none
    → IsValidItem fences y.work_item_id y
cleared-IsValidItem y passed spare gone = record {
  keyed = refl;
  passed = passed;
  spare = spare;
  named = λ l e. absurd (cc);
  fenced = λ l e. absurd (cc);
}

-- The common end of the methods of a holder: the item's new form is checked and stored.
pub store-checked-Traced :
    {o : Queue} (item x : WorkItem) (q : Queue)
    → Traced o q
    → get q.items item.work_item_id ≡ some item
    → x.work_item_id ≡ item.work_item_id
    → Moves item x
    → (checked x ≡ ok x → IsValidItem q.fencing_sequences x.work_item_id x)
    → Traced o ((do y ← lift (checked x); store y; return y) q).1
store-checked-Traced {o} item x q t found id_x moves i =
    bind-keeps (Traced o) (lift (checked x)) (λ y. store y >> return y) q t
      (λ y passed.
        let same = checked-eq x passed in
        subst (λ z. Traced o (record q { items = put q.items z.work_item_id z })) same
          (change-Traced t x.work_item_id item x
            (subst (λ j. get q.items j ≡ some item) (sym id_x) found) moves
            (i (passed ∙ ap ok (sym same)))))

-- A holder's method, from what it makes of the item.
settle-Keeps :
    (lease_id worker_id : String) (now : ℕ) (next : WorkItem × WorkerLease → QueueMethod WorkItem)
    → ((item : WorkItem) (l : WorkerLease) (o q : Queue)
        → Traced o q
        → IsHeld q lease_id worker_id now item l
        → Traced o (next (item, l) q).1)
    → Keeps (leased_item lease_id worker_id now >>= next)
settle-Keeps lease_id worker_id now next k o q t =
    bind-keeps (Traced o) (leased_item lease_id worker_id now) next q
      (leased_item-Keeps lease_id worker_id now o q t)
      (λ (item, l) e.
        let (held, same) = leased_item-IsHeld lease_id worker_id now q item l e in
        subst (λ s. Traced o (next (item, l) s).1) (sym same) (k item l o q t held))

pub is_leased-eq : (s : WorkItemStatus) → is_leased s ≡ true → s ≡ WorkItemStatus.leased
is_leased-eq s h = ground arith

pub complete-Keeps :
    (lease_id worker_id : String) (now : ℕ) → Keeps (complete lease_id worker_id now)
unfolding complete
complete-Keeps lease_id worker_id now = settle-Keeps lease_id worker_id now _ (λ item l o q t held.
    store-checked-Traced item (completed_item item now) q t (item-get t.valid item held.member) refl
      (Moves.finish (is_leased-eq item.status held.leased) (unfold is_terminal in refl) refl refl)
      (λ passed. cleared-IsValidItem (completed_item item now) passed (λ e. absurd (cc)) refl))

failed_item-cleared :
    (item : WorkItem) (reason : String) (retry : Bool) (now : ℕ)
    → ((failed_item item reason retry now).lease ≡ none)
      × (is_queued (failed_item item reason retry now).status ≡ true
          → (failed_item item reason retry now).attempts
            < (failed_item item reason retry now).max_attempts)
      × ((failed_item item reason retry now).work_item_id ≡ item.work_item_id)
unfolding failed_item
failed_item-cleared item reason retry now = (ground arith, λ e. ground arith, ground arith)

failed-Moves :
    (item : WorkItem) (reason : String) (retry : Bool) (now : ℕ)
    → is_leased item.status ≡ true
    → Moves item (failed_item item reason retry now)
failed-Moves item reason retry now leased =
    elim (Bool-cases (retry && ltb item.attempts item.max_attempts)) [
      | inl left ↦
          unfold failed_item in
          Moves.requeue (is_leased-eq item.status leased) (rw left) (rw left) (rw left)
            (ground arith)
      | inr spent ↦
          unfold failed_item is_terminal in
          Moves.finish (is_leased-eq item.status leased) (rw spent) (rw spent) (rw spent)
    ]

pub fail-Keeps :
    (lease_id worker_id reason : String) (retry : Bool) (now : ℕ)
    → Keeps (fail lease_id worker_id reason retry now)
unfolding fail
fail-Keeps lease_id worker_id reason retry now o q t =
    bind-keeps (Traced o) (lift (require (not (is_blank reason)) _)) _ q t (λ _ _.
      settle-Keeps lease_id worker_id now _
        (λ item l o s w held.
          let (gone, spare, same) = failed_item-cleared item reason retry now in
          store-checked-Traced item (failed_item item reason retry now) s w
            (item-get w.valid item held.member) same
            (failed-Moves item reason retry now held.leased)
            (λ passed. cleared-IsValidItem (failed_item item reason retry now) passed spare gone))
        o q t)

pub heartbeat-Keeps :
    (lease_id worker_id : String) (ttl now : ℕ) → Keeps (heartbeat lease_id worker_id ttl now)
unfolding heartbeat
heartbeat-Keeps lease_id worker_id ttl now =
    settle-Keeps lease_id worker_id now _ (λ item l o q t held.
      bind-keeps (Traced o) (lift (lease_deadline now ttl)) _ q t (λ deadline _.
        let leased = is_leased-eq item.status held.leased in
        store-checked-Traced item (renewed_item item l now deadline) q t
          (item-get t.valid item held.member) refl (Moves.renew leased leased refl refl)
          (λ passed.
            let old = item-IsValidItem t.valid item held.member in
            record {
              keyed = refl;
              passed = passed;
              spare = λ e. old.spare e;
              named = λ l' e. cc (old.named l held.carried);
              fenced = λ l' e. cc (old.fenced l held.carried);
            })))
