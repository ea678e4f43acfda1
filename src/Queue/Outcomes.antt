-- ===== src/Queue/Outcomes.antt =====
-- In a valid queue the checks of `WorkItem` never fail inside `expire` and `lease`.
use universal_agent.Prelude.Text.{is_blank}
use universal_agent.Queue.Order.{
  Chosen, Leaseable, stripped, next_leaseable-Chosen, next_leaseable-none,
}
use universal_agent.Prelude.{
  ℕ, ◌+◌, ◌<◌, ◌≡◌, refl, String, true, Option, none, List, [], ◌∷◌, ok, raised, arith, Mem,
  Option-cases, inl, inr, ◌⊎◌, ap, some, subst, false, any,
}
use universal_agent.Prelude.Dict.{Dict, values}
use universal_agent.Queue.Models.{
  WorkItem, WorkerLease, no_work_available, checked, is_queued, WorkItemStatus,
}
use universal_agent.Queue.Store.{Queue, store}
use universal_agent.Queue.Leasing.{
  ended_lease, expired_item, expire_each, expire, lease, lease_chosen, lease_deadline,
  next_leaseable, normalize_accepted_kinds, next_fencing_token, leased_item_of, new_lease,
  next_lease_id, lease_name,
}
use universal_agent.Queue.Valid.{IsValidItem, IsValid, checked_facts, item-IsValidItem}
use universal_agent.Queue.Expiry.{expire-Keeps}
use universal_agent.Queue.Runs.{Traced-start}
use universal_agent.Queue.Granted.{last_token, granted}

checked-expired_item :
    {fences : Dict ℕ} {k : String} (now : ℕ) (item : WorkItem) (l : WorkerLease)
    → IsValidItem fences k item
    → checked (expired_item now item l) ≡ ok (expired_item now item l)
unfolding checked expired_item
checked-expired_item now item l i =
    let (room, bounded, shape, named, kinded) = checked_facts item i.passed in ground arith

checked-leased_item_of :
    {fences : Dict ℕ} {k : String} (item : WorkItem) (l : WorkerLease)
    → IsValidItem fences k item
    → is_queued item.status ≡ true
    → checked (leased_item_of item l) ≡ ok (leased_item_of item l)
unfolding checked
checked-leased_item_of item l i waiting =
    let (room, bounded, shape, named, kinded) = checked_facts item i.passed in
    let left = i.spare waiting in ground arith

expire_each-ok :
    {fences : Dict ℕ} (now : ℕ) (items : List WorkItem) (q : Queue)
    → ((item : WorkItem) → Mem item items → IsValidItem fences item.work_item_id item)
    → (expired : List WorkItem) × ((expire_each now items q).0 ≡ ok expired)
unfolding expire_each
expire_each-ok now [] q i = ([], refl)
expire_each-ok now (item ∷ rest) q i = elim (Option-cases (ended_lease now item)) [
  | inl e ↦ rw (e, expire_each) (expire_each-ok now rest q (λ x m. i x (inr m)))
  | inr (l, e) ↦
      let passed = checked-expired_item now item l (i item (inl refl)) in
      let y = expired_item now item l in
      let (others, h) = expire_each-ok now rest (store y q).1 (λ x m. i x (inr m)) in
      (y ∷ others, rw (e, expire_each) (rw passed (ground (arith, h))))
]

lease_chosen-granted :
    {fences : Dict ℕ} {k : String} (worker_id : String) (ttl now : ℕ) (item : WorkItem) (s : Queue)
    → IsValidItem fences k item
    → is_queued item.status ≡ true
    → 0 < ttl
    → (lease_chosen worker_id ttl now item s).0 ≡ ok (granted worker_id ttl now item s)
unfolding lease_chosen lease_deadline next_fencing_token
lease_chosen-granted worker_id ttl now item s i waiting lasting =
    let l = new_lease worker_id now (now + ttl) (last_token s item.work_item_id + 1) item in
    ground (arith, checked-leased_item_of item l i waiting)

-- Kinds that `lease` takes: none of them is blank.
abbrev pub Acceptable : Option (List String) → Type 0
Acceptable none = Unit
Acceptable (some kinds) = (kind : String) → Mem kind kinds → is_blank kind ≡ false

no_blank :
    (kinds : List String)
    → ((kind : String) → Mem kind kinds → is_blank kind ≡ false)
    → any is_blank kinds ≡ false
no_blank [] h = refl
no_blank (k ∷ rest) h =
    let one = h k (inl refl) in let others = no_blank rest (λ x m. h x (inr m)) in ground arith

normalize-stripped :
    (kinds : Option (List String))
    → Acceptable kinds
    → normalize_accepted_kinds kinds ≡ ok (stripped kinds)
unfolding normalize_accepted_kinds
normalize-stripped none h = refl
normalize-stripped (some kinds) h = let e = no_blank kinds h in ground arith

-- The item as it is leased: one attempt more, to this worker, until the time to live is over, under the
-- next fencing token of the item.
abbrev pub leased_to : String → ℕ → ℕ → Queue → WorkItem → WorkItem
leased_to worker_id ttl now q item = record item {
  status = WorkItemStatus.leased;
  attempts = item.attempts + 1;
  lease = some (record {
    lease_id = lease_name item.work_item_id (item.attempts + 1);
    worker_id = worker_id;
    leased_at = now;
    lease_expires_at = now + ttl;
    heartbeat_at = now;
    fencing_token = last_token q item.work_item_id + 1;
  });
  last_error = none;
}

granted-leased_to :
    (worker_id : String) (ttl now : ℕ) (item : WorkItem) (q : Queue)
    → granted worker_id ttl now item q ≡ leased_to worker_id ttl now q item
unfolding new_lease next_lease_id
granted-leased_to worker_id ttl now item q = refl

-- In a valid queue, with a positive time to live and no blank among the accepted kinds, `lease` ends in
-- one of two ways. Behind the expiry of leases there is an item that is queued, due by now and of an
-- accepted kind, where no other such item has a higher priority or, at its priority, was available
-- earlier: `lease` returns it leased to the worker. Or there is no item that is queued, due and of an
-- accepted kind, and `lease` raises `NoWorkAvailable`.
pub lease_outcome :
    (worker_id : String) (ttl now : ℕ) (kinds : Option (List String)) (q : Queue)
    → IsValid q
    → 0 < ttl
    → Acceptable kinds
    → ((item : WorkItem) × Chosen now kinds (expire now q).1 item
        × ((lease worker_id ttl now kinds q).0
            ≡ ok (leased_to worker_id ttl now (expire now q).1 item)))
      ⊎ ((lease worker_id ttl now kinds q).0 ≡ raised (no_work_available "no work available"))
        × ((item : WorkItem)
            → Mem item (values (expire now q).1.items)
            → ¬ (Leaseable now kinds item))
unfolding lease
lease_outcome worker_id ttl now kinds q v lasting acceptable =
    let (expired, e) =
      expire_each-ok now (values q.items) q (λ item m. item-IsValidItem v item m) in
    let e' : (expire now q).0 ≡ ok expired = unfold expire in e in
    let s = (expire now q).1 in
    let w : IsValid s = (expire-Keeps now q q (Traced-start v)).valid in
    let filtered = normalize-stripped kinds acceptable in
    elim (Option-cases (next_leaseable now (stripped kinds) s)) [
      | inl nothing ↦ inr (ground arith, next_leaseable-none now kinds s nothing)
      | inr (item, found) ↦
          let chosen = next_leaseable-Chosen now kinds s item found in
          let i = item-IsValidItem w item chosen.stored in
          let waiting : is_queued item.status ≡ true = ap is_queued chosen.leaseable.0 in
          let given = lease_chosen-granted worker_id ttl now item s i waiting lasting in
          inl (
            item,
            chosen,
            subst (λ y. (lease worker_id ttl now kinds q).0 ≡ ok y)
                (granted-leased_to worker_id ttl now item s) (ground (arith, given)),
          )
    ]
