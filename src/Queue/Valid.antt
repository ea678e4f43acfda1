-- ===== src/Queue/Valid.antt =====
-- The invariant of the work queue.
use universal_agent.Prelude.{
  ℕ, ◌<◌, ◌≤◌, ◌≡◌, sym, subst, subst₂, String, true, false, none, some, ok, arith, Mem, String_eq,
  Option-cases, inl, inr,
}
use universal_agent.Prelude.Dict.{
  Dict, IsUnique, get, put, values, get-put_cases, put-IsUnique, mem-values_get,
}
use universal_agent.Prelude.Text.{is_blank}
use universal_agent.Queue.Models.{WorkItem, WorkerLease, is_queued, is_leased, has_lease, checked}
use universal_agent.Queue.Store.{Queue, get_or}
use universal_agent.Queue.Leasing.{lease_name}

-- An item stands under its id, passed the checks of its class, and, while it is queued, has an
-- attempt left. A lease is named for the item and the attempt, and carries the last fencing token
-- of the item.
pub record IsValidItem (fences : Dict ℕ) (k : String) (item : WorkItem) : Type 0 where
  pub keyed : item.work_item_id ≡ k
  pub passed : checked item ≡ ok item
  pub spare : is_queued item.status ≡ true → item.attempts < item.max_attempts
  pub named : (l : WorkerLease) → item.lease ≡ some l → l.lease_id ≡ lease_name k item.attempts
  pub fenced : (l : WorkerLease) → item.lease ≡ some l → l.fencing_token ≡ get_or (get fences k) 0

pub record IsValid (q : Queue) : Type 0 where
  pub unique : IsUnique q.items
  pub each :
      (k : String) (item : WorkItem)
      → get q.items k ≡ some item
      → IsValidItem q.fencing_sequences k item

pub checked-eq : (x : WorkItem) {y : WorkItem} → checked x ≡ ok y → x ≡ y
unfolding checked
checked-eq x h = ground arith

-- What the checks of the class ensure.
pub checked_facts :
    (x : WorkItem) {y : WorkItem}
    → checked x ≡ ok y
    → (0 < x.max_attempts)
      × (x.attempts ≤ x.max_attempts)
      × (is_leased x.status ≡ has_lease x.lease)
      × (is_blank x.work_item_id ≡ false)
      × (is_blank x.kind ≡ false)
unfolding checked
checked_facts x h = ground arith

-- An item that is not leased has no lease.
pub no_lease :
    {fences : Dict ℕ} {k : String} (item : WorkItem)
    → IsValidItem fences k item
    → is_leased item.status ≡ false
    → item.lease ≡ none
no_lease item i h = elim (Option-cases item.lease) [
  | inl gone ↦ gone
  | inr (l, e) ↦ absurd (ground (arith, (checked_facts item i.passed).2))
]

module _ {q : Queue} (v : IsValid q) where
  pub put-IsValid :
      (k : String) (item : WorkItem)
      → IsValidItem q.fencing_sequences k item
      → IsValid (record q { items = put q.items k item })
  put-IsValid k item i = record {
    unique = put-IsUnique q.items k item v.unique;
    each = λ j x e. elim (get-put_cases q.items k j item e) [
      | inl (same, here) ↦ subst₂ (IsValidItem q.fencing_sequences) same here i
      | inr (_, there) ↦ v.each j x there
    ];
  }

  -- Every item that an iteration meets stands under its id.
  pub item-get :
      (item : WorkItem) → Mem item (values q.items) → get q.items item.work_item_id ≡ some item
  item-get item m =
      let (k, e) = mem-values_get q.items item v.unique m in
      subst (λ j. get q.items j ≡ some item) (sym (v.each k item e).keyed) e

  pub item-IsValidItem :
      (item : WorkItem)
      → Mem item (values q.items)
      → IsValidItem q.fencing_sequences item.work_item_id item
  item-IsValidItem item m = v.each item.work_item_id item (item-get item m)
