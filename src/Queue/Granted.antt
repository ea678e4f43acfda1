-- ===== src/Queue/Granted.antt =====
-- What `lease` of the work queue grants, and what becomes of fencing tokens and terminal items.
use universal_agent.Prelude.{
  ℕ, ◌+◌, ◌<◌, ◌≡◌, refl, sym, ap, ◌∙◌, String, Option, some, List, ok, raised, arith, Option-cases,
  inl, inr, Result,
}
use universal_agent.Prelude.Dict.{get, put}
use universal_agent.Queue.Models.{WorkItem, QueueError, checked}
use universal_agent.Queue.Store.{Queue, get_or}
use universal_agent.Queue.Leasing.{
  lease, lease_chosen, lease_deadline, expire, next_leaseable, normalize_accepted_kinds, new_lease,
  leased_item_of, next_fencing_token,
}

-- The last fencing token drawn for an item.
abbrev pub last_token : Queue → String → ℕ
last_token q k = get_or (get q.fencing_sequences k) 0

-- The new form of the item that is granted.
abbrev pub granted : String → ℕ → ℕ → WorkItem → Queue → WorkItem
granted worker_id ttl now item s =
    leased_item_of item
      (new_lease worker_id now (now + ttl) (last_token s item.work_item_id + 1) item)

-- The queue behind a grant.
abbrev pub behind_grant : String → ℕ → ℕ → WorkItem → Queue → Queue
behind_grant worker_id ttl now item s = record s {
  items = put s.items item.work_item_id (granted worker_id ttl now item s);
  fencing_sequences =
      put s.fencing_sequences item.work_item_id (last_token s item.work_item_id + 1);
}

lease_chosen-ok :
    (worker_id : String) (ttl now : ℕ) (item : WorkItem) (s : Queue) (y : WorkItem)
    → (lease_chosen worker_id ttl now item s).0 ≡ ok y
    → (0 < ttl)
      × (y ≡ granted worker_id ttl now item s)
      × ((lease_chosen worker_id ttl now item s).1 ≡ behind_grant worker_id ttl now item s)
unfolding lease_chosen lease_deadline next_fencing_token checked
lease_chosen-ok worker_id ttl now item s y h = ground arith

-- A lease that was granted: the item that was chosen, and what the call did.
pub record Grant (worker_id : String) (ttl now : ℕ) (accepted_kinds : Option (List String))
    (q : Queue) (y : WorkItem) : Type 0 where
  pub kinds : Option (List String)
  pub filtered : normalize_accepted_kinds accepted_kinds ≡ ok kinds
  pub item : WorkItem
  pub chosen : next_leaseable now kinds (expire now q).1 ≡ some item
  pub lasting : 0 < ttl
  pub result : y ≡ granted worker_id ttl now item (expire now q).1
  pub state :
      (lease worker_id ttl now accepted_kinds q).1
      ≡ behind_grant worker_id ttl now item (expire now q).1

module _ (worker_id : String) (ttl now : ℕ) (accepted_kinds : Option (List String)) (q : Queue)
    (y : WorkItem) where
  pub lease-Grant :
      (lease worker_id ttl now accepted_kinds q).0 ≡ ok y
      → Grant worker_id ttl now accepted_kinds q y
  lease-Grant h = filtered (normalize_accepted_kinds accepted_kinds) refl
    where
      filtered :
          (r : Result QueueError (Option (List String)))
          → normalize_accepted_kinds accepted_kinds ≡ r
          → Grant worker_id ttl now accepted_kinds q y
      filtered (raised x) e = absurd (unfold lease in ground arith)
      filtered (ok kinds) e = elim (Option-cases (next_leaseable now kinds (expire now q).1)) [
        | inl nothing ↦ absurd (unfold lease in ground arith)
        | inr (item, found) ↦
            let s = (expire now q).1 in
            let same : lease worker_id ttl now accepted_kinds q
                ≡ lease_chosen worker_id ttl now item s =
              unfold lease in ground arith in
            let (lasting, result, state) =
              lease_chosen-ok worker_id ttl now item s y (ap (λ z. z.0) (sym same) ∙ h) in
            record {
              kinds = kinds;
              filtered = e;
              item = item;
              chosen = found;
              lasting = lasting;
              result = result;
              state = ap (λ z. z.1) same ∙ state;
            }
      ]
