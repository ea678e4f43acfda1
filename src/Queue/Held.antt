-- ===== src/Queue/Held.antt =====
-- What `_leased_item` of the work queue hands to the holder of a lease.
use text.Mathlib.TextEquality.{eq_iff}
use universal_agent.Prelude.{
  ℕ, ◌<◌, ◌≡◌, sym, String, true, Option, none, some, List, [], ◌∷◌, ok, arith, Mem, Option-cases,
  inl, inr,
}
use universal_agent.Prelude.Dict.{values}
use universal_agent.Queue.Models.{WorkItem, WorkerLease, is_leased}
use universal_agent.Queue.Store.{Queue}
use universal_agent.Queue.Settling.{lease_named, find_lease, held_lease, leased_item}
use universal_agent.Queue.Expiry.{Keeps, expire-Keeps}

-- What `_leased_item` hands to a holder.
pub record IsHeld (q : Queue) (lease_id worker_id : String) (now : ℕ) (item : WorkItem)
    (l : WorkerLease) : Type 0 where
  pub member : Mem item (values q.items)
  pub carried : item.lease ≡ some l
  pub leased : is_leased item.status ≡ true
  pub named : l.lease_id ≡ lease_id
  pub owned : l.worker_id ≡ worker_id
  pub alive : now < l.lease_expires_at

pub lease_named-carried :
    (lease_id : String) (item : WorkItem) (l : WorkerLease)
    → lease_named lease_id item ≡ some l
    → (item.lease ≡ some l) × (is_leased item.status ≡ true) × (l.lease_id ≡ lease_id)
unfolding lease_named
lease_named-carried lease_id item l h = elim (Option-cases item.lease) [
  | inl e ↦ absurd (ground arith)
  | inr (l', e) ↦ ground (arith, eq_iff l'.lease_id lease_id)
]

pub find_lease-carried :
    (lease_id : String) (items : List WorkItem) (item : WorkItem) (l : WorkerLease)
    → find_lease lease_id items ≡ some (item, l)
    → Mem item items × (lease_named lease_id item ≡ some l)
unfolding find_lease
find_lease-carried lease_id [] item l h = absurd (cc)
find_lease-carried lease_id (x ∷ rest) item l h = elim (Option-cases (lease_named lease_id x)) [
  | inl e ↦
      let h' : find_lease lease_id rest ≡ some (item, l) = rw (e, find_lease) at h in
      let (m, c) = find_lease-carried lease_id rest item l h' in (inr m, c)
  | inr (l', e) ↦
      let h' : ◌≡◌ {A = Option (WorkItem × WorkerLease)} (some (x, l')) (some (item, l)) =
        rw (e, find_lease) at h in
      let xs : x ≡ item = cc in let ls : l' ≡ l = cc in (inl (sym xs), cc)
]

held_lease-ok :
    (lease_id worker_id : String) (now : ℕ) (q : Queue) (f : Option (WorkItem × WorkerLease))
    (item : WorkItem) (l : WorkerLease)
    → (held_lease lease_id worker_id now f q).0 ≡ ok (item, l)
    → (f ≡ some (item, l))
      × (l.worker_id ≡ worker_id)
      × (now < l.lease_expires_at)
      × ((held_lease lease_id worker_id now f q).1 ≡ q)
unfolding held_lease
held_lease-ok lease_id worker_id now q none item l h = absurd (cc)
held_lease-ok lease_id worker_id now q (some (x, l')) item l h =
    ground (arith, eq_iff l'.worker_id worker_id)

pub leased_item-IsHeld :
    (lease_id worker_id : String) (now : ℕ) (q : Queue) (item : WorkItem) (l : WorkerLease)
    → (leased_item lease_id worker_id now q).0 ≡ ok (item, l)
    → IsHeld q lease_id worker_id now item l × ((leased_item lease_id worker_id now q).1 ≡ q)
leased_item-IsHeld lease_id worker_id now q item l h =
    let f = find_lease lease_id (values q.items) in
    let (found, owned, alive, same) =
      held_lease-ok lease_id worker_id now q f item l (unfold leased_item in h) in
    let (member, c) = find_lease-carried lease_id (values q.items) item l found in
    let (carried, leased, named) = lease_named-carried lease_id item l c in
    (
      record {
        member = member;
        carried = carried;
        leased = leased;
        named = named;
        owned = owned;
        alive = alive;
      },
      unfold leased_item in same,
    )

held_lease-Keeps :
    (lease_id worker_id : String) (now : ℕ) (f : Option (WorkItem × WorkerLease))
    → Keeps (held_lease lease_id worker_id now f)
unfolding held_lease
held_lease-Keeps lease_id worker_id now none o q t = t
held_lease-Keeps lease_id worker_id now (some (x, l)) o q t = ground (arith, expire-Keeps now o q t)

pub leased_item-Keeps :
    (lease_id worker_id : String) (now : ℕ) → Keeps (leased_item lease_id worker_id now)
unfolding leased_item
leased_item-Keeps lease_id worker_id now o q t =
    held_lease-Keeps lease_id worker_id now (find_lease lease_id (values q.items)) o q t
