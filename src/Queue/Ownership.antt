-- ===== src/Queue/Ownership.antt =====
-- A lease of the work queue is used by its holder only, and only while it is the item's last.
use Prim.Native.String.{◌++◌}
use text.Mathlib.TextLemmas.{append_cancel_left}
use text.Mathlib.TextEquality.{eq_iff}
use mathlib.Core.Option.{some-injective}
use universal_agent.Prelude.{
  ℕ, ◌≡◌, ◌≢◌, refl, sym, ap, ◌∙◌, subst, String, Bool, false, Option, none, some, raised, arith,
  Option-cases, inl, inr,
}
use universal_agent.Prelude.Text.{is_blank, decimal}
use universal_agent.Prelude.Joined.{dash_decimal_injective}
use universal_agent.Prelude.Dict.{get, values}
use universal_agent.Queue.Models.{WorkItem, WorkerLease, QueueError, lease_lost}
use universal_agent.Queue.Store.{Queue}
use universal_agent.Queue.Leasing.{lease_name}
use universal_agent.Queue.Settling.{find_lease, held_lease, leased_item, heartbeat, complete, fail}
use universal_agent.Queue.Valid.{IsValid, item-get, item-IsValidItem}
use universal_agent.Queue.Held.{find_lease-carried, lease_named-carried}

pub lease_name_injective :
    (j k : String) (m n : ℕ) → lease_name j m ≡ lease_name k n → (j ≡ k) × (m ≡ n)
unfolding lease_name
lease_name_injective j k m n h =
    dash_decimal_injective j k m n
      (append_cancel_left "lease-" (j ++ ("-" ++ decimal m)) (k ++ ("-" ++ decimal n)) h)

-- Where `_leased_item` raises, so do the three methods of a holder.
raised_all :
    (lease_id worker_id reason : String) (retry : Bool) (ttl now : ℕ) (q : Queue) (x : QueueError)
    → leased_item lease_id worker_id now q ≡ (raised x, q)
    → is_blank reason ≡ false
    → (complete lease_id worker_id now q ≡ (raised x, q))
      × (fail lease_id worker_id reason retry now q ≡ (raised x, q))
      × (heartbeat lease_id worker_id ttl now q ≡ (raised x, q))
unfolding complete fail heartbeat
raised_all lease_id worker_id reason retry ttl now q x h spoken = (rw h, rw spoken (rw h), rw h)

module _ (q : Queue) (v : IsValid q) (k : String) (x : WorkItem)
    (found : get q.items k ≡ some x) where
  -- The loop of `_leased_item` finds no other item than the one that the lease is named for.
  find_lease-named :
      (n : ℕ) (y : WorkItem) (l : WorkerLease)
      → find_lease (lease_name k n) (values q.items) ≡ some (y, l)
      → (y ≡ x) × (n ≡ x.attempts) × (x.lease ≡ some l)
  find_lease-named n y l h =
      let (member, c) = find_lease-carried (lease_name k n) (values q.items) y l h in
      let (carried, leased, named) = lease_named-carried (lease_name k n) y l c in
      let i = item-IsValidItem v y member in
      let (same_key, same_attempt) =
        lease_name_injective y.work_item_id k y.attempts n (sym (i.named l carried) ∙ named) in
      let here : get q.items k ≡ some y =
        subst (λ j. get q.items j ≡ some y) same_key (item-get v y member) in
      let same : y ≡ x = some-injective y x (sym here ∙ found) in
      (same, sym same_attempt ∙ ap (λ z. z.attempts) same, sym (ap (λ z. z.lease) same) ∙ carried)

  stale-not_found : (n : ℕ) → n ≢ x.attempts → find_lease (lease_name k n) (values q.items) ≡ none
  stale-not_found n other = elim (Option-cases (find_lease (lease_name k n) (values q.items))) [
    | inl e ↦ e
    | inr ((y, l), e) ↦ absurd (other (find_lease-named n y l e).1)
  ]

  -- In a valid queue a lease of an earlier or later attempt than the item's last is refused by all
  -- three methods of a holder, with `LeaseLostError`, and nothing changes.
  pub stale_refused :
      (n : ℕ) (worker_id reason : String) (retry : Bool) (ttl now : ℕ)
      → n ≢ x.attempts
      → is_blank reason ≡ false
      → (complete (lease_name k n) worker_id now q
          ≡ (raised (lease_lost ("lease not found: " ++ lease_name k n)), q))
        × (fail (lease_name k n) worker_id reason retry now q
            ≡ (raised (lease_lost ("lease not found: " ++ lease_name k n)), q))
        × (heartbeat (lease_name k n) worker_id ttl now q
            ≡ (raised (lease_lost ("lease not found: " ++ lease_name k n)), q))
  stale_refused n worker_id reason retry ttl now other spoken =
      raised_all (lease_name k n) worker_id reason retry ttl now q _
        (unfold leased_item in rw (stale-not_found n other, held_lease)) spoken

  intruder_leased_item :
      (l : WorkerLease) (worker_id : String) (now : ℕ)
      → x.lease ≡ some l
      → l.worker_id ≢ worker_id
      → (message : String) × (leased_item l.lease_id worker_id now q
          ≡ (raised (lease_lost message), q))
  unfolding leased_item
  intruder_leased_item l worker_id now carried other =
      refused (find_lease l.lease_id (values q.items)) refl
    where
      refused :
          (f : Option (WorkItem × WorkerLease))
          → find_lease l.lease_id (values q.items) ≡ f
          → (message : String) × (held_lease l.lease_id worker_id now f q
              ≡ (raised (lease_lost message), q))
      refused none e = ("lease not found: " ++ l.lease_id, refl)
      refused (some (y, l')) e =
          let name = (v.each k x found).named l carried in
          let e' = subst (λ z. find_lease z (values q.items) ≡ some (y, l')) name e in
          let same : l' ≡ l =
            some-injective l' l (sym (find_lease-named x.attempts y l' e').2 ∙ carried) in
          (
            "lease is owned by another worker: " ++ l.lease_id,
            ground (arith, ap (λ z. z.worker_id) same, eq_iff l'.worker_id worker_id),
          )

  -- A worker that does not hold the item's lease can not use it: the three methods of a holder
  -- raise `LeaseLostError` and nothing changes.
  pub intruder_refused :
      (l : WorkerLease) (worker_id reason : String) (retry : Bool) (ttl now : ℕ)
      → x.lease ≡ some l
      → l.worker_id ≢ worker_id
      → is_blank reason ≡ false
      → (message : String) × ((complete l.lease_id worker_id now q
            ≡ (raised (lease_lost message), q))
          × (fail l.lease_id worker_id reason retry now q ≡ (raised (lease_lost message), q))
          × (heartbeat l.lease_id worker_id ttl now q ≡ (raised (lease_lost message), q)))
  intruder_refused l worker_id reason retry ttl now carried other spoken =
      let (message, e) = intruder_leased_item l worker_id now carried other in
      (
        message,
        raised_all l.lease_id worker_id reason retry ttl now q (lease_lost message) e spoken,
      )
