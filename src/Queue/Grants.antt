-- ===== src/Queue/Grants.antt =====
-- The methods of the work queue that take a new item in and grant a lease, and the runs of the
-- queue: everything that is reached from the empty queue is valid.
use text.Mathlib.TextEquality.{eq_iff}
use mathlib.Core.Option.{some-injective}
use universal_agent.Prelude.{
  ℕ, ◌+◌, ◌≡◌, refl, sym, ap, ◌∙◌, subst, String, Bool, true, false, not, Option, none, some, List,
  [], ◌∷◌, ok, arith, Mem, bind-keeps, Bool-cases, lift, throw, require, inl, inr, ◌==◌, String_eq,
  mem-filter, filter,
}
use universal_agent.Prelude.Text.{is_empty_text}
use universal_agent.Prelude.Dict.{Dict, get, has, has-get, put, values, get-put}
use universal_agent.Queue.Models.{
  WorkItem, WorkItemStatus, QueueError, no_work_available, checked, is_queued, is_leased,
}
use universal_agent.Queue.Store.{
  Queue, QueueMethod, EnqueueRequest, get_or, sort_items, new_item, chosen_id, enqueue_new, enqueue,
}
use universal_agent.Queue.Leasing.{
  lease_name, lease_deadline, is_leaseable, next_leaseable, next_fencing_token, new_lease,
  leased_item_of, lease_chosen, lease, expire, normalize_accepted_kinds,
}
use universal_agent.Queue.Valid.{
  checked_facts, no_lease, IsValidItem, IsValid, checked-eq, item-get,
}
use universal_agent.Queue.Life.{Moves, Write, Writes, Traced, add-Traced}
use universal_agent.Queue.Expiry.{Keeps, expire-Keeps}
use universal_agent.Queue.Steps.{cleared-IsValidItem, store-checked-Traced}
use universal_agent.Queue.Members.{mem-sort_items}

-- The invariant does not speak of the counter of ids.
count-Traced : {o q : Queue} (n : ℕ) → Traced o q → Traced o (record q { sequence = n })
count-Traced n t = record {
  valid = record { unique = t.valid.unique; each = t.valid.each };
  writes = Writes.write t.writes (Write.count n);
}

chosen_id-Keeps : (work_item_id : Option String) → Keeps (chosen_id work_item_id)
unfolding chosen_id
chosen_id-Keeps none o q t = count-Traced (q.sequence + 1) t
chosen_id-Keeps (some k) o q t = elim (Bool-cases (is_empty_text k)) [
  | inl e ↦ rw e (count-Traced (q.sequence + 1) t)
  | inr e ↦ rw e t
]

new_item-IsValidItem :
    {fences : Dict ℕ} (request : EnqueueRequest) (now created_at : ℕ) (k : String)
    → checked (new_item request now created_at k) ≡ ok (new_item request now created_at k)
    → IsValidItem fences
        (new_item request now created_at k).work_item_id
        (new_item request now created_at k)
new_item-IsValidItem request now created_at k passed =
    let room = (checked_facts (new_item request now created_at k) passed).0 in
    cleared-IsValidItem (new_item request now created_at k) passed (λ _. unfold new_item in room)
      (unfold new_item in refl)

-- A key that the test of existence refuses is not there.
has-not : (d : Dict WorkItem) (k : String) → not (has d k) ≡ true → get d k ≡ none
has-not d k h = ground (arith, has-get d k)

require-true : (b : Bool) (x : QueueError) {u : Unit} → require b x ≡ ok u → b ≡ true
require-true true x h = refl
require-true false x h = absurd (cc)

new_item_fresh :
    (request : EnqueueRequest) (now created_at : ℕ) (k : String)
    → ((new_item request now created_at k).status ≡ WorkItemStatus.queued)
      × ((new_item request now created_at k).attempts ≡ 0)
unfolding new_item
new_item_fresh request now created_at k = (refl, refl)

pub enqueue_new-Keeps :
    (request : EnqueueRequest) (now created_at : ℕ) → Keeps (enqueue_new request now created_at)
enqueue_new-Keeps request now created_at o q t =
    unfold enqueue_new in
    bind-keeps (Traced o) (chosen_id request.work_item_id) _ q
      (chosen_id-Keeps request.work_item_id o q t)
      (λ k _.
        let s = (chosen_id request.work_item_id q).1 in
        let w : Traced o s = chosen_id-Keeps request.work_item_id o q t in
        let x = new_item request now created_at k in
        bind-keeps (Traced o) (lift (checked (new_item request now created_at k))) _ s w
          (λ y passed.
            let same = checked-eq (new_item request now created_at k) passed in
            bind-keeps (Traced o) (lift (require (not (has s.items y.work_item_id)) _)) _ s w
              (λ _ free.
                subst
                  (λ z.
                    get s.items z.work_item_id ≡ none
                    → Traced o (record s { items = put s.items z.work_item_id z }))
                  same
                  (λ absent.
                    add-Traced w x.work_item_id x absent (new_item_fresh request now created_at k).0
                      (new_item_fresh request now created_at k).1
                      (new_item-IsValidItem request now created_at k (passed ∙ ap ok (sym same))))
                  (has-not s.items y.work_item_id (require-true _ _ free)))))

pub enqueue-Keeps :
    (request : EnqueueRequest) (now created_at : ℕ) → Keeps (enqueue request now created_at)
unfolding enqueue
enqueue-Keeps request now created_at o q t =
    ground (arith, enqueue_new-Keeps request now created_at o q t)

pub next_leaseable-mem :
    (now : ℕ) (kinds : Option (List String)) (q : Queue) (item : WorkItem)
    → next_leaseable now kinds q ≡ some item
    → Mem item (values q.items) × (is_leaseable now kinds item ≡ true)
unfolding next_leaseable
next_leaseable-mem now kinds q item h =
    let candidates = filter (is_leaseable now kinds) (values q.items) in
    mem-filter (is_leaseable now kinds) (values q.items) item
      (mem-sort_items item candidates (head_mem (sort_items candidates) h))
  where
    head_mem :
        (items : List WorkItem)
        → (elim items [ [] ↦ none | x ∷ _ ↦ some x ]) ≡ some item
        → Mem item items
    head_mem [] e = absurd (cc)
    head_mem (x ∷ rest) e = inl (sym (some-injective x item e))

-- A fresh fencing token touches no lease that is there: the item it is for has none.
next_fencing_token-IsValid :
    (item : WorkItem) (q : Queue)
    → IsValid q
    → get q.items item.work_item_id ≡ some item
    → is_leased item.status ≡ false
    → IsValid (next_fencing_token item.work_item_id q).1
unfolding next_fencing_token
next_fencing_token-IsValid item q v found free = record {
  unique = v.unique;
  each = λ j x e.
      let old = v.each j x e in
      record {
        keyed = old.keyed;
        passed = old.passed;
        spare = old.spare;
        named = old.named;
        fenced = λ l h. elim (Bool-cases (item.work_item_id == j)) [
          | inl same ↦
              let here : get q.items j ≡ some item =
                subst (λ k. get q.items k ≡ some item) ((eq_iff item.work_item_id j).0 same)
                  found in
              let x_item : x ≡ item = some-injective x item (sym e ∙ here) in
              absurd (cc (no_lease item (v.each j item here) free))
          | inr other ↦ ground (
            arith,
            old.fenced l h,
            get-put q.fencing_sequences item.work_item_id j
                (get_or (get q.fencing_sequences item.work_item_id) 0 + 1),
          )
        ];
      };
}

pub next_fencing_token-last :
    (k : String) (q : Queue) (t : ℕ)
    → (next_fencing_token k q).0 ≡ ok t
    → t ≡ get_or (get (next_fencing_token k q).1.fencing_sequences k) 0
unfolding next_fencing_token
next_fencing_token-last k q t h =
    ground (
      arith,
      eq_iff k k,
      get-put q.fencing_sequences k k (get_or (get q.fencing_sequences k) 0 + 1),
    )

new_lease_named :
    (worker_id : String) (now deadline token : ℕ) (item : WorkItem)
    → (new_lease worker_id now deadline token item).lease_id
      ≡ lease_name item.work_item_id (item.attempts + 1)
unfolding new_lease
new_lease_named worker_id now deadline token item = refl

new_lease_fenced :
    (worker_id : String) (now deadline token : ℕ) (item : WorkItem)
    → (new_lease worker_id now deadline token item).fencing_token ≡ token
unfolding new_lease
new_lease_fenced worker_id now deadline token item = refl

next_fencing_token-Traced :
    (item : WorkItem) {o : Queue} (q : Queue)
    → Traced o q
    → get q.items item.work_item_id ≡ some item
    → is_leased item.status ≡ false
    → Traced o (next_fencing_token item.work_item_id q).1
next_fencing_token-Traced item q t found free = record {
  valid = next_fencing_token-IsValid item q t.valid found free;
  writes = unfold next_fencing_token in Writes.write t.writes (Write.fence item.work_item_id);
}

items-next_fencing_token : (k : String) (q : Queue) → (next_fencing_token k q).1.items ≡ q.items
unfolding next_fencing_token
items-next_fencing_token k q = refl

pub lease_chosen-Traced :
    (worker_id : String) (ttl now : ℕ) (item : WorkItem) {o : Queue} (q : Queue)
    → Traced o q
    → get q.items item.work_item_id ≡ some item
    → is_queued item.status ≡ true
    → Traced o (lease_chosen worker_id ttl now item q).1
unfolding lease_chosen
lease_chosen-Traced worker_id ttl now item {o} q t found waiting =
    bind-keeps (Traced o) (lift (lease_deadline now ttl)) _ q t (λ deadline _.
      let k = item.work_item_id in
      let s = (next_fencing_token k q).1 in
      let w : Traced o s = next_fencing_token-Traced item q t found (ground arith) in
      bind-keeps (Traced o) (next_fencing_token k) _ q w (λ n drawn.
        let l = new_lease worker_id now deadline n item in
        store-checked-Traced item (leased_item_of item l) s w (rw items-next_fencing_token found)
          refl (Moves.grant (ground arith) refl refl refl)
          (λ passed. record {
            keyed = refl;
            passed = passed;
            spare = λ e. absurd (cc);
            named = λ l' h.
                sym (ap (λ z. z.lease_id) (some-injective l l' h))
                ∙ new_lease_named worker_id now deadline n item;
            fenced = λ l' h.
                sym (ap (λ z. z.fencing_token) (some-injective l l' h))
                ∙ new_lease_fenced worker_id now deadline n item
                ∙ next_fencing_token-last k q n drawn;
          })))

pub lease-Keeps :
    (worker_id : String) (ttl now : ℕ) (accepted_kinds : Option (List String))
    → Keeps (lease worker_id ttl now accepted_kinds)
unfolding lease
lease-Keeps worker_id ttl now accepted_kinds o q t =
    bind-keeps (Traced o) (lift (normalize_accepted_kinds accepted_kinds)) _ q t (λ kinds _.
      let s = (expire now q).1 in
      let w : Traced o s = expire-Keeps now o q t in
      bind-keeps (Traced o) (expire now) _ q w
        (λ expired _. grant kinds s w (next_leaseable now kinds s) refl))
  where
    grant :
        (kinds : Option (List String)) (s : Queue)
        → Traced o s
        → (found : Option WorkItem) → next_leaseable now kinds s ≡ found
        → Traced o
            ((elim found as (λ _. QueueMethod WorkItem) [
              | none ↦ throw (no_work_available "no work available")
              | some item ↦ lease_chosen worker_id ttl now item
            ])
              s).1
    grant kinds s w none e = w
    grant kinds s w (some item) e =
        let (member, fits) = next_leaseable-mem now kinds s item e in
        lease_chosen-Traced worker_id ttl now item s w (item-get w.valid item member) (ground arith)
