-- ===== src/Queue/Expiry.antt =====
-- `expire` of the work queue makes only the writes of the transition system.
use universal_agent.Prelude.{
  ℕ, ◌≤◌, ◌≡◌, refl, sym, ap, ◌∙◌, subst, String, true, none, some, [], ◌∷◌, ok, arith, bind-keeps,
  Option-cases, Bool-cases, lift, inl, inr, ltb, String_eq,
}
use text.Mathlib.TextEquality.{eq_iff}
use universal_agent.Prelude.Dict.{
  Dict, IsUnique, Entries, Entries-map, Entries-found, get, put, values, get-put,
}
use universal_agent.Queue.Models.{WorkItem, WorkerLease, is_leased, checked, is_terminal}
use universal_agent.Queue.Store.{Queue, QueueMethod}
use universal_agent.Queue.Leasing.{ended_lease, expired_item, expire_each, expire}
use universal_agent.Queue.Valid.{IsValidItem, checked-eq}
use universal_agent.Queue.Life.{Moves, Traced, change-Traced}

-- A method of the queue, from a traced state to a traced state.
abbrev pub Keeps : {A : Type 0} → QueueMethod A → Type 0
Keeps m = (o q : Queue) → Traced o q → Traced o (m q).1

pub ended_lease-held :
    (now : ℕ) (item : WorkItem) (l : WorkerLease)
    → ended_lease now item ≡ some l
    → (item.lease ≡ some l) × (is_leased item.status ≡ true) × (l.lease_expires_at ≤ now)
unfolding ended_lease
ended_lease-held now item l h = ground arith

expired-IsValidItem :
    {fences : Dict ℕ} {k : String} (now : ℕ) (item : WorkItem) (l : WorkerLease) {y : WorkItem}
    → IsValidItem fences k item
    → checked (expired_item now item l) ≡ ok y
    → IsValidItem fences y.work_item_id y
expired-IsValidItem {fences} now item l i h =
    let e = checked-eq (expired_item now item l) h in
    subst (λ x. IsValidItem fences x.work_item_id x) e
      (record {
        keyed = refl;
        passed = h ∙ ap ok (sym e);
        spare = unfold expired_item in ground arith;
        named = λ l' e'. absurd (unfold expired_item in ground arith);
        fenced = λ l' e'. absurd (unfold expired_item in ground arith);
      })

expired_id :
    (now : ℕ) (item : WorkItem) (l : WorkerLease) (y : WorkItem)
    → checked (expired_item now item l) ≡ ok y
    → y.work_item_id ≡ item.work_item_id
expired_id now item l y passed =
    sym (ap (λ z. z.work_item_id) (checked-eq (expired_item now item l) passed))
    ∙ (unfold expired_item in ground arith)

expired-Moves :
    (now : ℕ) (item : WorkItem) (l : WorkerLease)
    → is_leased item.status ≡ true
    → Moves item (expired_item now item l)
expired-Moves now item l leased = elim (Bool-cases (ltb item.attempts item.max_attempts)) [
  | inl left ↦
      Moves.requeue (ground arith) (unfold expired_item in rw left refl)
        (unfold expired_item in rw left refl) (unfold expired_item in rw left refl) (ground arith)
  | inr spent ↦
      Moves.finish (ground arith) (unfold expired_item is_terminal in rw spent refl)
        (unfold expired_item in rw spent refl) (unfold expired_item in rw spent refl)
]

-- The entries that the loop has still to visit stand in the queue as they were.
abbrev Ahead : Queue → Dict WorkItem → Type 0
Ahead s d = Entries (λ k v. (v.work_item_id ≡ k) × (get s.items k ≡ some v)) d

put-Ahead :
    (s : Queue) (d : Dict WorkItem) (k : String) (y : WorkItem)
    → get d k ≡ none
    → Ahead s d
    → Ahead (record s { items = put s.items k y }) d
unfolding get
put-Ahead s [] k y absent h = tt
put-Ahead s ((j, w) ∷ d) k y absent h = (
  (h.0.0, ground (arith, get-put s.items k j y, eq_iff j k, eq_iff k j, h.0.1)),
  put-Ahead s d k y (ground arith) h.1,
)

module _ (P : Queue → Type 0) (now : ℕ) where
  -- What one replacement keeps, the loop keeps.
  expire_each-keeps :
      (d : Dict WorkItem) (q : Queue)
      → ((item : WorkItem) (l : WorkerLease) (y : WorkItem) (s : Queue)
          → get s.items item.work_item_id ≡ some item
          → ended_lease now item ≡ some l
          → checked (expired_item now item l) ≡ ok y
          → P s
          → P (record s { items = put s.items y.work_item_id y }))
      → IsUnique d
      → Ahead q d
      → P q
      → P (expire_each now (values d) q).1
  unfolding expire_each values
  expire_each-keeps [] q step u a p = p
  expire_each-keeps ((k, item) ∷ d) q step u a p = elim (Option-cases (ended_lease now item)) [
    | inl e ↦ rw (e, expire_each) (expire_each-keeps d q step u.1 a.1 p)
    | inr (l, e) ↦
        rw (e, expire_each)
          (bind-keeps P (lift (checked (expired_item now item l))) _ q p (λ y passed.
            let here = subst (λ j. get q.items j ≡ some item) (sym a.0.0) a.0.1 in
            let id_y : y.work_item_id ≡ k = expired_id now item l y passed ∙ a.0.0 in
            let s = record q { items = put q.items y.work_item_id y } in
            let ps = step item l y q here e passed p in
            let as' = put-Ahead q d y.work_item_id y (rw id_y u.0) a.1 in
            let others = expire_each-keeps d s step u.1 as' ps in
            bind-keeps P (expire_each now (values d)) _ s others (λ expired _. others)))
  ]

pub expire-Keeps : (now : ℕ) → Keeps (expire now)
unfolding expire
expire-Keeps now o q t =
    expire_each-keeps (Traced o) now q.items q
      (λ item l y s here e passed w.
        let same = checked-eq (expired_item now item l) passed in
        let k = item.work_item_id in
        change-Traced w y.work_item_id item y
          (subst (λ j. get s.items j ≡ some item) (sym (expired_id now item l y passed)) here)
          (subst (Moves item) same (expired-Moves now item l (ended_lease-held now item l e).1))
          (expired-IsValidItem now item l (w.valid.each k item here) passed))
      t.valid.unique
      (Entries-map (λ k v. get q.items k ≡ some v)
        (λ k v. (v.work_item_id ≡ k) × (get q.items k ≡ some v)) q.items
        (λ k v e. ((t.valid.each k v e).keyed, e)) (Entries-found q.items t.valid.unique))
      t
