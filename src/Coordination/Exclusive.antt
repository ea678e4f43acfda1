-- ===== src/Coordination/Exclusive.antt =====
-- A lock keeps its owner until the owner releases it.
use universal_agent.Prelude.{
  ◌≡◌, ◌≢◌, ap, ◌∙◌, String, true, false, none, some, List, [], ◌∷◌, inl, inr, ok, raised,
  String_eq, Option_eq, Option-cases, arith, option_beq_iff,
}
use text.Mathlib.TextEquality.{eq_iff}
use universal_agent.Prelude.Text.{is_blank}
use universal_agent.Prelude.Dict.{get, get-put, get-remove}
use universal_agent.Coordination.Locks.{
  ResourceLock, ResourceLock_eq, conflict, Locks, acquire, is_owned_by, release, same_lock_iff,
}

-- A call on the registry.
pub data Call : Type 0 where
  acquires releases : ResourceLock → Call

-- The registry behind the calls, in their order; what an `acquire` raises, its caller handles.
unfoldable pub behind : List Call → Locks → Locks
behind [] locks = locks
behind (Call.acquires lock ∷ rest) locks = behind rest (acquire lock locks).1
behind (Call.releases lock ∷ rest) locks = behind rest (release lock locks)

-- No call gives this lock back.
abbrev pub Keeps : ResourceLock → List Call → Type 0
Keeps lock [] = Unit
Keeps lock (Call.acquires other ∷ rest) = Keeps lock rest
Keeps lock (Call.releases other ∷ rest) = (other ≢ lock) × Keeps lock rest

owned_iff :
    (lock : ResourceLock) (locks : Locks)
    → (is_owned_by lock locks ≡ true)
    → get locks lock.resource_key ≡ some lock
unfolding is_owned_by
owned_iff lock locks h = (option_beq_iff (get locks lock.resource_key) (some lock)).0 h

owned-intro :
    (lock : ResourceLock) (locks : Locks)
    → get locks lock.resource_key ≡ some lock
    → is_owned_by lock locks ≡ true
unfolding is_owned_by
owned-intro lock locks h = (option_beq_iff (get locks lock.resource_key) (some lock)).1 h

acquire-found :
    (lock other : ResourceLock) (locks : Locks) (k : String)
    → get locks k ≡ some lock
    → get (acquire other locks).1 k ≡ some lock
unfolding acquire
acquire-found lock other locks k h =
    ground (arith, get-put locks other.resource_key k other, eq_iff other.resource_key k)

release-found :
    (lock other : ResourceLock) (locks : Locks)
    → other ≢ lock
    → get locks lock.resource_key ≡ some lock
    → get (release other locks) lock.resource_key ≡ some lock
unfolding release
release-found lock other locks ne h = ground (
  arith,
  get-remove locks other.resource_key lock.resource_key,
  eq_iff other.resource_key lock.resource_key,
  option_beq_iff (get locks other.resource_key) (some other),
  same_lock_iff other lock,
)

found_kept :
    (lock : ResourceLock) (calls : List Call) (locks : Locks)
    → Keeps lock calls
    → get locks lock.resource_key ≡ some lock
    → get (behind calls locks) lock.resource_key ≡ some lock
unfolding behind
found_kept lock [] locks k h = h
found_kept lock (Call.acquires other ∷ rest) locks k h =
    found_kept lock rest (acquire other locks).1 k
      (acquire-found lock other locks lock.resource_key h)
found_kept lock (Call.releases other ∷ rest) locks k h =
    found_kept lock rest (release other locks) k.1 (release-found lock other locks k.0 h)

acquire-owned :
    (lock l : ResourceLock) (locks : Locks)
    → (acquire lock locks).0 ≡ ok l
    → get (acquire lock locks).1 lock.resource_key ≡ some lock
unfolding acquire
acquire-owned lock l locks h = elim (Option-cases (get locks lock.resource_key)) [
  | inl e ↦ ground (
    arith,
    get-put locks lock.resource_key lock.resource_key lock,
    eq_iff lock.resource_key lock.resource_key,
  )
  | inr (x, e) ↦ ground (arith, same_lock_iff x lock)
]

acquire-taken :
    (lock other : ResourceLock) (locks : Locks)
    → get locks lock.resource_key ≡ some lock
    → other.resource_key ≡ lock.resource_key
    → other ≢ lock
    → is_blank other.resource_key ≡ false
    → ((acquire other locks).0 ≡ raised (conflict other lock)) × ((acquire other locks).1 ≡ locks)
unfolding acquire
acquire-taken lock other locks h same ne named =
    let here : get locks other.resource_key ≡ some lock = ap (get locks) same ∙ h in
    (ground (arith, same_lock_iff lock other), ground (arith, same_lock_iff lock other))

-- Once `acquire` has returned for a lock, and through any calls of which none releases that lock,
-- the lock is owned, and an `acquire` by any other action, session or task for the same resource
-- raises a conflict and changes nothing.
pub acquire_exclusive :
    (lock l : ResourceLock) (locks : Locks) (calls : List Call)
    → (acquire lock locks).0 ≡ ok l
    → Keeps lock calls
    → (is_owned_by lock (behind calls (acquire lock locks).1) ≡ true)
      × ((other : ResourceLock)
          → other.resource_key ≡ lock.resource_key
          → other ≢ lock
          → is_blank other.resource_key ≡ false
          → ((acquire other (behind calls (acquire lock locks).1)).0 ≡ raised (conflict other lock))
            × ((acquire other (behind calls (acquire lock locks).1)).1
                ≡ behind calls (acquire lock locks).1))
acquire_exclusive lock l locks calls h k =
    let after = behind calls (acquire lock locks).1 in
    let found = found_kept lock calls (acquire lock locks).1 k (acquire-owned lock l locks h) in
    (
      owned-intro lock after found,
      λ other same ne named. acquire-taken lock other after found same ne named,
    )

release-gone :
    (lock : ResourceLock) (locks : Locks)
    → get locks lock.resource_key ≡ some lock
    → get (release lock locks) lock.resource_key ≡ none
unfolding release
release-gone lock locks h = ground (
  arith,
  get-remove locks lock.resource_key lock.resource_key,
  eq_iff lock.resource_key lock.resource_key,
  option_beq_iff (get locks lock.resource_key) (some lock),
)

acquire-free :
    (lock : ResourceLock) (locks : Locks)
    → get locks lock.resource_key ≡ none
    → is_blank lock.resource_key ≡ false
    → (acquire lock locks).0 ≡ ok lock
unfolding acquire
acquire-free lock locks h named = ground arith

-- Behind the release of a lock that is owned, anyone may acquire the resource.
pub release-acquire :
    (lock other : ResourceLock) (locks : Locks)
    → is_owned_by lock locks ≡ true
    → other.resource_key ≡ lock.resource_key
    → is_blank other.resource_key ≡ false
    → (acquire other (release lock locks)).0 ≡ ok other
release-acquire lock other locks h same named =
    acquire-free other (release lock locks)
      (ap (get (release lock locks)) same ∙ release-gone lock locks (owned_iff lock locks h)) named
