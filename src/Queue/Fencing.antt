-- ===== src/Queue/Fencing.antt =====
-- Monotone facts of the work queue: fencing tokens never fall, and terminal items never change, as
-- long as no item is removed.
use text.Mathlib.TextEquality.{eq_iff}
use mathlib.Core.Option.{some-injective}
use universal_agent.Prelude.{
  ℕ, ◌+◌, ◌<◌, ◌≤◌, ◌≡◌, refl, sym, ap, ◌∙◌, subst, String, true, false, Option, some, List, ok,
  arith, String_eq,
}
use universal_agent.Prelude.Dict.{get, get-put}
use universal_agent.Queue.Models.{WorkItem, WorkerLease, is_terminal}
use universal_agent.Queue.Store.{Queue}
use universal_agent.Queue.Leasing.{lease, expire, new_lease}
use universal_agent.Queue.Valid.{IsValid}
use universal_agent.Queue.Life.{Moves, Write, Writes, Traced}
use universal_agent.Queue.Expiry.{expire-Keeps}
use universal_agent.Queue.Grants.{lease-Keeps}
use universal_agent.Queue.Runs.{Call, IsPrune, behind, behind-Traced, Traced-start}
use universal_agent.Queue.Granted.{last_token, behind_grant, Grant, lease-Grant}

-- A run in which no item is removed.
pub data Serves (q : Queue) : Queue → Type 0 where
  start : Serves q q
  call : {s : Queue} (c : Call) → ¬ IsPrune c → Serves q s → Serves q (behind c s)

Serves-Traced : {q s : Queue} → IsValid q → Serves q s → Traced q s
Serves-Traced v start = Traced-start v
Serves-Traced v (call {s} c n r) = behind-Traced _ s (Serves-Traced v r) c n

Write-last_token : {q s : Queue} (k : String) → Write q s → last_token q k ≤ last_token s k
Write-last_token k (Write.count n) = omega arith
Write-last_token {q} k (Write.fence j) =
    ground (arith, get-put q.fencing_sequences j k (last_token q j + 1), eq_iff j k)
Write-last_token k (Write.add j y absent waiting fresh) = omega arith
Write-last_token k (Write.change j x y found moves) = omega arith

Writes-last_token : {q s : Queue} (k : String) → Writes q s → last_token q k ≤ last_token s k
Writes-last_token k Writes.start = omega arith
Writes-last_token k (Writes.write r w) = omega (arith, Writes-last_token k r, Write-last_token k w)

module _ {x y : WorkItem} where
  -- A terminal item makes no move.
  Moves-live : Moves x y → is_terminal x ≡ false
  unfolding is_terminal
  Moves-live (Moves.grant p _ _ _) = rw p
  Moves-live (Moves.renew p _ _ _) = rw p
  Moves-live (Moves.requeue p _ _ _ _) = rw p
  Moves-live (Moves.finish p _ _ _) = rw p
  Moves-live (Moves.withdraw p _ _ _) = p

Write-terminal :
    {q s : Queue} (k : String) (x : WorkItem)
    → Write q s
    → get q.items k ≡ some x
    → is_terminal x ≡ true
    → get s.items k ≡ some x
Write-terminal k x (Write.count n) e t = e
Write-terminal k x (Write.fence j) e t = e
Write-terminal {q} k x (Write.add j y absent waiting fresh) e t =
    ground (arith, get-put q.items j k y, eq_iff j k)
Write-terminal {q} k x (Write.change j z y found moves) e t =
    ground (arith, get-put q.items j k y, eq_iff j k, Moves-live moves)

Writes-terminal :
    {q s : Queue} (k : String) (x : WorkItem)
    → Writes q s
    → get q.items k ≡ some x
    → is_terminal x ≡ true
    → get s.items k ≡ some x
Writes-terminal k x Writes.start e t = e
Writes-terminal k x (Writes.write r w) e t = Write-terminal k x w (Writes-terminal k x r e t) t

-- From a valid queue, an item that is completed, failed or cancelled is still there and unchanged
-- behind any run of calls that does not prune.
pub Serves-terminal :
    (q s : Queue) (k : String) (x : WorkItem)
    → IsValid q
    → Serves q s
    → get q.items k ≡ some x
    → is_terminal x ≡ true
    → get s.items k ≡ some x
Serves-terminal q s k x v r e t = Writes-terminal k x (Serves-Traced v r).writes e t

Grant-token :
    {worker_id : String} {ttl now : ℕ} {kinds : Option (List String)} (q : Queue) (y : WorkItem)
    (l : WorkerLease)
    → Grant worker_id ttl now kinds q y
    → y.lease ≡ some l
    → IsValid q
    → (last_token q y.work_item_id < l.fencing_token)
      × (l.fencing_token ≡ last_token (lease worker_id ttl now kinds q).1 y.work_item_id)
Grant-token {worker_id} {ttl} {now} q y l g e v =
    let s = (expire now q).1 in
    let k = g.item.work_item_id in
    let grown =
      Writes-last_token {q = q} {s = s} k (expire-Keeps now q q (Traced-start v)).writes in
    let n = last_token s k + 1 in
    let drawn : some (new_lease worker_id now (now + ttl) n g.item) ≡ some l =
      sym (ap (λ z. z.lease) g.result) ∙ e in
    let token : l.fencing_token ≡ n =
      sym (
        ap (λ z. z.fencing_token)
          (some-injective (new_lease worker_id now (now + ttl) n g.item) l drawn))
      ∙ (unfold new_lease in refl) in
    let behind_token : last_token (behind_grant worker_id ttl now g.item s) k ≡ n =
      ground (arith, get-put s.fencing_sequences k k n, eq_iff k k) in
    let key : y.work_item_id ≡ k = ap (λ z. z.work_item_id) g.result in
    rw (key, g.state) (omega (arith, grown, token), token ∙ sym behind_token)

-- Of two leases of one item, the later carries the larger fencing token, whatever calls other than
-- pruning stand between them.
pub lease-lease-token :
    (q s : Queue) (first second : String) (ttl ttl' now now' : ℕ)
    (kinds kinds' : Option (List String)) (y y' : WorkItem) (l l' : WorkerLease)
    → IsValid q
    → (lease first ttl now kinds q).0 ≡ ok y
    → y.lease ≡ some l
    → Serves (lease first ttl now kinds q).1 s
    → (lease second ttl' now' kinds' s).0 ≡ ok y'
    → y'.lease ≡ some l'
    → y.work_item_id ≡ y'.work_item_id
    → l.fencing_token < l'.fencing_token
lease-lease-token q s first second ttl ttl' now now' kinds kinds' y y' l l' v h e r h' e' same =
    let v1 = (lease-Keeps first ttl now kinds q q (Traced-start v)).valid in
    let t = Serves-Traced v1 r in
    let one = Grant-token q y l (lease-Grant first ttl now kinds q y h) e v in
    let two = Grant-token s y' l' (lease-Grant second ttl' now' kinds' s y' h') e' t.valid in
    let grown =
      Writes-last_token {q = (lease first ttl now kinds q).1} {s = s} y.work_item_id t.writes in
    let two' = subst (λ k. last_token s k < l'.fencing_token) (sym same) two.0 in
    omega (arith, one.1, grown, two')
