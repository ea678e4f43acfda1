-- ===== src/Coordination/Tests.antt =====
-- A lock table and a version table, and the theorems at them.
use text.Mathlib.TextEquality.{eq_iff}
use mathlib.Core.Bool.{false≢true}
use universal_agent.Prelude.{List, ◌≡◌, ◌≢◌, refl, ap, true, false, some, [], ◌∷◌, ok, raised}
use universal_agent.Prelude.Text.{is_blank, strip}
use universal_agent.Prelude.Dict.{get}
use universal_agent.Coordination.Locks.{
  ResourceLock, acquire, is_owned_by, release, conflict, version_conflict, active,
}
use universal_agent.Coordination.Versions.{set_current, verify, passed, reason, set_current-verify}
use universal_agent.Coordination.Exclusive.{Call, behind, acquire_exclusive, release-acquire}

abbrev mine : ResourceLock
mine = record { resource_key = "db"; action_id = "a1"; session_id = "s1"; task_id = "t1" }

abbrev theirs : ResourceLock
theirs = record { resource_key = "db"; action_id = "a2"; session_id = "s2"; task_id = "t2" }

mine≢theirs : theirs ≢ mine
mine≢theirs h = false≢true ((eq_iff "a2" "a1").1 (ap (λ l. l.action_id) h))

named : is_blank "db" ≡ false
unfolding is_blank
named = refl

abbrev calls : List Call
calls = Call.acquires theirs ∷ Call.releases theirs ∷ []

taken : (acquire mine []).0 ≡ ok mine
unfolding acquire get is_blank
taken = refl

owned : is_owned_by mine (("db", mine) ∷ []) ≡ true
unfolding is_owned_by get
owned = refl

acquire_exclusive_example :
    (is_owned_by mine (behind calls (acquire mine []).1) ≡ true)
    × ((other : ResourceLock)
        → other.resource_key ≡ mine.resource_key
        → other ≢ mine
        → is_blank other.resource_key ≡ false
        → ((acquire other (behind calls (acquire mine []).1)).0 ≡ raised (conflict other mine))
          × ((acquire other (behind calls (acquire mine []).1)).1
              ≡ behind calls (acquire mine []).1))
acquire_exclusive_example = acquire_exclusive mine mine [] calls taken (mine≢theirs, tt)

release-acquire_example : (acquire theirs (release mine (("db", mine) ∷ []))).0 ≡ ok theirs
release-acquire_example = release-acquire mine theirs (("db", mine) ∷ []) owned refl named

active_sorted : active (("b", mine) ∷ ("a", theirs) ∷ []) ≡ theirs ∷ mine ∷ []
unfolding active
active_sorted = refl

set : (set_current " db" "v2 " []).0 ≡ ok tt
unfolding set_current is_blank
set = refl

set_named : is_blank (strip " db") ≡ false
unfolding strip is_blank
set_named = refl

set_current-verify_example :
    ("v1" ≡ strip "v2 "
      → verify (strip " db") (some "v1") (set_current " db" "v2 " []).1
        ≡ ok (passed (strip " db") (some "v1") (some (strip "v2 "))))
    × ("v1" ≢ strip "v2 "
        → verify (strip " db") (some "v1") (set_current " db" "v2 " []).1
          ≡ raised (
              version_conflict (
                reason (record (passed (strip " db") (some "v1") (some (strip "v2 "))) {
                  matched = false;
                }))))
set_current-verify_example = set_current-verify " db" "v2 " "v1" [] set set_named
