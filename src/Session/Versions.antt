-- ===== src/Session/Versions.antt =====
-- Versions of the stored sessions: a save from a stale copy is refused.
use universal_agent.Prelude.{
  ◌≡◌, refl, sym, ap, ◌∙◌, ℕ, suc, ◌≤◌, String, true, false, none, some, List, [], ◌∷◌,
  Option-cases, Bool-cases, inl, inr, ok, raised, ◌==◌, String_eq, ℕ_eq, nat_beq_iff, arith, Result,
}
use text.Mathlib.TextEquality.{eq_iff}
use universal_agent.Prelude.Dict.{get, put, has, has-get, get-put}
use universal_agent.Core.Models.{AgentState, Task}
use universal_agent.Session.Models.{SessionSnapshot, with_state, session_from_state}
use universal_agent.Session.Tables.{
  IsShared, restarted, restarted-restarted, copy_session-restarted,
}
use universal_agent.Session.Copy.{copy_session}
use universal_agent.Session.Paging.{StoreError}
use universal_agent.Session.Store.{
  Sessions, load_session, create_session, save_session, create, save, id_of, with_version, conflict,
  not_found,
}

-- A call that writes to the store.
pub data Call : Type 0 where
  creates saves : SessionSnapshot → Call
  creates_state saves_state : AgentState Task → Call

unfoldable pub behind : List Call → Sessions → Sessions
behind [] sessions = sessions
behind (Call.creates s ∷ rest) sessions = behind rest (create_session s sessions).1
behind (Call.saves s ∷ rest) sessions = behind rest (save_session s sessions).1
behind (Call.creates_state s ∷ rest) sessions = behind rest (create s sessions).1
behind (Call.saves_state s ∷ rest) sessions = behind rest (save s sessions).1

-- A session of this id is stored, at this version or a later one.
pub record AtLeast (id : String) (version : ℕ) (sessions : Sessions) : Type 0 where
  pub stored : SessionSnapshot
  pub here : get sessions id ≡ some stored
  pub later : version ≤ stored.version

create_session-get :
    (s : SessionSnapshot) (sessions : Sessions) (id : String) (x : SessionSnapshot)
    → get sessions id ≡ some x
    → get (create_session s sessions).1 id ≡ some x
unfolding create_session
create_session-get s sessions id x h =
    let put_other = get-put sessions (id_of s) id (with_version (copy_session s) 0) in
    let known = has-get sessions id in
    elim (Bool-cases (id_of s == id)) [
      | inl same ↦
          let e : has sessions (id_of s) ≡ true =
            ap (has sessions) ((eq_iff (id_of s) id).0 same) ∙ ground arith in
          rw e h
      | inr other ↦ ground arith
    ]

-- The three branches of a save.
save-missing :
    (s : SessionSnapshot) (sessions : Sessions)
    → get sessions (id_of s) ≡ none
    → save_session s sessions ≡ (raised (not_found (id_of s)), sessions)
unfolding save_session
save-missing s sessions h = ground arith

save-stale :
    (s stored : SessionSnapshot) (sessions : Sessions)
    → get sessions (id_of s) ≡ some stored
    → (s.version == stored.version) ≡ false
    → save_session s sessions ≡ (raised (conflict stored s), sessions)
unfolding save_session
save-stale s stored sessions h differs = ground arith

save-fresh :
    (s stored : SessionSnapshot) (sessions : Sessions)
    → get sessions (id_of s) ≡ some stored
    → (s.version == stored.version) ≡ true
    → save_session s sessions ≡ (
      ok (with_version s (suc stored.version)),
      put sessions (id_of s) (with_version (copy_session s) (suc stored.version)),
    )
unfolding save_session
save-fresh s stored sessions h agrees = ground arith

put-found :
    (sessions : Sessions) (id : String) (x : SessionSnapshot) → get (put sessions id x) id ≡ some x
put-found sessions id x = get-put sessions id id x ∙ rw ((eq_iff id id).1 refl) refl

put-other :
    (sessions : Sessions) (k id : String) (x : SessionSnapshot)
    → (k == id) ≡ false
    → get (put sessions k x) id ≡ get sessions id
put-other sessions k id x other = get-put sessions k id x ∙ rw other refl

-- What a save leaves under an id: the stored snapshot, or one of a later version.
save_session-get :
    (s : SessionSnapshot) (sessions : Sessions) (id : String) (x : SessionSnapshot)
    → get sessions id ≡ some x
    → (y : SessionSnapshot) × (get (save_session s sessions).1 id ≡ some y)
      × (x.version ≤ y.version)
save_session-get s sessions id x h = elim (Option-cases (get sessions (id_of s))) [
  | inl e ↦ rw (save-missing s sessions e) (x, h, omega arith)
  | inr (stored, e) ↦ elim (Bool-cases (s.version == stored.version)) [
    | inr differs ↦ rw (save-stale s stored sessions e differs) (x, h, omega arith)
    | inl agrees ↦
        let new = with_version (copy_session s) (suc stored.version) in
        rw (save-fresh s stored sessions e agrees) (elim (Bool-cases (id_of s == id)) [
          | inl same ↦
              let k : id_of s ≡ id = (eq_iff (id_of s) id).0 same in
              let x_is : some stored ≡ some x = sym e ∙ ap (get sessions) k ∙ h in
              (
                new,
                ap (get (put sessions (id_of s) new)) (sym k) ∙ put-found sessions (id_of s) new,
                later_version stored x x_is,
              )
          | inr other ↦ (x, put-other sessions (id_of s) id new other ∙ h, omega arith)
        ])
  ]
]
  where
    later_version :
        (stored x : SessionSnapshot) → some stored ≡ some x → x.version ≤ suc stored.version
    later_version stored x e =
        let same : stored ≡ x = cc in let v = ap (λ y. y.version) same in omega (arith, v)

create-AtLeast :
    (s : SessionSnapshot) (sessions : Sessions) (id : String) (version : ℕ)
    → AtLeast id version sessions
    → AtLeast id version (create_session s sessions).1
create-AtLeast s sessions id version h = record {
  stored = h.stored;
  here = create_session-get s sessions id h.stored h.here;
  later = h.later;
}

save-AtLeast :
    (s : SessionSnapshot) (sessions : Sessions) (id : String) (version : ℕ)
    → AtLeast id version sessions
    → AtLeast id version (save_session s sessions).1
save-AtLeast s sessions id version h =
    let (y, e, grows) = save_session-get s sessions id h.stored h.here in
    record { stored = y; here = e; later = omega (arith, h.later, grows) }

save-absent :
    (s : AgentState Task) (sessions : Sessions)
    → get sessions s.session_id ≡ none
    → save s sessions ≡ (raised (not_found s.session_id), sessions)
unfolding save
save-absent s sessions h = ground arith

save-present :
    (s : AgentState Task) (stored : SessionSnapshot) (sessions : Sessions)
    → get sessions s.session_id ≡ some stored
    → save s sessions ≡ save_session (with_state stored s) sessions
unfolding save
save-present s stored sessions h = ground arith

save_state-AtLeast :
    (s : AgentState Task) (sessions : Sessions) (id : String) (version : ℕ)
    → AtLeast id version sessions
    → AtLeast id version (save s sessions).1
save_state-AtLeast s sessions id version h = elim (Option-cases (get sessions s.session_id)) [
  | inl e ↦ rw (save-absent s sessions e) h
  | inr (stored, e) ↦
      rw (save-present s stored sessions e)
        (save-AtLeast (with_state stored s) sessions id version h)
]

behind-AtLeast :
    (calls : List Call) (sessions : Sessions) (id : String) (version : ℕ)
    → AtLeast id version sessions
    → AtLeast id version (behind calls sessions)
unfolding behind create
behind-AtLeast [] sessions id version h = h
behind-AtLeast (Call.creates s ∷ rest) sessions id version h =
    behind-AtLeast rest (create_session s sessions).1 id version
      (create-AtLeast s sessions id version h)
behind-AtLeast (Call.saves s ∷ rest) sessions id version h =
    behind-AtLeast rest (save_session s sessions).1 id version
      (save-AtLeast s sessions id version h)
behind-AtLeast (Call.creates_state s ∷ rest) sessions id version h =
    behind-AtLeast rest (create s sessions).1 id version
      (create-AtLeast (session_from_state s "" "" []) sessions id version h)
behind-AtLeast (Call.saves_state s ∷ rest) sessions id version h =
    behind-AtLeast rest (save s sessions).1 id version (save_state-AtLeast s sessions id version h)

saved-agrees :
    (s given : SessionSnapshot) (sessions : Sessions)
    → (save_session s sessions).0 ≡ ok given
    → (stored : SessionSnapshot) × (get sessions (id_of s) ≡ some stored)
      × ((s.version == stored.version) ≡ true)
saved-agrees s given sessions h = elim (Option-cases (get sessions (id_of s))) [
  | inl e ↦ let h' = rw (save-missing s sessions e) at h in absurd (cc)
  | inr (stored, e) ↦ elim (Bool-cases (s.version == stored.version)) [
    | inl agrees ↦ (stored, e, agrees)
    | inr differs ↦ let h' = rw (save-stale s stored sessions e differs) at h in absurd (cc)
  ]
]

saved-AtLeast :
    (s given : SessionSnapshot) (sessions : Sessions)
    → (save_session s sessions).0 ≡ ok given
    → AtLeast (id_of s) (suc s.version) (save_session s sessions).1
saved-AtLeast s given sessions h =
    let (stored, e, agrees) = saved-agrees s given sessions h in
    let new = with_version (copy_session s) (suc stored.version) in
    let v : s.version ≡ stored.version = (nat_beq_iff s.version stored.version).0 agrees in
    rw (save-fresh s stored sessions e agrees)
      (record { stored = new; here = put-found sessions (id_of s) new; later = omega (arith, v) })

stale-refused :
    (s : SessionSnapshot) (sessions : Sessions) (h : AtLeast (id_of s) (suc s.version) sessions)
    → ((save_session s sessions).0 ≡ raised (conflict h.stored s))
      × ((save_session s sessions).1 ≡ sessions)
stale-refused s sessions h =
    let later = h.later in
    let differs : (s.version == h.stored.version) ≡ false = ground arith in
    rw (save-stale s h.stored sessions h.here differs) (refl, refl)

-- Where a save of one copy of a session goes through, a save of another copy of the same session and
-- version is refused with a version conflict and changes nothing, whatever calls come between, and
-- whatever the two copies hold.
pub stale_save_refused :
    (first second given : SessionSnapshot) (sessions : Sessions) (calls : List Call)
    → (save_session first sessions).0 ≡ ok given
    → id_of second ≡ id_of first
    → second.version ≡ first.version
    → (stored : SessionSnapshot) × ((save_session second
          (behind calls (save_session first sessions).1)).0
        ≡ raised (conflict stored second))
      × ((save_session second (behind calls (save_session first sessions).1)).1
          ≡ behind calls (save_session first sessions).1)
stale_save_refused first second given sessions calls h same version =
    let after = behind calls (save_session first sessions).1 in
    let kept =
      behind-AtLeast calls (save_session first sessions).1 (id_of first) (suc first.version)
        (saved-AtLeast first given sessions h) in
    let at : AtLeast (id_of second) (suc second.version) after = record {
      stored = kept.stored;
      here = ap (get after) same ∙ kept.here;
      later = ground (arith, kept.later);
    } in
    let (refused, unchanged) = stale-refused second after at in (at.stored, refused, unchanged)

ok-same :
    {a b : SessionSnapshot} → ◌≡◌ {A = Result StoreError SessionSnapshot} (ok a) (ok b) → a ≡ b
ok-same e = cc

-- What a save that goes through leaves: the new version, and the other sessions as they were.
saved :
    (s given : SessionSnapshot) (sessions : Sessions)
    → (save_session s sessions).0 ≡ ok given
    → (given ≡ with_version s (suc s.version))
      × ((save_session s sessions).1
          ≡ put sessions (id_of s) (with_version (copy_session s) (suc s.version)))
saved s given sessions h =
    let (stored, e, agrees) = saved-agrees s given sessions h in
    let v : s.version ≡ stored.version = (nat_beq_iff s.version stored.version).0 agrees in
    let fresh = save-fresh s stored sessions e agrees in
    (
      ok-same (sym h ∙ ap (λ r. r.0) fresh) ∙ ap (λ n. with_version s (suc n)) (sym v),
      ap (λ r. r.1) fresh
          ∙ ap (λ n. put sessions (id_of s) (with_version (copy_session s) (suc n))) (sym v),
    )

load_get :
    (id : String) (sessions : Sessions) (x : SessionSnapshot)
    → get sessions id ≡ some x
    → (load_session id sessions).0 ≡ ok (copy_session x)
unfolding load_session
load_get id sessions x h = ground arith

load_none :
    (id : String) (sessions : Sessions)
    → get sessions id ≡ none
    → (load_session id sessions).0 ≡ raised (not_found id)
unfolding load_session
load_none id sessions h = ground arith

load_same :
    (id : String) (before after : Sessions)
    → get after id ≡ get before id
    → (load_session id after).0 ≡ (load_session id before).0
load_same id before after h = elim (Option-cases (get before id)) [
  | inl e ↦ load_none id after (h ∙ e) ∙ sym (load_none id before e)
  | inr (x, e) ↦ load_get id after x (h ∙ e) ∙ sym (load_get id before x e)
]

-- A copy of a copy, at another version.
copied_again :
    (t : String → Task) (s : SessionSnapshot) (n : ℕ)
    → IsShared t s
    → copy_session (with_version (copy_session s) n) ≡ restarted (with_version s n)
unfolding copy_session
copied_again t s n h =
    let x = restarted (with_version s n) in
    ap (λ y. copy_session (with_version y n)) (copy_session-restarted t s h)
    ∙ copy_session-restarted t x
        (record { current = h.current; listed = h.listed; nodes = h.nodes })
    ∙ restarted-restarted (with_version s n)

-- Where a save goes through, of a session in which an id stands for one task, it gives the session at
-- the next version, a load then gives that session with its state, task graph, evidence and domains,
-- only that the cost and token totals are 0 and it is no continuation, and a load of any other id
-- gives what it gave before.
pub load-save_session :
    (t : String → Task) (s given : SessionSnapshot) (sessions : Sessions) (other : String)
    → IsShared t s
    → (save_session s sessions).0 ≡ ok given
    → (id_of s == other) ≡ false
    → (given ≡ with_version s (suc s.version))
      × ((load_session (id_of s) (save_session s sessions).1).0 ≡ ok (restarted given))
      × ((load_session other (save_session s sessions).1).0 ≡ (load_session other sessions).0)
load-save_session t s given sessions other shared h differs =
    let (raised_by_one, after) = saved s given sessions h in
    let new = with_version (copy_session s) (suc s.version) in
    (
      raised_by_one,
      ap (λ q. (load_session (id_of s) q).0) after
          ∙ load_get (id_of s) (put sessions (id_of s) new) new (put-found sessions (id_of s) new)
          ∙ ap ok (copied_again t s (suc s.version) shared ∙ ap restarted (sym raised_by_one)),
      ap (λ q. (load_session other q).0) after
          ∙ load_same other sessions (put sessions (id_of s) new)
              (put-other sessions (id_of s) other new differs),
    )
