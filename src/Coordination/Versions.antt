-- ===== src/Coordination/Versions.antt =====
-- `ResourceVersionRegistry` of src/universal_agent/coordination/locks.py.
use Prim.Native.String.{◌++◌}
use universal_agent.Prelude.{
  ◌≡◌, ◌≢◌, String, Bool, true, false, not, Option, none, some, if◌then◌else◌, ok, raised, Result,
  Method, ◌==◌, String_eq, Option_eq, arith,
}
use text.Mathlib.TextEquality.{eq_iff}
use universal_agent.Prelude.Text.{is_blank, strip}
use universal_agent.Prelude.Dict.{Dict, get, put, remove, get-put}
use universal_agent.Coordination.Locks.{ResourceError, value_error, version_conflict}

pub record ResourceVersionCheck : Type 0 where
  pub resource_key : String
  pub expected_version : Option String
  pub current_version : Option String
  pub matched : Bool

-- `f"{version}"` of an optional version.
abbrev pub shown : Option String → String
shown none = "None"
shown (some version) = version

unfoldable pub reason : ResourceVersionCheck → String
reason check =
    if check.matched
    then elim check.expected_version [
      | none ↦ "no expected resource version supplied"
      | some _ ↦ elim check.current_version [
        | none ↦ "current resource version is unknown"
        | some _ ↦ "resource version matched"
      ]
    ]
    else "resource version conflict: "
      ++ (check.resource_key
          ++ (" expected "
              ++ (shown check.expected_version ++ (", current " ++ shown check.current_version))))

unfoldable pub set_current : String → String → Method ResourceError (Dict String) Unit
set_current resource_key version versions =
    if is_blank resource_key
    then (raised (value_error "resource_key must not be empty"), versions)
    else if is_blank version
    then (raised (value_error "resource version must not be empty"), versions)
    else (ok tt, put versions (strip resource_key) (strip version))

abbrev pub current : String → Dict String → Option String
current resource_key versions = get versions resource_key

unfoldable pub forget : String → Dict String → Dict String
forget resource_key versions = remove versions resource_key

-- `expected_version is None or current is None or expected_version == current`
unfoldable pub is_matched : Option String → Option String → Bool
is_matched none _ = true
is_matched (some e) none = true
is_matched (some e) (some c) = e == c

unfoldable pub verify :
    String → Option String → Dict String → Result ResourceError ResourceVersionCheck
unfolding is_matched
verify resource_key expected_version versions =
    let check : ResourceVersionCheck = record {
      resource_key = resource_key;
      expected_version = expected_version;
      current_version = current resource_key versions;
      matched = is_matched expected_version (current resource_key versions);
    } in
    if is_blank resource_key
    then raised (value_error "resource_key must not be empty")
    else if not check.matched
    then raised (version_conflict (reason check))
    else ok check

-- What `verify` returns where it does not raise.
abbrev pub passed : String → Option String → Option String → ResourceVersionCheck
passed resource_key expected_version current_version = record {
  resource_key = resource_key;
  expected_version = expected_version;
  current_version = current_version;
  matched = true;
}

verify_known :
    (resource_key e c : String) (versions : Dict String)
    → is_blank resource_key ≡ false
    → get versions resource_key ≡ some c
    → (e ≡ c → verify resource_key (some e) versions ≡ ok (passed resource_key (some e) (some c)))
      × (e ≢ c
          → verify resource_key (some e) versions
            ≡ raised (
                version_conflict
                  (reason (record (passed resource_key (some e) (some c)) { matched = false }))))
unfolding verify is_matched
verify_known resource_key e c versions named h =
    (λ same. ground (arith, eq_iff e c), λ other. ground (arith, eq_iff e c))

set_current-found :
    (resource_key version : String) (versions : Dict String)
    → (set_current resource_key version versions).0 ≡ ok tt
    → get (set_current resource_key version versions).1 (strip resource_key) ≡ some (strip version)
unfolding set_current
set_current-found resource_key version versions h = ground (
  arith,
  get-put versions (strip resource_key) (strip resource_key) (strip version),
  eq_iff (strip resource_key) (strip resource_key),
)

-- Behind a `set_current` that returns, and for the stripped key where that is not blank, `verify`
-- returns where the expected version is the stripped version that was set, and raises a version
-- conflict for every other expected version.
pub set_current-verify :
    (resource_key version e : String) (versions : Dict String)
    → (set_current resource_key version versions).0 ≡ ok tt
    → is_blank (strip resource_key) ≡ false
    → (e ≡ strip version
        → verify (strip resource_key) (some e) (set_current resource_key version versions).1
          ≡ ok (passed (strip resource_key) (some e) (some (strip version))))
      × (e ≢ strip version
          → verify (strip resource_key) (some e) (set_current resource_key version versions).1
            ≡ raised (
                version_conflict (
                  reason (record (passed (strip resource_key) (some e) (some (strip version))) {
                    matched = false;
                  }))))
set_current-verify resource_key version e versions h named =
    verify_known (strip resource_key) e (strip version)
      (set_current resource_key version versions).1 named
      (set_current-found resource_key version versions h)
