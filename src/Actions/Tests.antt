-- ===== src/Actions/Tests.antt =====
-- An action at work.
use universal_agent.Coordination.Versions.{verify, is_matched, set_current}
use universal_agent.Policy.{
  check, evaluate, results, check_confirmation, check_allowed, default_result,
}
use universal_agent.Prelude.Text.{is_blank, is_space, strip}
use universal_agent.Prelude.Dict.{get, put, remove, values}
use universal_agent.Tools.Invoke.{execute_tool, execute_registered, execute_with, answer_result}
use universal_agent.Tools.Registry.{registrations_for_capability, resolve_tool}
use universal_agent.Capability.Registry.{
  resolve_registration, resolve_capability, choose, validated, least,
}
use universal_agent.Actions.Invoke.{invoke, call_tool, find_tool}
use universal_agent.Prelude.{◌≡◌, ◌≤◌, ◌⊎◌, refl, String, true, false, some, [], ◌∷◌, length, Mem}
use universal_agent.Coordination.Locks.{ResourceLock, is_owned_by, acquire, release}
use universal_agent.Actions.Identity.{
  approved_fingerprint_limit, read_only_policy_result, remembered, tool_call,
  ensure_resource_metadata, action_fingerprint, resource_version, first_version, version_text,
  member, remember_approval,
}
use universal_agent.Actions.Resources.{
  acquired, lock_of, emit, emitted, check_sandbox, guarded, check_resource_version, version_checked,
  acquire_resource_lock, acquire_lock, acquire_answer, release_resource_lock, record_key,
  forget_key, observe_result, from_tool_result, update_resource_version, set_resource_version,
}
use universal_agent.Actions.Run.{
  Checked, reconcile_locked, run_effect, run_locked, run_action, run_recorded, run_fresh,
}
use universal_agent.Actions.Execute.{
  checked_action, execute, policy_context, execute_found, execute_resolved, execute_identified,
  execute_checked, execute_decided, execute_permitted, execute_unless_seen, execute_current,
  verdict_of,
}
use universal_agent.Actions.Example.{executor, machine, pending, restart, restarter, session}
use universal_agent.Actions.Safety.{Permitted, execute-Permitted}
use universal_agent.Actions.Authorised.{Authorised, execute-Authorised}
use universal_agent.Actions.Records.{Records, run_effect-Records}
use universal_agent.Actions.Released.{run_locked-unowned}
use universal_agent.Actions.Approvals.{remembered_bounded}

-- The tool is called.
restart-called : (execute executor pending false machine).1.calls ≡ tool_call pending ∷ []
unfolding execute execute_found execute_resolved execute_identified execute_checked execute_decided
    execute_permitted execute_unless_seen execute_current run_action run_locked run_effect
    run_recorded run_fresh checked_action policy_context verdict_of invoke call_tool find_tool emit
    emitted check_sandbox guarded check_resource_version version_checked acquire_resource_lock
    acquire_lock acquire_answer lock_of release_resource_lock record_key forget_key observe_result
    from_tool_result update_resource_version set_resource_version tool_call ensure_resource_metadata
    read_only_policy_result action_fingerprint resource_version first_version version_text member
    remember_approval remembered resolve_registration resolve_capability choose validated least
    registrations_for_capability resolve_tool execute_tool execute_registered execute_with
    answer_result get put remove values is_blank is_space strip check evaluate results
    check_confirmation check_allowed default_result acquire release is_owned_by verify is_matched
    set_current
restart-called = refl

execute-Permitted_example :
    ((execute executor pending false machine).1.calls ≡ [])
    ⊎ Permitted executor pending false machine (execute executor pending false machine).1.calls
execute-Permitted_example = execute-Permitted executor pending false machine

execute-Authorised_example :
    ((execute executor pending false machine).1.calls ≡ [])
    ⊎ ((p : Permitted executor pending false machine
          (execute executor pending false machine).1.calls)
        × Authorised executor pending p.resolution false session)
execute-Authorised_example = execute-Authorised executor pending false machine

abbrev checked : Checked
checked = checked_action executor pending restart restarter true session

run_effect-Records_example : Records executor checked (run_effect executor checked machine)
run_effect-Records_example = run_effect-Records executor checked machine refl

abbrev lock : ResourceLock
lock = lock_of pending session

run_locked-unowned_example :
    (is_owned_by lock (run_locked executor checked (acquired (some lock)) machine).1.locks ≡ false)
    × (is_owned_by lock (reconcile_locked executor checked (acquired (some lock)) machine).1.locks
        ≡ false)
run_locked-unowned_example = run_locked-unowned executor checked lock machine

remembered_bounded_example :
    (length (remembered "b" ("a" ∷ "b" ∷ [])) ≤ approved_fingerprint_limit)
    × Mem "b" (remembered "b" ("a" ∷ "b" ∷ []))
    × ((item : String)
        → Mem item (remembered "b" ("a" ∷ "b" ∷ []))
        → (item ≡ "b") ⊎ Mem item ("a" ∷ "b" ∷ []))
remembered_bounded_example = remembered_bounded "b" ("a" ∷ "b" ∷ [])
