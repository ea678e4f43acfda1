-- ===== src/Session/Paging.antt =====
-- `paginate_session_snapshots` of src/universal_agent/state/store.py, over the session ids of the
-- snapshots. A limit below zero stands as 0: both are refused.
use Prim.Native.String.{◌++◌}
use universal_agent.Prelude.{
  ℕ, String, Bool, true, false, not, ◌&&◌, ◌||◌, Option, none, some, List, [], ◌∷◌, ◌++◌ as append,
  length, if◌then◌else◌, ok, raised, Result, ◌==◌, String_eq, leb, ltb,
}

-- `StateNotFoundError`, `SessionVersionConflictError` and `ValueError`, with their messages.
pub data StoreError : Type 0 where
  state_not_found version_conflict value_error : String → StoreError

-- The variables of the loop.
pub record Page (A : Type 0) : Type 0 where
  pub selected : List A
  pub cursor_seen : Bool
  pub cursor_in_scope : Bool

-- `limit is not None and len(selected) >= limit`
abbrev pub is_full : Option ℕ → ℕ → Bool
is_full none n = false
is_full (some limit) n = leb limit n

-- `limit is not None and limit < 1`
abbrev pub is_refused : Option ℕ → Bool
is_refused none = false
is_refused (some limit) = ltb limit 1

-- `session_id == after_session_id`, and whether there is no cursor.
abbrev pub is_cursor : Option String → String → Bool
is_cursor none id = false
is_cursor (some cursor) id = id == cursor

abbrev pub is_absent : Option String → Bool
is_absent none = true
is_absent (some cursor) = false

abbrev pub grow : {A : Type 0} → A → List A → List A
grow s selected = append selected (s ∷ [])

module _ {A : Type 0} (session_id : A → String) (after_session_id : Option String)
    (limit : Option ℕ) where
  -- The loop, its `break` included.
  unfoldable pub scan : List A → Page A → Page A
  scan [] page = page
  scan (s ∷ rest) page =
      let hit = is_cursor after_session_id (session_id s) in
      let scope = page.cursor_in_scope || hit in
      let skipped =
        scan rest
          (record { selected = page.selected; cursor_seen = hit; cursor_in_scope = scope }) in
      let more =
        scan rest (record {
          selected = grow s page.selected;
          cursor_seen = true;
          cursor_in_scope = scope;
        }) in
      if not page.cursor_seen
      then skipped
      else if is_full limit (length (grow s page.selected))
      then record { selected = grow s page.selected; cursor_seen = true; cursor_in_scope = scope }
      else more

  unfoldable pub paginate : List A → Result StoreError (List A)
  unfolding scan
  paginate snapshots =
      let page = scan snapshots (record {
        selected = [];
        cursor_seen = is_absent after_session_id;
        cursor_in_scope = false;
      }) in
      if is_refused limit
      then raised (value_error "session list limit must be positive")
      else if not (is_absent after_session_id) && not page.cursor_in_scope
      then raised (
          value_error (
            "session cursor not found: "
            ++ elim after_session_id [ none ↦ "None" | some cursor ↦ cursor ]))
      else ok page.selected
