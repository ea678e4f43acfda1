-- ===== src/Session/Pages.antt =====
-- What a page of sessions holds.
use Prim.Native.String.{◌++◌}
use universal_agent.Prelude.{
  ◌≡◌, refl, sym, ap, ◌∙◌, ℕ, zero, suc, ◌+◌, String, Bool, true, false, ◌||◌, Option, none, some,
  List, [], ◌∷◌, ◌++◌ as append, length, any, if◌then◌else◌, ok, raised, ◌==◌, String_eq, arith,
}
use universal_agent.Session.Paging.{value_error, is_refused, is_cursor, grow, scan, paginate}

-- The first `n` elements, or all of them without a limit.
unfoldable pub first : {A : Type 0} → Option ℕ → List A → List A
first none xs = xs
first (some zero) xs = []
first (some (suc n)) [] = []
first (some (suc n)) (x ∷ xs) = x ∷ first (some n) xs

-- What stands behind the first element of this id.
unfoldable pub behind_cursor : {A : Type 0} → (A → String) → String → List A → List A
behind_cursor id cursor [] = []
behind_cursor id cursor (x ∷ xs) =
    let rest = behind_cursor id cursor xs in if id x == cursor then xs else rest

unfoldable pub after : {A : Type 0} → (A → String) → Option String → List A → List A
unfolding behind_cursor
after id none xs = xs
after id (some cursor) xs = behind_cursor id cursor xs

module _ {A : Type 0} where
  append-grow : (xs ys : List A) (x : A) → append (grow x xs) ys ≡ append xs (x ∷ ys)
  append-grow [] ys x = refl
  append-grow (z ∷ xs) ys x = ap (λ zs. z ∷ zs) (append-grow xs ys x)

  append_nil : (xs : List A) → append xs [] ≡ xs
  append_nil [] = refl
  append_nil (x ∷ xs) = ap (λ zs. x ∷ zs) (append_nil xs)

  length-grow : (x : A) (xs : List A) → length (grow x xs) ≡ suc (length xs)
  length-grow x [] = refl
  length-grow x (y ∷ xs) = ap (λ n. suc n) (length-grow x xs)

module _ {A : Type 0} (id : A → String) (cursor : Option String) where
  scan_all :
      (xs selected : List A) (scope : Bool)
      → (scan id cursor none xs
          (record { selected = selected; cursor_seen = true; cursor_in_scope = scope })).selected
        ≡ append selected xs
  unfolding scan
  scan_all [] selected scope = sym (append_nil selected)
  scan_all (x ∷ xs) selected scope =
      scan_all xs (grow x selected) (scope || is_cursor cursor (id x)) ∙ append-grow selected xs x

  scan-first :
      (xs selected : List A) (scope : Bool) (n limit : ℕ)
      → length selected + suc n ≡ limit
      → (scan id cursor
          (some limit)
          xs
          (record { selected = selected; cursor_seen = true; cursor_in_scope = scope })).selected
        ≡ append selected (first (some (suc n)) xs)
  unfolding scan first
  scan-first [] selected scope n limit h = sym (append_nil selected)
  scan-first (x ∷ xs) selected scope zero limit h = ground (arith, length-grow x selected)
  scan-first (x ∷ xs) selected scope (suc n) limit h =
      let more =
        scan-first xs (grow x selected) (scope || is_cursor cursor (id x)) n limit
          (omega (arith, length-grow x selected)) in
      let glue = append-grow selected (first (some (suc n)) xs) x in
      ground (arith, length-grow x selected)

  scan_seen :
      (limit : Option ℕ) (xs : List A) (scope : Bool)
      → is_refused limit ≡ false
      → (scan id cursor limit xs
          (record { selected = []; cursor_seen = true; cursor_in_scope = scope })).selected
        ≡ first limit xs
  unfolding first
  scan_seen none xs scope h = scan_all xs [] scope
  scan_seen (some zero) xs scope h = absurd (ground arith)
  scan_seen (some (suc n)) xs scope h = scan-first xs [] scope n (suc n) (omega arith)

  scan_scope :
      (limit : Option ℕ) (xs selected : List A) (seen : Bool)
      → (scan id cursor limit xs (record {
        selected = selected;
        cursor_seen = seen;
        cursor_in_scope = true;
      })).cursor_in_scope
        ≡ true
  unfolding scan
  scan_scope limit [] selected seen = refl
  scan_scope limit (x ∷ xs) selected seen =
      let skipped = scan_scope limit xs selected (is_cursor cursor (id x)) in
      let more = scan_scope limit xs (grow x selected) true in ground arith

module _ {A : Type 0} (id : A → String) (cursor : String) (limit : Option ℕ) where
  -- The loop before the cursor.
  scan_unseen :
      (xs : List A)
      → is_refused limit ≡ false
      → let page =
          scan id
            (some cursor)
            limit
            xs
            (record { selected = []; cursor_seen = false; cursor_in_scope = false }) in
        (page.cursor_in_scope ≡ any (λ x. id x == cursor) xs)
        × (page.selected ≡ first limit (behind_cursor id cursor xs))
  unfolding scan behind_cursor
  scan_unseen [] h = (refl, first_nil limit)
    where
      first_nil : (limit : Option ℕ) → [] ≡ first {A = A} limit []
      first_nil none = unfold first in refl
      first_nil (some zero) = unfold first in refl
      first_nil (some (suc n)) = unfold first in refl
  scan_unseen (x ∷ xs) h =
      let (scope, selected) = scan_unseen xs h in
      let seen = scan_seen id (some cursor) limit xs true h in
      let kept = scan_scope id (some cursor) limit xs [] true in (ground arith, ground arith)

-- Whether the cursor is the id of a listed session, or there is none.
unfoldable pub is_listed : {A : Type 0} → (A → String) → Option String → List A → Bool
is_listed id none xs = true
is_listed id (some cursor) xs = any (λ x. id x == cursor) xs

module _ {A : Type 0} (id : A → String) where
  -- With a positive limit or none, a page is the first sessions, up to the limit, behind the cursor,
  -- or from the start without a cursor, and a cursor that no session has raises `ValueError`.
  pub paginate-first :
      (cursor : Option String) (limit : Option ℕ) (xs : List A)
      → is_refused limit ≡ false
      → paginate id cursor limit xs ≡ (
          if is_listed id cursor xs
          then ok (first limit (after id cursor xs))
          else raised (
              value_error
                ("session cursor not found: " ++ elim cursor [ none ↦ "None" | some c ↦ c ])))
  unfolding paginate is_listed after
  paginate-first none limit xs h = let seen = scan_seen id none limit xs false h in ground arith
  paginate-first (some cursor) limit xs h =
      let (scope, selected) = scan_unseen id cursor limit xs h in ground arith
