-- ===== src/Queue/Members.antt =====
-- Sorting and removing items of the work queue, and the methods that do: `list`, `cancel` and
-- `prune_terminal` keep the invariant.
use text.Mathlib.TextEquality.{eq_iff}
use universal_agent.Prelude.{
  ℕ, ◌≡◌, refl, sym, ap, ◌∙◌, subst, subst₂, String, not, Option, some, List, [], ◌∷◌, ok, arith,
  Mem, bind-keeps, Bool-cases, lift, require, inl, inr, filter,
}
use universal_agent.Prelude.Text.{is_blank}
use universal_agent.Prelude.Dict.{
  get, remove, values, get-remove, get-remove_cases, remove-IsUnique,
}
use universal_agent.Queue.Models.{
  WorkItem, checked, is_terminal, is_prunable_terminal, sort_key_leb,
}
use universal_agent.Queue.Store.{Queue, insert_sorted, sort_items, get_item}
use universal_agent.Queue.Settling.{
  cancelled_item, cancel_found, cancel, delete_each, prune_terminal,
}
use universal_agent.Queue.Valid.{IsValidItem, IsValid, checked-eq}
use universal_agent.Queue.Life.{Moves, Traced, change-Traced}
use universal_agent.Queue.Expiry.{Keeps}
use universal_agent.Queue.Steps.{cleared-IsValidItem}

pub mem-insert_sorted :
    (a x : WorkItem) (items : List WorkItem) → Mem x (insert_sorted a items) → Mem x (a ∷ items)
unfolding insert_sorted
mem-insert_sorted a x [] m = m
mem-insert_sorted a x (b ∷ rest) m = elim (Bool-cases (sort_key_leb a b)) [
  | inl e ↦ rw e at m
  | inr e ↦ elim (let m' : Mem x (b ∷ insert_sorted a rest) = rw e at m in m') [
    | inl here ↦ inr (inl here)
    | inr there ↦ elim (mem-insert_sorted a x rest there) [
      | inl here ↦ inl here
      | inr there' ↦ inr (inr there')
    ]
  ]
]

pub mem-sort_items : (x : WorkItem) (items : List WorkItem) → Mem x (sort_items items) → Mem x items
unfolding sort_items
mem-sort_items x [] m = m
mem-sort_items x (a ∷ rest) m = elim (mem-insert_sorted a x (sort_items rest) m) [
  | inl here ↦ inl here
  | inr there ↦ inr (mem-sort_items x rest there)
]

-- Dropping an item with its fencing sequence.
delete-IsValid :
    {q : Queue} (k : String)
    → IsValid q
    → IsValid
        (record q { items = remove q.items k; fencing_sequences = remove q.fencing_sequences k })
delete-IsValid {q} k v = record {
  unique = remove-IsUnique q.items k v.unique;
  each = λ j x e.
      let (other, there) = get-remove_cases q.items k j e in
      let old = v.each j x there in
      let same : get (remove q.fencing_sequences k) j ≡ get q.fencing_sequences j =
        ground (arith, get-remove q.fencing_sequences k j, eq_iff k j) in
      record {
        keyed = old.keyed;
        passed = old.passed;
        spare = old.spare;
        named = old.named;
        fenced = λ l h. rw same (old.fenced l h);
      };
}

pub delete_each-IsValid :
    (items : List WorkItem) (q : Queue) → IsValid q → IsValid (delete_each items q)
unfolding delete_each
delete_each-IsValid [] q v = v
delete_each-IsValid (item ∷ rest) q v =
    delete_each-IsValid rest _ (delete-IsValid item.work_item_id v)

pub prune_terminal-IsValid :
    (before : Option ℕ) (q : Queue) → IsValid q → IsValid (prune_terminal before q).1
unfolding prune_terminal
prune_terminal-IsValid before q v =
    delete_each-IsValid (sort_items (filter (is_prunable_terminal before) (values q.items))) q v

get_item-some :
    (k : String) (q : Queue) (item : WorkItem)
    → (get_item k q).0 ≡ ok item
    → (get q.items k ≡ some item) × ((get_item k q).1 ≡ q)
unfolding get_item
get_item-some k q item h = ground arith

get_item-state : (k : String) (q : Queue) → (get_item k q).1 ≡ q
unfolding get_item
get_item-state k q = ground arith

cancel_found-Traced :
    (k reason : String) (now : ℕ) (item : WorkItem) {o : Queue} (q : Queue)
    → Traced o q
    → get q.items k ≡ some item
    → Traced o (cancel_found k reason now item q).1
unfolding cancel_found
cancel_found-Traced k reason now item {o} q t found = elim (Bool-cases (is_terminal item)) [
  | inl e ↦ rw e t
  | inr e ↦ rw e (
      bind-keeps (Traced o) (lift (checked (cancelled_item item reason now))) _ q t (λ y passed.
        let same = checked-eq (cancelled_item item reason now) passed in
        change-Traced t k item y found (subst (Moves item) same (Moves.withdraw e refl refl refl)) (
          subst₂ (IsValidItem q.fencing_sequences) (t.valid.each k item found).keyed same (
            cleared-IsValidItem (cancelled_item item reason now) (passed ∙ ap ok (sym same))
              (λ e'. absurd (cc)) refl))))
]

pub cancel-Keeps : (k reason : String) (now : ℕ) → Keeps (cancel k reason now)
unfolding cancel
cancel-Keeps k reason now o q t =
    bind-keeps (Traced o) (lift (require (not (is_blank reason)) _)) _ q t (λ _ _.
      bind-keeps (Traced o) (get_item k) _ q (rw get_item-state t) (λ item e.
        let (found, same) = get_item-some k q item e in
        rw same (cancel_found-Traced k reason now item q t found)))
