-- ===== src/Queue/Order.antt =====
-- The item that `_next_leaseable` chooses, and the order of `_sort_key` up to the id.
use universal_agent.Prelude.{
  ℕ, ◌≤◌, ◌≡◌, ◌⊎◌, sym, subst, String, true, false, Option, none, some, List, [], ◌∷◌, map, filter,
  arith, Mem, mem-filter_intro, Bool-cases, inl, inr, String_eq,
}
use mathlib.Core.Option.{some-injective}
use universal_agent.Prelude.Int.{leb_ℤ}
use universal_agent.Prelude.IntOrder.{◌≤ℤ◌, ◌<ℤ◌, leb_ℤ-true, leb_ℤ-false}
use universal_agent.Prelude.Text.{strip}
use universal_agent.Prelude.Member.{contains-Mem, Mem-contains}
use universal_agent.Prelude.Dict.{values}
use universal_agent.Queue.Models.{WorkItem, WorkItemStatus, is_queued, sort_key_leb}
use universal_agent.Queue.Store.{Queue, insert_sorted, sort_items}
use universal_agent.Queue.Leasing.{is_leaseable, next_leaseable}
use universal_agent.Queue.Members.{mem-insert_sorted}
use universal_agent.Queue.Grants.{next_leaseable-mem}

-- No item of `b`'s priority or a higher one was to come earlier.
abbrev pub Precedes : WorkItem → WorkItem → Type 0
Precedes a b =
    (b.priority ≤ℤ a.priority) × ((b.priority <ℤ a.priority) ⊎ (a.available_at ≤ b.available_at))

sort_key_leb-Precedes : (a b : WorkItem) → sort_key_leb a b ≡ true → Precedes a b
unfolding sort_key_leb
sort_key_leb-Precedes a b h = elim (Bool-cases (leb_ℤ b.priority a.priority)) [
  | inr e ↦ absurd (ground arith)
  | inl e ↦ elim (Bool-cases (leb_ℤ a.priority b.priority)) [
    | inr f ↦ (leb_ℤ-true b.priority a.priority e, inl (leb_ℤ-false a.priority b.priority f))
    | inl f ↦ (leb_ℤ-true b.priority a.priority e, inr (ground arith))
  ]
]

sort_key_leb-other : (a b : WorkItem) → sort_key_leb a b ≡ false → Precedes b a
unfolding sort_key_leb
sort_key_leb-other a b h = elim (Bool-cases (leb_ℤ b.priority a.priority)) [
  | inr e ↦ let less = leb_ℤ-false b.priority a.priority e in (omega (arith, less), inl less)
  | inl e ↦ elim (Bool-cases (leb_ℤ a.priority b.priority)) [
    | inr f ↦ absurd (ground arith)
    | inl f ↦ (leb_ℤ-true a.priority b.priority f, inr (ground arith))
  ]
]

Precedes-refl : (a : WorkItem) → Precedes a a
Precedes-refl a = (omega arith, inr (omega arith))

Precedes-trans : (a b c : WorkItem) → Precedes a b → Precedes b c → Precedes a c
Precedes-trans a b c (p, inl q) (r, s) = (omega arith, inl (omega arith))
Precedes-trans a b c (p, inr q) (r, inl s) = (omega arith, inl (omega arith))
Precedes-trans a b c (p, inr q) (r, inr s) = (omega arith, inr (omega arith))

-- The first item of a list, if there is one, precedes the others.
abbrev IsFirst : List WorkItem → Type 0
IsFirst [] = Unit
IsFirst (x ∷ rest) = (y : WorkItem) → Mem y (x ∷ rest) → Precedes x y

insert_sorted-IsFirst :
    (a : WorkItem) (items : List WorkItem) → IsFirst items → IsFirst (insert_sorted a items)
unfolding insert_sorted
insert_sorted-IsFirst a [] h = only
  where
    only : (y : WorkItem) → Mem y (a ∷ []) → Precedes a y
    only y (inl same) = subst (Precedes a) (sym same) (Precedes-refl a)
    only y (inr more) = absurd more
insert_sorted-IsFirst a (b ∷ bs) h = elim (Bool-cases (sort_key_leb a b)) [
  | inl e ↦ rw (e, insert_sorted) (before (sort_key_leb-Precedes a b e))
  | inr e ↦ rw (e, insert_sorted) (λ y m. behind (sort_key_leb-other a b e) y (kept m))
]
  where
    before : Precedes a b → (y : WorkItem) → Mem y (a ∷ b ∷ bs) → Precedes a y
    before p y (inl same) = subst (Precedes a) (sym same) (Precedes-refl a)
    before p y (inr there) = Precedes-trans a b y p (h y there)

    kept : {y : WorkItem} → Mem y (b ∷ insert_sorted a bs) → (y ≡ a) ⊎ Mem y (b ∷ bs)
    kept (inl same) = inr (inl same)
    kept {y} (inr there) = elim (mem-insert_sorted a y bs there) [
      | inl here ↦ inl here
      | inr there' ↦ inr (inr there')
    ]

    behind : Precedes b a → (y : WorkItem) → (y ≡ a) ⊎ Mem y (b ∷ bs) → Precedes b y
    behind p y (inl same) = subst (Precedes b) (sym same) p
    behind p y (inr there) = h y there

sort_items-IsFirst : (items : List WorkItem) → IsFirst (sort_items items)
unfolding sort_items
sort_items-IsFirst [] = tt
sort_items-IsFirst (a ∷ rest) = insert_sorted-IsFirst a (sort_items rest) (sort_items-IsFirst rest)

insert_sorted-mem :
    (a y : WorkItem) (items : List WorkItem) → Mem y (a ∷ items) → Mem y (insert_sorted a items)
unfolding insert_sorted
insert_sorted-mem a y [] m = m
insert_sorted-mem a y (b ∷ bs) m = elim (Bool-cases (sort_key_leb a b)) [
  | inl e ↦ rw (e, insert_sorted) m
  | inr e ↦ rw (e, insert_sorted) (moved (insert_sorted-mem a y bs) m)
]
  where
    moved :
        (Mem y (a ∷ bs) → Mem y (insert_sorted a bs))
        → Mem y (a ∷ b ∷ bs)
        → Mem y (b ∷ insert_sorted a bs)
    moved others (inl same) = inr (others (inl same))
    moved others (inr (inl same)) = inl same
    moved others (inr (inr there)) = inr (others (inr there))

sort_items-mem : (y : WorkItem) (items : List WorkItem) → Mem y items → Mem y (sort_items items)
unfolding sort_items
sort_items-mem y [] m = m
sort_items-mem y (a ∷ rest) m =
    insert_sorted-mem a y (sort_items rest) (later (sort_items-mem y rest) m)
  where
    later : (Mem y rest → Mem y (sort_items rest)) → Mem y (a ∷ rest) → Mem y (a ∷ sort_items rest)
    later others (inl same) = inl same
    later others (inr there) = inr (others there)

-- An item that may be leased: it waits, it is due, and its kind is among the accepted ones, of which
-- the blanks at both ends do not count; without any, every kind is accepted.
abbrev pub IsAccepted : Option (List String) → String → Type 0
IsAccepted none kind = Unit
IsAccepted (some kinds) kind = Mem kind (map strip kinds)

abbrev pub Leaseable : ℕ → Option (List String) → WorkItem → Type 0
Leaseable now accepted_kinds item =
    (item.status ≡ WorkItemStatus.queued)
    × (item.available_at ≤ now)
    × IsAccepted accepted_kinds item.kind

-- The kinds behind `_normalize_accepted_kinds`.
abbrev pub stripped : Option (List String) → Option (List String)
stripped none = none
stripped (some kinds) = some (map strip kinds)

queued-status : (s : WorkItemStatus) → is_queued s ≡ true → s ≡ WorkItemStatus.queued
queued-status s h = ground arith

pub Leaseable-true :
    (now : ℕ) (kinds : Option (List String)) (item : WorkItem)
    → is_leaseable now (stripped kinds) item ≡ true
    → Leaseable now kinds item
Leaseable-true now none item h = (queued-status item.status (ground arith), (ground arith), tt)
Leaseable-true now (some kinds) item h = (
  queued-status item.status (ground arith),
  (ground arith),
  contains-Mem (map strip kinds) item.kind (ground arith),
)

pub true-Leaseable :
    (now : ℕ) (kinds : Option (List String)) (item : WorkItem)
    → Leaseable now kinds item
    → is_leaseable now (stripped kinds) item ≡ true
true-Leaseable now none item (waiting, due, m) = ground arith
true-Leaseable now (some kinds) item (waiting, due, m) =
    let e = Mem-contains (map strip kinds) item.kind m in ground arith

-- An item of the queue that may be leased, where no other such item was to come earlier.
pub record Chosen (now : ℕ) (kinds : Option (List String)) (q : Queue) (item : WorkItem)
    : Type 0 where
  pub stored : Mem item (values q.items)
  pub leaseable : Leaseable now kinds item
  pub first :
      (other : WorkItem)
      → Mem other (values q.items)
      → Leaseable now kinds other
      → Precedes item other

abbrev first_of : List WorkItem → Option WorkItem
first_of items = elim items [ [] ↦ none | x ∷ _ ↦ some x ]

first_of-IsFirst :
    (items : List WorkItem) (item : WorkItem)
    → IsFirst items
    → first_of items ≡ some item
    → (y : WorkItem) → Mem y items
    → Precedes item y
first_of-IsFirst [] item h e y m = absurd m
first_of-IsFirst (x ∷ rest) item h e y m =
    subst (λ z. Precedes z y) (some-injective x item e) (h y m)

first_of-none : (items : List WorkItem) → first_of items ≡ none → (y : WorkItem) → Mem y items → ⊥
first_of-none [] e y m = m
first_of-none (x ∷ rest) e y m = absurd (cc)

module _ (now : ℕ) (kinds : Option (List String)) (q : Queue) where
  abbrev candidates : List WorkItem
  candidates = filter (is_leaseable now (stripped kinds)) (values q.items)

  candidate :
      (y : WorkItem)
      → Mem y (values q.items)
      → Leaseable now kinds y
      → Mem y (sort_items candidates)
  candidate y m l = sort_items-mem y candidates (
      mem-filter_intro (is_leaseable now (stripped kinds)) (values q.items) y m
        (true-Leaseable now kinds y l))

  pub next_leaseable-Chosen :
      (item : WorkItem)
      → next_leaseable now (stripped kinds) q ≡ some item
      → Chosen now kinds q item
  unfolding next_leaseable
  next_leaseable-Chosen item h =
      let (m, fits) = next_leaseable-mem now (stripped kinds) q item h in
      record {
        stored = m;
        leaseable = Leaseable-true now kinds item fits;
        first = λ y there l.
            first_of-IsFirst (sort_items candidates) item (sort_items-IsFirst candidates) h y
              (candidate y there l);
      }

  pub next_leaseable-none :
      next_leaseable now (stripped kinds) q ≡ none
      → (y : WorkItem) → Mem y (values q.items)
      → ¬ (Leaseable now kinds y)
  unfolding next_leaseable
  next_leaseable-none h y there l = first_of-none (sort_items candidates) h y (candidate y there l)
