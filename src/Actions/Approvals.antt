-- ===== src/Actions/Approvals.antt =====
-- The approvals that a session remembers.
use universal_agent.Prelude.{
  ℕ, zero, suc, ◌+◌, ◌-◌, ◌≤◌, ◌≡◌, ◌⊎◌, refl, String, not, List, [], ◌∷◌, ◌++◌ as append, filter,
  length, Mem, mem-filter, inl, inr, arith, ◌==◌, String_eq,
}
use universal_agent.Actions.Identity.{approved_fingerprint_limit, drop_text, last_items, remembered}

length-append : (xs ys : List String) → length (append xs ys) ≡ length xs + length ys
length-append [] ys = omega arith
length-append (x ∷ xs) ys = omega (arith, length-append xs ys)

length-drop_text : (n : ℕ) (xs : List String) → length (drop_text n xs) ≡ length xs - n
unfolding drop_text
length-drop_text zero xs = omega arith
length-drop_text (suc n) [] = omega arith
length-drop_text (suc n) (x ∷ xs) = omega (arith, length-drop_text n xs)

mem-drop_text : (n : ℕ) (xs : List String) (a : String) → Mem a (drop_text n xs) → Mem a xs
unfolding drop_text
mem-drop_text zero xs a m = m
mem-drop_text (suc n) [] a m = m
mem-drop_text (suc n) (x ∷ xs) a m = inr (mem-drop_text n xs a m)

mem-append : (xs : List String) (a b : String) → Mem b (append xs (a ∷ [])) → (b ≡ a) ⊎ Mem b xs
mem-append [] a b (inl e) = inl e
mem-append [] a b (inr m) = absurd m
mem-append (x ∷ xs) a b (inl e) = inr (inl e)
mem-append (x ∷ xs) a b (inr m) = elim (mem-append xs a b m) [ inl e ↦ inl e | inr i ↦ inr (inr i) ]

mem-last :
    (n : ℕ) (xs : List String) (a : String)
    → n ≤ length xs
    → Mem a (drop_text n (append xs (a ∷ [])))
unfolding drop_text
mem-last zero [] a h = inl refl
mem-last zero (x ∷ xs) a h = inr (mem-last zero xs a (omega arith))
mem-last (suc n) [] a h = absurd (omega arith)
mem-last (suc n) (x ∷ xs) a h = mem-last n xs a (omega arith)

-- An approval that is remembered is among the approvals, no other is that was not there before, and
-- there are never more than 32.
pub remembered_bounded :
    (fingerprint : String) (approved : List String)
    → (length (remembered fingerprint approved) ≤ approved_fingerprint_limit)
      × Mem fingerprint (remembered fingerprint approved)
      × ((item : String)
          → Mem item (remembered fingerprint approved)
          → (item ≡ fingerprint) ⊎ Mem item approved)
unfolding remembered last_items
remembered_bounded fingerprint approved =
    let others = filter (λ item. not (item == fingerprint)) approved in
    let all = append others (fingerprint ∷ []) in
    let n = length all - 32 in
    let size : length all ≡ length others + 1 = length-append others (fingerprint ∷ []) in
    (
      omega (arith, length-drop_text n all),
      mem-last n others fingerprint (omega (arith, size)),
      λ item m. elim (mem-append others fingerprint item (mem-drop_text n all item m)) [
        | inl e ↦ inl e
        | inr i ↦ inr (mem-filter (λ k. not (k == fingerprint)) approved item i).0
      ],
    )
