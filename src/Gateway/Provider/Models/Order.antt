-- ===== src/Gateway/Provider/Models/Order.antt =====
-- models.ts: the sort by id, on models with distinct ids.
use dsh_gateway.Prelude.{
  true, false, Bool-cases, Text, text_eq, text_eq→≡, text_eq_refl, text_lt, text_lt_irrefl,
  text_lt_trans, text_lt_total, All, none, some, List, [], ◌∷◌, ◌++◌, ◌≡◌, refl, sym, ◌∙◌, inl, inr,
  arith,
}
use dsh_gateway.Gateway.Provider.Models.{CpaModel, find, insert, sort}

abbrev pub Below : CpaModel → CpaModel → Type 0
Below m n = text_lt m.id n.id ≡ true

-- Strictly increasing ids.
abbrev pub Sorted : List CpaModel → Type 0
Sorted [] = Unit
Sorted (m ∷ ms) = All (Below m) ms × Sorted ms

abbrev pub Distinct : List CpaModel → Type 0
Distinct [] = Unit
Distinct (m ∷ ms) = (find m.id ms ≡ none) × Distinct ms

Below-All : (m n : CpaModel) (ms : List CpaModel) → Below m n → All (Below n) ms → All (Below m) ms
Below-All m n [] b h = tt
Below-All m n (x ∷ xs) b (h, hs) = (text_lt_trans m.id n.id x.id b h, Below-All m n xs b hs)

module _ (P : CpaModel → Type 0) where
  insert-All : (m : CpaModel) (ms : List CpaModel) → P m → All P ms → All P (insert m ms)
  unfolding insert
  insert-All m [] p h = (p, tt)
  insert-All m (x ∷ xs) p (h, hs) = elim (Bool-cases (text_lt x.id m.id)) [
    | inl e ↦ rw e (h, insert-All m xs p hs)
    | inr e ↦ rw e (p, (h, hs))
  ]

  pub sort-All : (ms : List CpaModel) → All P ms → All P (sort ms)
  unfolding sort
  sort-All [] h = tt
  sort-All (m ∷ ms) (h, hs) = insert-All m (sort ms) h (sort-All ms hs)

-- Two ids are not both equal to a third if they differ.
both_equal : (a b id : Text) → text_eq a b ≡ false → text_eq a id ≡ true → text_eq b id ≡ true → ⊥
both_equal a b id d e f =
    let same : a ≡ b = text_eq→≡ a id e ∙ sym (text_eq→≡ b id f) in let r = text_eq_refl a in cc

find-insert :
    (id : Text) (m : CpaModel) (ms : List CpaModel)
    → find m.id ms ≡ none
    → find id (insert m ms) ≡ find id (m ∷ ms)
unfolding insert find
find-insert id m [] f = refl
find-insert id m (x ∷ xs) f = ground (arith, find-insert id m xs, both_equal x.id m.id id)

apart : (a b : Text) → text_eq a b ≡ false → text_lt a b ≡ false → text_lt b a ≡ true
apart a b d e = elim (Bool-cases (text_lt b a)) [
  | inl f ↦ f
  | inr f ↦ let same = text_lt_total a b e f in let r = text_eq_refl a in cc
]

insert-Sorted :
    (m : CpaModel) (ms : List CpaModel) → find m.id ms ≡ none → Sorted ms → Sorted (insert m ms)
unfolding insert find
insert-Sorted m [] f s = (tt, tt)
insert-Sorted m (x ∷ xs) f (b, s) = elim (Bool-cases (text_lt x.id m.id)) [
  | inl e ↦ rw e (insert-All (Below x) m xs e b, insert-Sorted m xs (ground arith) s)
  | inr e ↦
      let d : text_eq x.id m.id ≡ false = ground arith in
      let b' : Below m x = apart x.id m.id d e in rw e ((b', Below-All m x xs b' b), (b, s))
]

find_tail :
    (id : Text) (m : CpaModel) (xs ys : List CpaModel)
    → find id xs ≡ find id ys
    → find id (m ∷ xs) ≡ find id (m ∷ ys)
unfolding find
find_tail id m xs ys e = rw e refl

pub find-sort : (id : Text) (ms : List CpaModel) → Distinct ms → find id (sort ms) ≡ find id ms
unfolding sort
find-sort id [] d = refl
find-sort id (m ∷ ms) (f, d) =
    find-insert id m (sort ms) (find-sort m.id ms d ∙ f)
    ∙ find_tail id m (sort ms) ms (find-sort id ms d)

pub sort-Sorted : (ms : List CpaModel) → Distinct ms → Sorted (sort ms)
unfolding sort
sort-Sorted [] d = tt
sort-Sorted (m ∷ ms) (f, d) = insert-Sorted m (sort ms) (find-sort m.id ms d ∙ f) (sort-Sorted ms d)

below_not : (a b : Text) → text_lt a b ≡ true → text_lt b a ≡ false
below_not a b h = elim (Bool-cases (text_lt b a)) [
  | inl f ↦ let loop = text_lt_trans a b a h f in let i = text_lt_irrefl a in cc
  | inr f ↦ f
]

-- A sorted list is left as it is.
pub sort-IsSorted : (ms : List CpaModel) → Sorted ms → sort ms ≡ ms
unfolding sort insert
sort-IsSorted [] s = refl
sort-IsSorted (m ∷ []) s = refl
sort-IsSorted (m ∷ (n ∷ ms)) ((b, bs), s) =
    rw (sort-IsSorted (n ∷ ms) s, below_not m.id n.id b) refl

pub Below-differ : (m n : CpaModel) → Below m n → text_eq m.id n.id ≡ false
Below-differ m n b = elim (Bool-cases (text_eq m.id n.id)) [
  | inl e ↦ let same = text_eq→≡ m.id n.id e in let i = text_lt_irrefl m.id in cc
  | inr e ↦ e
]

Below-find : (m : CpaModel) (ms : List CpaModel) → All (Below m) ms → find m.id ms ≡ none
unfolding find
Below-find m [] h = refl
Below-find m (x ∷ xs) (h, hs) = elim (Bool-cases (text_eq x.id m.id)) [
  | inl e ↦ let same = text_eq→≡ x.id m.id e in let i = text_lt_irrefl m.id in cc
  | inr e ↦ rw e (Below-find m xs hs)
]

pub Sorted-Distinct : (ms : List CpaModel) → Sorted ms → Distinct ms
Sorted-Distinct [] s = tt
Sorted-Distinct (m ∷ ms) (b, s) = (Below-find m ms b, Sorted-Distinct ms s)

pub find-append :
    (id : Text) (xs ys : List CpaModel) → find id xs ≡ none → find id (xs ++ ys) ≡ find id ys
unfolding find
find-append id [] ys f = refl
find-append id (x ∷ xs) ys f = ground (arith, find-append id xs ys)

pub find-append_found :
    (id : Text) (m : CpaModel) (xs ys : List CpaModel)
    → find id xs ≡ some m
    → find id (xs ++ ys) ≡ some m
unfolding find
find-append_found id m [] ys f = cc
find-append_found id m (x ∷ xs) ys f = ground (arith, find-append_found id m xs ys)

differ_sym : (a b : Text) → text_eq a b ≡ false → text_eq b a ≡ false
differ_sym a b h = elim (Bool-cases (text_eq b a)) [
  | inl e ↦ let same = text_eq→≡ b a e in let r = text_eq_refl a in cc
  | inr e ↦ e
]

-- A model of a new id keeps the map distinct.
pub append-Distinct :
    (m : CpaModel) (xs : List CpaModel)
    → find m.id xs ≡ none
    → Distinct xs
    → Distinct (xs ++ m ∷ [])
unfolding find
append-Distinct m [] f d = (refl, tt)
append-Distinct m (x ∷ xs) f (g, d) =
    let other = differ_sym x.id m.id (ground arith) in
    (find-append x.id xs (m ∷ []) g ∙ rw other refl, append-Distinct m xs (ground arith) d)
