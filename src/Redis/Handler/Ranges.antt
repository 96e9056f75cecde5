-- ===== src/Redis/Handler/Ranges.antt =====
-- crates/redis-protocol/src/handler.rs: the list commands against the functions on lists.
use Prim.Native.Nat.{min, max}
use roris_db.Prelude.{
  pos, negsuc, Bool, ◌&&◌, ◌||◌, ◌==◌, Bool-cases, ◌<◌, ℕ, zero, suc, ◌+◌, ◌-◌, ◌≤◌, ◌≡◌, refl, ap,
  ◌∙◌, sym, none, some, List, [], ◌∷◌, ◌++◌, append_assoc, append-nil, length, take, drop, ltb, leb,
  if◌then◌else◌, arith, Option-cases, inl, inr, ℤ,
}
use roris_db.Bytes.{Bytes}
use roris_db.Resp.{RespValue}
use roris_db.Redis.Handler.Args.{get_arg_str}
use roris_db.Redis.Handler.Lists.{
  push_front_all, push_back_all, pop_back, range_start, range_stop, range_of,
}

-- The texts among the arguments, in their order and in the opposite one.
unfoldable pub texts : List RespValue → List Bytes
texts [] = []
texts (a ∷ args) =
    let rest = texts args in elim (get_arg_str a) [ none ↦ rest | some text ↦ text ∷ rest ]

unfoldable pub texts_back : List RespValue → List Bytes
texts_back [] = []
texts_back (a ∷ args) =
    let rest = texts_back args in
    elim (get_arg_str a) [ none ↦ rest | some text ↦ rest ++ text ∷ [] ]

push_back_all-texts :
    (args : List RespValue) (l : List Bytes) → push_back_all args l ≡ l ++ texts args
unfolding push_back_all texts
push_back_all-texts [] l = sym (append-nil l)
push_back_all-texts (a ∷ args) l = elim (Option-cases (get_arg_str a)) [
  | inl e ↦ rw (e, push_back_all, texts) (push_back_all-texts args l)
  | inr (text, e) ↦
      rw (e, push_back_all, texts)
        (push_back_all-texts args (l ++ text ∷ []) ∙ append_assoc l (text ∷ []) (texts args))
]

push_front_all-texts_back :
    (args : List RespValue) (l : List Bytes) → push_front_all args l ≡ texts_back args ++ l
unfolding push_front_all texts_back
push_front_all-texts_back [] l = refl
push_front_all-texts_back (a ∷ args) l = elim (Option-cases (get_arg_str a)) [
  | inl e ↦ rw (e, push_front_all, texts_back) (push_front_all-texts_back args l)
  | inr (text, e) ↦
      rw (e, push_front_all, texts_back)
        (push_front_all-texts_back args (text ∷ l)
          ∙ sym (append_assoc (texts_back args) (text ∷ []) l))
]

-- RPUSH puts the texts among its arguments behind the list, in order; LPUSH puts them before it, the
-- last one first.
pub push_all_lem :
    (args : List RespValue) (l : List Bytes)
    → (push_back_all args l ≡ l ++ texts args) × (push_front_all args l ≡ texts_back args ++ l)
push_all_lem args l = (push_back_all-texts args l, push_front_all-texts_back args l)

-- RPOP takes the element at the end of the list and leaves the elements before it.
pub pop_back-append : (l : List Bytes) (x : Bytes) → pop_back (l ++ x ∷ []) ≡ some (x, l)
unfolding pop_back
pop_back-append [] x = refl
pop_back-append (y ∷ l) x = ground (arith, pop_back-append l x)

-- The elements whose position passes, where the first of them has the given position.
abbrev pub pick {ℓ} : {A : Type ℓ} → (ℕ → Bool) → ℕ → List A → List A
pick passes i [] = []
pick passes i (x ∷ l) = let rest = pick passes (suc i) l in if passes i then x ∷ rest else rest

-- The position is at or behind the start of a range in a list of the length; a negative start counts from
-- the end, -1 for the last element.
abbrev pub is_from : ℤ → ℕ → ℕ → Bool
is_from (pos n) len p = leb n p
is_from (negsuc n) len p = leb len (p + n + 1)

-- The position is at or before the stop; a negative one further back than the list counts as 0.
abbrev pub is_up_to : ℤ → ℕ → ℕ → Bool
is_up_to (pos n) len p = leb p n
is_up_to (negsuc n) len p = leb (p + n + 1) len || p == 0

pick_same {ℓ} :
    {A : Type ℓ} (f g : ℕ → Bool) (i : ℕ) (l : List A)
    → ((p : ℕ) → i ≤ p → p < i + length l → f p ≡ g p)
    → pick f i l ≡ pick g i l
pick_same f g i [] same = refl
pick_same f g i (x ∷ l) same =
    let here : f i ≡ g i = same i (omega arith) (omega arith) in
    let rest : pick f (suc i) l ≡ pick g (suc i) l =
      pick_same f g (suc i) l (λ p le lt. same p (omega arith) (omega arith)) in
    rw (here, rest) refl

take_nil {ℓ} : {A : Type ℓ} (n : ℕ) → ◌≡◌ {A = List A} (take n []) []
take_nil zero = refl
take_nil (suc n) = refl

drop_nil {ℓ} : {A : Type ℓ} (n : ℕ) → ◌≡◌ {A = List A} (drop n []) []
drop_nil zero = refl
drop_nil (suc n) = refl

drop_past {ℓ} : {A : Type ℓ} (n : ℕ) (l : List A) → length l ≤ n → drop n l ≡ []
drop_past n [] h = drop_nil n
drop_past zero (x ∷ l) h = absurd (omega arith)
drop_past (suc n) (x ∷ l) h = drop_past n l (omega arith)

is_from_lem :
    (start : ℤ) (len p : ℕ) → p < len → is_from start len p ≡ leb (range_start start len) p
unfolding range_start
is_from_lem (pos n) len p lt = ground arith
is_from_lem (negsuc n) len p lt = ground arith

is_up_to_lem : (stop : ℤ) (len p : ℕ) → p < len → is_up_to stop len p ≡ leb p (range_stop stop len)
unfolding range_stop
is_up_to_lem (pos n) zero p lt = absurd (omega arith)
is_up_to_lem (pos n) (suc m) p lt = ground arith
is_up_to_lem (negsuc n) len p lt = ground arith

-- what `range_of` makes of its two positions
slice_lem {ℓ} :
    {A : Type ℓ} (from to : ℕ) (l : List A)
    → (if ltb to from || leb (length l) from then [] else take (to - from + 1) (drop from l))
      ≡ take (suc to - max from 0) (drop (from - 0) l)
slice_lem from to l =
    let start : max from 0 ≡ from = omega arith in
    let skip : from - 0 ≡ from = omega arith in
    elim (Bool-cases (ltb to from)) [
      | inl e ↦ let count : suc to - from ≡ 0 = ground arith in rw (start, skip, e, count) refl
      | inr e ↦ elim (Bool-cases (leb (length l) from)) [
        | inl f ↦
            rw (start, skip, e, f)
              (sym (
                ap (take (suc to - from)) (drop_past from l (ground arith))
                ∙ take_nil (suc to - from)))
        | inr f ↦
            let count : suc to - from ≡ to - from + 1 = ground arith in
            rw (start, skip, e, f, count) refl
      ]
    ]

-- Between two positions: what `take` and `drop` give.
pick_between {ℓ} :
    {A : Type ℓ} (from to i : ℕ) (l : List A)
    → pick (λ p. leb from p && leb p to) i l ≡ take (suc to - max from i) (drop (from - i) l)
pick_between from to i [] =
    sym (ap (take (suc to - max from i)) (drop_nil (from - i)) ∙ take_nil (suc to - max from i))
pick_between from to i (x ∷ l) = elim (Bool-cases (leb from i)) [
  | inl e ↦ elim (Bool-cases (leb i to)) [
    | inl f ↦
        let count : suc to - max from i ≡ suc (suc to - max from (suc i)) = ground arith in
        let none_left : from - i ≡ 0 = ground arith in
        let none_later : from - suc i ≡ 0 = ground arith in
        rw (e, f, count, none_left)
          (ap (λ rest. x ∷ rest)
            (pick_between from to (suc i) l
              ∙ ap (λ n. take (suc to - max from (suc i)) (drop n l)) none_later))
    | inr f ↦
        let count : suc to - max from i ≡ 0 = ground arith in
        let later : suc to - max from (suc i) ≡ 0 = ground arith in
        rw (e, f, count)
          (pick_between from to (suc i) l ∙ ap (λ n. take n (drop (from - suc i) l)) later)
  ]
  | inr e ↦
      let passed : from - i ≡ suc (from - suc i) = ground arith in
      let same : max from i ≡ max from (suc i) = ground arith in
      rw (e, passed, same) (pick_between from to (suc i) l)
]

both :
    (start stop : ℤ) (len p : ℕ)
    → p < len
    → (is_from start len p && is_up_to stop len p)
      ≡ (leb (range_start start len) p && leb p (range_stop stop len))
both start stop len p lt = rw (is_from_lem start len p lt, is_up_to_lem stop len p lt) refl

-- The range of a list, with which LRANGE and ZRANGE answer, is its elements from the start to the stop, both
-- included, in their order and no others. A negative index counts from the end of the list; a negative stop
-- that is further back than the list counts as the first position.
pub range_of-pick :
    {A : Type 0} (start stop : ℤ) (l : List A)
    → range_of start stop l
      ≡ pick (λ p. is_from start (length l) p && is_up_to stop (length l) p) 0 l
unfolding range_of
range_of-pick start stop l =
    let len : ℕ = length l in
    let from : ℕ = range_start start len in
    let to : ℕ = range_stop stop len in
    slice_lem from to l
    ∙ sym (pick_between from to 0 l)
    ∙ sym (
        pick_same (λ p. is_from start len p && is_up_to stop len p) (λ p. leb from p && leb p to) 0
          l (λ p le lt. both start stop len p (omega arith)))

-- A negative stop at the front of a list that is not empty, or any further back, counts as its first
-- position, so that a range from the front to there holds the first element.
pub range_of_far_stop :
    {A : Type 0} (x : A) (l : List A) (n : ℕ)
    → length l ≤ n
    → range_of (pos 0) (negsuc n) (x ∷ l) ≡ x ∷ []
unfolding range_of range_start range_stop
range_of_far_stop x l n h =
    let front : min 0 (suc (length l)) ≡ 0 = omega arith in
    let to : suc (length l) - suc n ≡ 0 = omega arith in rw (front, to) (ground arith)
