-- ===== src/Metering/Pools/Usable.antt =====
-- The usable grants of a user before and after a round over the extra pool.
use treadstone.Prelude.{
  ℕ, ◌≡◌, refl, Bool, true, false, List, [], ◌∷◌, ◌++◌, ◌&&◌, not, arith, select, All, Bool-cases,
  inl, inr, ◌==◌,
}
use treadstone.Prelude.Int.{ℤ, pos, ◌+ℤ◌, ◌-ℤ◌, ◌≤ℤ◌, leb_ℤ, min_ℤ, int_laws, parts_of_eq}
use treadstone.Metering.Model.{ComputeGrant}
use treadstone.Metering.Pools.{is_usable, unexpired, by_expiry, drain, drain_table, sum_remaining}
use treadstone.Metering.Pools.Drain.{
  drain-stop, drain-take, drain-sum, drain-balance, drain-IsNonneg, IsNonneg, IsPositive,
  sum-append, sum-select, sum-by_expiry, All-by_expiry, select-IsPositive,
}

-- A grant of the user that has not expired, whatever is left of it.
abbrev IsCurrent : ℕ → ℕ → ComputeGrant → Type 0
IsCurrent user now g = ((g.user_id == user) && unexpired now g.expires_at) ≡ true

drain-IsCurrent :
    (user now : ℕ) (gs : List ComputeGrant) (needed consumed : ℤ)
    → All (IsCurrent user now) gs
    → All (IsCurrent user now) (drain now gs needed consumed).rows
drain-IsCurrent user now [] needed consumed h = unfold drain in tt
drain-IsCurrent user now (g ∷ gs) needed consumed h =
    let d = min_ℤ g.remaining_amount needed in
    elim (Bool-cases (leb_ℤ needed (pos 0))) [
      | inl e ↦ rw (drain-stop now g gs needed consumed e) h
      | inr e ↦
          rw (drain-take now g gs needed consumed e)
            (h.0, drain-IsCurrent user now gs (needed -ℤ d) (consumed +ℤ d) h.1)
    ]

usable-IsCurrent :
    (user now : ℕ) (g : ComputeGrant) → is_usable user now g ≡ true → IsCurrent user now g
unfolding is_usable
usable-IsCurrent user now g e = ground (arith, e)

select-IsCurrent :
    (user now : ℕ) (gs : List ComputeGrant)
    → All (IsCurrent user now) (select (is_usable user now) gs)
select-IsCurrent user now [] = tt
select-IsCurrent user now (g ∷ gs) = elim (Bool-cases (is_usable user now g)) [
  | inl e ↦ rw e (usable-IsCurrent user now g e, select-IsCurrent user now gs)
  | inr e ↦ rw e (select-IsCurrent user now gs)
]

-- Of a current grant that counts 0 or more, the query sees it or it has nothing left.
unusable-IsEmpty :
    (user now : ℕ) (g : ComputeGrant)
    → is_usable user now g ≡ false
    → IsCurrent user now g
    → IsNonneg g
    → g.remaining_amount ≡ pos 0
unfolding is_usable
unusable-IsEmpty user now g e c n = ground (arith, e, c, n)

sum-select_current :
    (user now : ℕ) (gs : List ComputeGrant)
    → All (IsCurrent user now) gs
    → All IsNonneg gs
    → sum_remaining (select (is_usable user now) gs) ≡ sum_remaining gs
sum-select_current user now [] c n = refl
sum-select_current user now (g ∷ gs) c n =
    let ih = sum-select_current user now gs c.1 n.1 in
    elim (Bool-cases (is_usable user now g)) [
      | inl e ↦ rw (e, ih)
      | inr e ↦
          rw e
            (omega (int_laws, parts_of_eq ih, parts_of_eq (unusable-IsEmpty user now g e c.0 n.0)))
    ]

select-append :
    (p : ComputeGrant → Bool) (xs ys : List ComputeGrant)
    → select p (xs ++ ys) ≡ select p xs ++ select p ys
select-append p [] ys = refl
select-append p (x ∷ xs) ys = elim (Bool-cases (p x)) [
  | inl e ↦ rw (e, select-append p xs ys)
  | inr e ↦ rw (e, select-append p xs ys)
]

select-select-not :
    (p : ComputeGrant → Bool) (xs : List ComputeGrant) → select p (select (λ g. not (p g)) xs) ≡ []
select-select-not p [] = refl
select-select-not p (x ∷ xs) = elim (Bool-cases (p x)) [
  | inl e ↦ rw (e, select-select-not p xs)
  | inr e ↦ rw (e, e, select-select-not p xs)
]

module _ (user now : ℕ) (grants : List ComputeGrant) (needed : ℤ) where
  abbrev sorted : List ComputeGrant
  sorted = by_expiry (select (is_usable user now) grants)

  abbrev paid : List ComputeGrant
  paid = (drain now sorted needed (pos 0)).rows

  sorted-IsPositive : All IsPositive sorted
  sorted-IsPositive = All-by_expiry IsPositive _ (select-IsPositive user now grants)

  paid-IsCurrent : All (IsCurrent user now) paid
  paid-IsCurrent =
      drain-IsCurrent user now sorted needed (pos 0)
        (All-by_expiry (IsCurrent user now) _ (select-IsCurrent user now grants))

  -- What the extra pool paid and what is still needed make up what was needed.
  pub drain_table-balance :
      (drain_table user now grants needed).consumed +ℤ (drain_table user now grants needed).needed
      ≡ needed
  unfolding drain_table
  drain_table-balance =
      omega (int_laws, parts_of_eq (unfold drain_table in drain-balance now sorted needed (pos 0)))

  -- Over all grants of the table the sum falls by what was paid.
  pub drain_table-sum :
      sum_remaining (drain_table user now grants needed).rows
        +ℤ (drain_table user now grants needed).consumed
      ≡ sum_remaining grants
  unfolding drain_table
  drain_table-sum = omega (
    int_laws,
    parts_of_eq (sum-append paid (select (λ g. not (is_usable user now g)) grants)),
    parts_of_eq (drain-sum now sorted needed (pos 0)),
    parts_of_eq (sum-by_expiry (select (is_usable user now) grants)),
    parts_of_eq (sum-select (is_usable user now) grants),
  )

  -- The usable grants lose exactly what was paid.
  pub drain_table-usable :
      pos 0 ≤ℤ needed
      → sum_remaining (select (is_usable user now) (drain_table user now grants needed).rows)
          +ℤ (drain_table user now grants needed).consumed
        ≡ sum_remaining (select (is_usable user now) grants)
  unfolding drain_table
  drain_table-usable n =
      rw (select-append (is_usable user now) paid _, select-select-not (is_usable user now) grants)
        (omega (
          int_laws,
          parts_of_eq (sum-append (select (is_usable user now) paid) []),
          parts_of_eq (
              sum-select_current user now paid paid-IsCurrent
                (drain-IsNonneg now sorted needed (pos 0) sorted-IsPositive n).0),
          parts_of_eq (drain-sum now sorted needed (pos 0)),
          parts_of_eq (sum-by_expiry (select (is_usable user now) grants)),
        ))

  pub drain_table-needed : pos 0 ≤ℤ needed → pos 0 ≤ℤ (drain_table user now grants needed).needed
  unfolding drain_table
  drain_table-needed n = (drain-IsNonneg now sorted needed (pos 0) sorted-IsPositive n).1
