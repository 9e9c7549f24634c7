-- ===== src/Metering/Pools/Drain.antt =====
-- The loop over the extra pool, step by step and on the whole table.
use treadstone.Prelude.{
  ℕ, ◌≡◌, refl, Bool, true, false, List, [], ◌∷◌, ◌++◌, not, arith, select, All, Bool-cases, leb→le,
  ◌⊎◌, inl, inr,
}
use treadstone.Prelude.Int.{
  ℤ, pos, ◌+ℤ◌, ◌-ℤ◌, ◌≤ℤ◌, ◌<ℤ◌, ltb_ℤ, leb_ℤ, min_ℤ, int_laws, parts_of_eq,
}
use treadstone.Metering.Model.{ComputeGrant}
use treadstone.Metering.Pools.{
  is_usable, by_expiry, insert_grant, drain, Drained, sum_remaining, expires_before,
}

min_ℤ-le_left : (a b : ℤ) → min_ℤ a b ≤ℤ a
unfolding min_ℤ
min_ℤ-le_left a b = ground arith

min_ℤ-le_right : (a b : ℤ) → min_ℤ a b ≤ℤ b
unfolding min_ℤ
min_ℤ-le_right a b = ground arith

min_ℤ_cases : (a b : ℤ) → (min_ℤ a b ≡ a) ⊎ (min_ℤ a b ≡ b)
unfolding min_ℤ
min_ℤ_cases a b = elim (Bool-cases (ltb_ℤ b a)) [ inl e ↦ inr (rw e) | inr e ↦ inl (rw e) ]

abbrev pay : ℕ → ℤ → ComputeGrant → ComputeGrant
pay now deduct g = record g { remaining_amount = g.remaining_amount -ℤ deduct; gmt_updated = now }

abbrev pub stopped : List ComputeGrant → ℤ → ℤ → Drained
stopped gs needed consumed = record { rows = gs; needed = needed; consumed = consumed }

-- The two ways of a round of the loop: `break`, or pay from the grant and go on.
module _ (now : ℕ) (g : ComputeGrant) (gs : List ComputeGrant) (needed consumed : ℤ) where
  abbrev pub deduct : ℤ
  deduct = min_ℤ g.remaining_amount needed

  abbrev pub later : Drained
  later = drain now gs (needed -ℤ deduct) (consumed +ℤ deduct)

  pub drain-stop :
      leb_ℤ needed (pos 0) ≡ true
      → drain now (g ∷ gs) needed consumed ≡ stopped (g ∷ gs) needed consumed
  unfolding drain
  drain-stop e = rw e

  pub drain-take :
      leb_ℤ needed (pos 0) ≡ false
      → drain now (g ∷ gs) needed consumed ≡ record later { rows = pay now deduct g ∷ later.rows }
  unfolding drain
  drain-take e = rw e

-- What was needed is taken or still needed.
pub drain-balance :
    (now : ℕ) (gs : List ComputeGrant) (needed consumed : ℤ)
    → (drain now gs needed consumed).consumed +ℤ (drain now gs needed consumed).needed
      ≡ consumed +ℤ needed
drain-balance now [] needed consumed = unfold drain in refl
drain-balance now (g ∷ gs) needed consumed =
    let d = min_ℤ g.remaining_amount needed in
    elim (Bool-cases (leb_ℤ needed (pos 0))) [
      | inl e ↦ rw (drain-stop now g gs needed consumed e)
      | inr e ↦
          rw (drain-take now g gs needed consumed e)
            (omega (int_laws, parts_of_eq (drain-balance now gs (needed -ℤ d) (consumed +ℤ d))))
    ]

-- What was taken has left the grants.
pub drain-sum :
    (now : ℕ) (gs : List ComputeGrant) (needed consumed : ℤ)
    → sum_remaining (drain now gs needed consumed).rows +ℤ (drain now gs needed consumed).consumed
      ≡ sum_remaining gs +ℤ consumed
drain-sum now [] needed consumed = unfold drain in refl
drain-sum now (g ∷ gs) needed consumed =
    let d = min_ℤ g.remaining_amount needed in
    elim (Bool-cases (leb_ℤ needed (pos 0))) [
      | inl e ↦ rw (drain-stop now g gs needed consumed e)
      | inr e ↦
          rw (drain-take now g gs needed consumed e)
            (omega (int_laws, parts_of_eq (drain-sum now gs (needed -ℤ d) (consumed +ℤ d))))
    ]

abbrev pub IsPositive : ComputeGrant → Type 0
IsPositive g = pos 0 <ℤ g.remaining_amount

abbrev pub IsNonneg : ComputeGrant → Type 0
IsNonneg g = pos 0 ≤ℤ g.remaining_amount

abbrev pub IsEmpty : ComputeGrant → Type 0
IsEmpty g = g.remaining_amount ≡ pos 0

All-IsNonneg : (gs : List ComputeGrant) → All IsPositive gs → All IsNonneg gs
All-IsNonneg [] h = tt
All-IsNonneg (g ∷ gs) h = (omega (arith, h.0), All-IsNonneg gs h.1)

-- No grant is overdrawn, and no more is taken than was needed.
pub drain-IsNonneg :
    (now : ℕ) (gs : List ComputeGrant) (needed consumed : ℤ)
    → All IsPositive gs
    → pos 0 ≤ℤ needed
    → All IsNonneg (drain now gs needed consumed).rows
      × (pos 0 ≤ℤ (drain now gs needed consumed).needed)
drain-IsNonneg now [] needed consumed h n = unfold drain in (tt, n)
drain-IsNonneg now (g ∷ gs) needed consumed h n =
    let d = min_ℤ g.remaining_amount needed in
    elim (Bool-cases (leb_ℤ needed (pos 0))) [
      | inl e ↦ rw (drain-stop now g gs needed consumed e) (All-IsNonneg (g ∷ gs) h, n)
      | inr e ↦ rw (drain-take now g gs needed consumed e) (
          let ih =
            drain-IsNonneg now gs (needed -ℤ d) (consumed +ℤ d) h.1
              (omega (int_laws, min_ℤ-le_right g.remaining_amount needed)) in
          ((omega (int_laws, min_ℤ-le_left g.remaining_amount needed), ih.0), ih.1))
    ]

-- Once the need is met no grant changes.
drain-met :
    (now : ℕ) (gs : List ComputeGrant) (needed consumed : ℤ)
    → needed ≤ℤ pos 0
    → (drain now gs needed consumed).needed ≡ needed
drain-met now [] needed consumed h = unfold drain in refl
drain-met now (g ∷ gs) needed consumed h =
    rw (drain-stop now g gs needed consumed (ground (arith, h)))

emptied : (r n : ℤ) → pos 0 <ℤ (n -ℤ min_ℤ r n) → r -ℤ min_ℤ r n ≡ pos 0
unfolding min_ℤ ◌-ℤ◌
emptied r n h = ground arith

drain-needed :
    (now : ℕ) (gs : List ComputeGrant) (needed consumed : ℤ)
    → pos 0 <ℤ (drain now gs needed consumed).needed
    → pos 0 <ℤ needed
drain-needed now gs needed consumed n = elim (Bool-cases (leb_ℤ needed (pos 0))) [
  | inl e ↦ absurd (
      omega (
        arith,
        n,
        parts_of_eq (drain-met now gs needed consumed (ground (arith, e))),
        leb→le _ _ e,
      ))
  | inr e ↦ ground (arith, e)
]

-- If something is still needed, every grant has been emptied.
drain-IsEmpty :
    (now : ℕ) (gs : List ComputeGrant) (needed consumed : ℤ)
    → pos 0 <ℤ (drain now gs needed consumed).needed
    → All IsEmpty (drain now gs needed consumed).rows
drain-IsEmpty now [] needed consumed n = unfold drain in tt
drain-IsEmpty now (g ∷ gs) needed consumed n =
    let d = min_ℤ g.remaining_amount needed in
    elim (Bool-cases (leb_ℤ needed (pos 0))) [
      | inl e ↦ absurd (omega (arith, drain-needed now (g ∷ gs) needed consumed n, leb→le _ _ e))
      | inr e ↦ rw (drain-take now g gs needed consumed e) (
          let n' = rw (drain-take now g gs needed consumed e) at n in
          (
            emptied g.remaining_amount needed
                (drain-needed now gs (needed -ℤ d) (consumed +ℤ d) n'),
            drain-IsEmpty now gs (needed -ℤ d) (consumed +ℤ d) n',
          ))
    ]

-- Sorting keeps the sum and every predicate on the rows.
sum-insert :
    (g : ComputeGrant) (gs : List ComputeGrant)
    → sum_remaining (insert_grant g gs) ≡ g.remaining_amount +ℤ sum_remaining gs
sum-insert g [] = refl
sum-insert g (h ∷ hs) = elim (Bool-cases (expires_before h.expires_at g.expires_at)) [
  | inl e ↦ rw e (omega (int_laws, parts_of_eq (sum-insert g hs)))
  | inr e ↦ rw e
]

pub sum-by_expiry : (gs : List ComputeGrant) → sum_remaining (by_expiry gs) ≡ sum_remaining gs
unfolding by_expiry
sum-by_expiry [] = refl
sum-by_expiry (g ∷ gs) = rw (sum-insert g (by_expiry gs), sum-by_expiry gs)

module _ {κ} (P : ComputeGrant → Type κ) where
  All-insert :
      (g : ComputeGrant) (gs : List ComputeGrant) → P g → All P gs → All P (insert_grant g gs)
  All-insert g [] p h = (p, tt)
  All-insert g (x ∷ xs) p h = elim (Bool-cases (expires_before x.expires_at g.expires_at)) [
    | inl e ↦ rw e (h.0, All-insert g xs p h.1)
    | inr e ↦ rw e (p, h)
  ]

  pub All-by_expiry : (gs : List ComputeGrant) → All P gs → All P (by_expiry gs)
  unfolding by_expiry
  All-by_expiry [] h = tt
  All-by_expiry (g ∷ gs) h = All-insert g (by_expiry gs) h.0 (All-by_expiry gs h.1)

pub sum-append :
    (xs ys : List ComputeGrant) → sum_remaining (xs ++ ys) ≡ sum_remaining xs +ℤ sum_remaining ys
sum-append [] ys = omega int_laws
sum-append (x ∷ xs) ys = omega (int_laws, parts_of_eq (sum-append xs ys))

-- A query and its complement share out the table.
pub sum-select :
    (p : ComputeGrant → Bool) (gs : List ComputeGrant)
    → sum_remaining (select p gs) +ℤ sum_remaining (select (λ g. not (p g)) gs) ≡ sum_remaining gs
sum-select p [] = omega int_laws
sum-select p (g ∷ gs) = elim (Bool-cases (p g)) [
  | inl e ↦ rw e (omega (int_laws, parts_of_eq (sum-select p gs)))
  | inr e ↦ rw e (omega (int_laws, parts_of_eq (sum-select p gs)))
]

pub select-IsPositive :
    (user now : ℕ) (gs : List ComputeGrant) → All IsPositive (select (is_usable user now) gs)
select-IsPositive user now [] = tt
select-IsPositive user now (g ∷ gs) = elim (Bool-cases (is_usable user now g)) [
  | inl e ↦ rw e (usable-IsPositive g e, select-IsPositive user now gs)
  | inr e ↦ rw e (select-IsPositive user now gs)
]
  where
    usable-IsPositive : (h : ComputeGrant) → is_usable user now h ≡ true → IsPositive h
    usable-IsPositive h e = unfold is_usable in ground (arith, e)
