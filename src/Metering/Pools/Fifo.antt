-- ===== src/Metering/Pools/Fifo.antt =====
-- In which order grants are spent, and when a shortfall is booked.
use treadstone.Prelude.{
  ℕ, ◌≡◌, refl, true, false, List, [], ◌∷◌, ◌++◌, Option, arith, select, Bool-cases, All, inl, inr,
  not,
}
use treadstone.Prelude.Int.{ℤ, pos, ◌+ℤ◌, ◌-ℤ◌, leb_ℤ, min_ℤ}
use treadstone.Metering.Model.{ComputeGrant}
use treadstone.Metering.Pools.{
  is_usable, expires_before, by_expiry, insert_grant, drain, drain_table,
}
use treadstone.Metering.Pools.Drain.{drain-stop, drain-take, IsEmpty}

-- The loop has emptied a run of grants at the front, changed at most the one after them, and left
-- the rest as it was.
pub data SpentInOrder : List ComputeGrant → List ComputeGrant → Type 0 where
  untouched : (gs : List ComputeGrant) → SpentInOrder gs gs
  partial :
      (g h : ComputeGrant) (gs : List ComputeGrant)
      → h.expires_at ≡ g.expires_at
      → SpentInOrder (g ∷ gs) (h ∷ gs)
  emptied :
      (g h : ComputeGrant) {gs hs : List ComputeGrant}
      → h.expires_at ≡ g.expires_at
      → IsEmpty h
      → SpentInOrder gs hs
      → SpentInOrder (g ∷ gs) (h ∷ hs)

-- `a` expires no later than `b`
abbrev NotAfter : ComputeGrant → ComputeGrant → Type 0
NotAfter a b = expires_before b.expires_at a.expires_at ≡ false

-- Grants in the order in which they expire, those that never do last.
abbrev pub IsByExpiry : List ComputeGrant → Type 0
IsByExpiry [] = Unit
IsByExpiry (g ∷ gs) = All (NotAfter g) gs × IsByExpiry gs

expires_before_trans :
    (a b c : Option ℕ)
    → expires_before b a ≡ false
    → expires_before c b ≡ false
    → expires_before c a ≡ false
expires_before_trans a b c h k = ground (arith, h, k)

expires_before_asym : (a b : Option ℕ) → expires_before a b ≡ true → expires_before b a ≡ false
expires_before_asym a b h = ground (arith, h)

All-NotAfter :
    (g h : ComputeGrant) (gs : List ComputeGrant)
    → NotAfter g h
    → All (NotAfter h) gs
    → All (NotAfter g) gs
All-NotAfter g h [] n k = tt
All-NotAfter g h (x ∷ xs) n k =
    (expires_before_trans g.expires_at h.expires_at x.expires_at n k.0, All-NotAfter g h xs n k.1)

NotAfter-insert :
    (g h : ComputeGrant) (gs : List ComputeGrant)
    → NotAfter h g
    → All (NotAfter h) gs
    → All (NotAfter h) (insert_grant g gs)
NotAfter-insert g h [] n k = (n, tt)
NotAfter-insert g h (x ∷ xs) n k = elim (Bool-cases (expires_before x.expires_at g.expires_at)) [
  | inl e ↦ rw e (k.0, NotAfter-insert g h xs n k.1)
  | inr e ↦ rw e (n, k)
]

insert-IsByExpiry :
    (g : ComputeGrant) (gs : List ComputeGrant) → IsByExpiry gs → IsByExpiry (insert_grant g gs)
insert-IsByExpiry g [] h = (tt, tt)
insert-IsByExpiry g (x ∷ xs) h = elim (Bool-cases (expires_before x.expires_at g.expires_at)) [
  | inl e ↦ rw e (
    NotAfter-insert g x xs (expires_before_asym x.expires_at g.expires_at e) h.0,
    insert-IsByExpiry g xs h.1,
  )
  | inr e ↦ rw e ((e, All-NotAfter g x xs e h.0), h)
]

by_expiry-IsByExpiry : (gs : List ComputeGrant) → IsByExpiry (by_expiry gs)
unfolding by_expiry
by_expiry-IsByExpiry [] = tt
by_expiry-IsByExpiry (g ∷ gs) = insert-IsByExpiry g (by_expiry gs) (by_expiry-IsByExpiry gs)

-- A grant that pays less than it holds pays all that is still needed.
paid_in_full : (r n : ℤ) → leb_ℤ (n -ℤ min_ℤ r n) (pos 0) ≡ false → r -ℤ min_ℤ r n ≡ pos 0
unfolding min_ℤ ◌-ℤ◌
paid_in_full r n h = ground (arith, h)

drain-SpentInOrder :
    (now : ℕ) (gs : List ComputeGrant) (needed consumed : ℤ)
    → SpentInOrder gs (drain now gs needed consumed).rows
drain-SpentInOrder now [] needed consumed = unfold drain in untouched []
drain-SpentInOrder now (g ∷ gs) needed consumed =
    let d = min_ℤ g.remaining_amount needed in
    elim (Bool-cases (leb_ℤ needed (pos 0))) [
      | inl e ↦ rw (drain-stop now g gs needed consumed e) (untouched (g ∷ gs))
      | inr e ↦
          rw (drain-take now g gs needed consumed e)
            (elim (Bool-cases (leb_ℤ (needed -ℤ d) (pos 0))) [
              | inl paid ↦
                  rw (drain-met now gs (needed -ℤ d) (consumed +ℤ d) paid) (partial _ _ gs refl)
              | inr more ↦
                  emptied _ _ refl (paid_in_full g.remaining_amount needed more)
                    (drain-SpentInOrder now gs (needed -ℤ d) (consumed +ℤ d))
            ])
    ]
  where
    drain-met :
        (now' : ℕ) (xs : List ComputeGrant) (n c : ℤ)
        → leb_ℤ n (pos 0) ≡ true
        → (drain now' xs n c).rows ≡ xs
    drain-met now' [] n c e = unfold drain in refl
    drain-met now' (x ∷ xs) n c e = rw (drain-stop now' x xs n c e)

-- The extra pool is spent in the order in which grants expire: of the user's usable grants, sorted
-- so, those at the front are emptied, the next one may be drawn on, and those after it and every
-- grant that is not usable are left as they were.
pub drain_table-in_order :
    (user now : ℕ) (grants : List ComputeGrant) (needed : ℤ)
    → (sorted rows : List ComputeGrant) × (sorted ≡ by_expiry (select (is_usable user now) grants))
      × IsByExpiry sorted
      × SpentInOrder sorted rows
      × ((drain_table user now grants needed).rows
          ≡ rows ++ select (λ g. not (is_usable user now g)) grants)
unfolding drain_table
drain_table-in_order user now grants needed =
    let sorted = by_expiry (select (is_usable user now) grants) in
    (
      sorted,
      (drain now sorted needed (pos 0)).rows,
      refl,
      by_expiry-IsByExpiry (select (is_usable user now) grants),
      drain-SpentInOrder now sorted needed (pos 0),
      refl,
    )
