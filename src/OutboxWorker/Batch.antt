-- ===== src/OutboxWorker/Batch.antt =====
-- What a claim takes: due messages that nobody has locked, in order, a batch at most.

use fastapi_production_api.OutboxWorker.Claimed.{claimed_row, claim_rows-claimed_row}
use fastapi_production_api.Table.{delete_where}
use fastapi_production_api.OutboxWorker.Claim.{
  claim_messages, comes_first, due_batch, in_order, insert_ordered, is_due, snapshot,
}
use fastapi_production_api.World.{World}
use mathlib.Core.List.Perm
use mathlib.Core.List.{Perm}
use fastapi_production_api.Db.{Session, request, ok, err, database}
use fastapi_production_api.Models.{OutboxMessage}
use fastapi_production_api.OutboxWorker.Fencing.{claim_each_lem, claim_rows}
use fastapi_production_api.Base.{
  ℕ, ◌≡◌, String, Bool, true, false, List, [], ◌∷◌, arith, inl, inr, ◌⊎◌, All, All-map, All-take,
  Bool-cases, length, length-take, map, not, suc, take, zero, ◌||◌, ◌&&◌, ◌++◌, ◌≤◌, nat_eq, refl,
  ap, ◌∙◌, if◌then◌else◌,
}

-- No message comes before the one that stands ahead of it.
abbrev pub IsOrdered : List OutboxMessage → Type 0
IsOrdered [] = Unit
IsOrdered (x ∷ xs) = All (λ y. comes_first x y ≡ true) xs × IsOrdered xs

comes_first_trans :
    (a b c : OutboxMessage)
    → comes_first a b ≡ true
    → comes_first b c ≡ true
    → comes_first a c ≡ true
comes_first_trans a b c h k = ground arith

comes_first-total : (a b : OutboxMessage) → comes_first a b ≡ false → comes_first b a ≡ true
comes_first-total a b h = ground arith

All-insert_ordered :
    (P : OutboxMessage → Type 0) (m : OutboxMessage) (xs : List OutboxMessage)
    → P m
    → All P xs
    → All P (insert_ordered m xs)
unfolding insert_ordered
All-insert_ordered P m [] p h = (p, tt)
All-insert_ordered P m (x ∷ xs) p h = elim (Bool-cases (comes_first m x)) [
  | inl before ↦ rw before (p, (h.0, h.1))
  | inr after ↦ rw after (h.0, All-insert_ordered P m xs p h.1)
]

All-in_order :
    (P : OutboxMessage → Type 0) (xs : List OutboxMessage) → All P xs → All P (in_order xs)
unfolding in_order
All-in_order P [] h = tt
All-in_order P (x ∷ xs) h = All-insert_ordered P x (in_order xs) h.0 (All-in_order P xs h.1)

insert_ordered-IsOrdered :
    (m : OutboxMessage) (xs : List OutboxMessage) → IsOrdered xs → IsOrdered (insert_ordered m xs)
unfolding insert_ordered
insert_ordered-IsOrdered m [] h = (tt, tt)
insert_ordered-IsOrdered m (x ∷ xs) h = elim (Bool-cases (comes_first m x)) [
  | inl before ↦
      rw before ((before, All-map xs (λ y k. comes_first_trans m x y before k) h.0), (h.0, h.1))
  | inr after ↦ rw after (
    All-insert_ordered (λ y. comes_first x y ≡ true) m xs (comes_first-total m x after) h.0,
    insert_ordered-IsOrdered m xs h.1,
  )
]

in_order-IsOrdered : (xs : List OutboxMessage) → IsOrdered (in_order xs)
unfolding in_order
in_order-IsOrdered [] = tt
in_order-IsOrdered (x ∷ xs) = insert_ordered-IsOrdered x (in_order xs) (in_order-IsOrdered xs)

take-IsOrdered : (n : ℕ) (xs : List OutboxMessage) → IsOrdered xs → IsOrdered (take n xs)
take-IsOrdered zero xs h = tt
take-IsOrdered (suc n) [] h = tt
take-IsOrdered (suc n) (x ∷ xs) h =
    (All-take (λ y. comes_first x y ≡ true) n xs h.0, take-IsOrdered n xs h.1)

abbrev pub is_takeable : ℕ → (ℕ → Bool) → OutboxMessage → Bool
is_takeable at locked m = is_due at m && not (locked m.id)

insert_ordered-Perm :
    (m : OutboxMessage) (xs : List OutboxMessage) → Perm (insert_ordered m xs) (m ∷ xs)
unfolding insert_ordered
insert_ordered-Perm m [] = Perm.refl (m ∷ [])
insert_ordered-Perm m (x ∷ xs) = elim (Bool-cases (comes_first m x)) [
  | inl before ↦ rw before (Perm.refl (m ∷ x ∷ xs))
  | inr after ↦
      rw after (Perm.trans (Perm.cons' refl (insert_ordered-Perm m xs)) (Perm.swap m x xs))
]

in_order-Perm : (xs : List OutboxMessage) → Perm (in_order xs) xs
unfolding in_order
in_order-Perm [] = Perm.rfl
in_order-Perm (x ∷ xs) =
    Perm.trans (insert_ordered-Perm x (in_order xs)) (Perm.cons' refl (in_order-Perm xs))

-- The due rows that nobody has locked, in the order of the table.
unfoldable pub takeable_rows : ℕ → (ℕ → Bool) → List OutboxMessage → List OutboxMessage
takeable_rows at locked [] = []
takeable_rows at locked (m ∷ ms) =
    if is_takeable at locked m then m ∷ takeable_rows at locked ms else takeable_rows at locked ms

kept-takeable_rows :
    (at : ℕ) (locked : ℕ → Bool) (xs : List OutboxMessage)
    → delete_where (λ m. not (is_due at m) || locked m.id) xs ≡ takeable_rows at locked xs
unfolding delete_where takeable_rows
kept-takeable_rows at locked [] = refl
kept-takeable_rows at locked (x ∷ xs) = ground (arith, kept-takeable_rows at locked xs)

-- What a claim takes of the rows: the first of all takeable rows in their order, as many as a batch
-- allows, or else all of them. The rows that it leaves behind come after.
pub record IsBatch (size at : ℕ) (locked : ℕ → Bool) (rows ms : List OutboxMessage) : Type 0 where
  pub left : List OutboxMessage
  pub of_rows : Perm (ms ++ left) (takeable_rows at locked rows)
  pub ordered : IsOrdered (ms ++ left)
  pub bounded : length ms ≤ size
  pub full : (left ≡ []) ⊎ (length ms ≡ size)

abbrev drop : ℕ → List OutboxMessage → List OutboxMessage
drop zero xs = xs
drop (suc n) [] = []
drop (suc n) (x ∷ xs) = drop n xs

take-drop : (n : ℕ) (xs : List OutboxMessage) → take n xs ++ drop n xs ≡ xs
take-drop zero xs = refl
take-drop (suc n) [] = refl
take-drop (suc n) (x ∷ xs) = ap (λ ys. x ∷ ys) (take-drop n xs)

take-full : (n : ℕ) (xs : List OutboxMessage) → (drop n xs ≡ []) ⊎ (length (take n xs) ≡ n)
take-full zero xs = inr refl
take-full (suc n) [] = inl refl
take-full (suc n) (x ∷ xs) = elim (take-full n xs) [
  | inl all ↦ inl all
  | inr whole ↦ inr (omega (arith, whole))
]

due_batch-IsBatch :
    (size at : ℕ) (locked : ℕ → Bool) (rows : List OutboxMessage)
    → IsBatch size at locked rows (due_batch size at locked rows)
unfolding due_batch
due_batch-IsBatch size at locked rows =
    let due = delete_where (λ m. not (is_due at m) || locked m.id) rows in
    let whole : take size (in_order due) ++ drop size (in_order due) ≡ in_order due =
      take-drop size (in_order due) in
    record {
      left = drop size (in_order due);
      of_rows = rw (whole, ← (kept-takeable_rows at locked rows)) (in_order-Perm due);
      ordered = rw whole (in_order-IsOrdered due);
      bounded = omega (arith, length-take size (in_order due));
      full = take-full size (in_order due);
    }

module _ (w : World) (s : Session) (locked : ℕ → Bool) (owner : String) where
  batch : List OutboxMessage
  batch = due_batch w.settings.outbox_batch_size (w.clock s.ticks) locked s.committed.outbox

  claim_outcome :
      let (r, s') = claim_messages w locked owner s in
      ((r ≡ ok (map snapshot batch))
        × (s'.committed.outbox ≡ claim_rows w owner (w.clock s.ticks) batch s.committed.outbox))
      ⊎ ((r ≡ err database) × (s'.committed ≡ s.committed))
  unfolding claim_messages request batch
  claim_outcome = ground (
    arith,
    claim_each_lem w owner (w.clock s.ticks)
        (due_batch w.settings.outbox_batch_size (w.clock s.ticks) locked s.committed.outbox)
        (record s { view = s.committed; ticks = suc s.ticks }),
  )

  -- A claim returns the snapshots of the first due rows of the table that nobody has locked, in
  -- order of availability and creation, as many as there are or as a batch allows; the rows with
  -- these ids are leased to the worker for the lease's time, with one more attempt, and all other
  -- rows are as they were. Or the database refuses, and nothing changes.
  pub claim_messages-IsBatch :
      let (r, s') = claim_messages w locked owner s in
      ((ms : List OutboxMessage) × IsBatch w.settings.outbox_batch_size
          (w.clock s.ticks)
          locked
          s.committed.outbox
          ms
        × (r ≡ ok (map snapshot ms))
        × (s'.committed.outbox ≡ map (claimed_row w owner (w.clock s.ticks) ms) s.committed.outbox))
      ⊎ ((r ≡ err database) × (s'.committed ≡ s.committed))
  unfolding batch
  claim_messages-IsBatch = elim claim_outcome [
    | inl done ↦ inl (
      batch,
      due_batch-IsBatch w.settings.outbox_batch_size (w.clock s.ticks) locked s.committed.outbox,
      done.0,
      done.1 ∙ claim_rows-claimed_row w owner (w.clock s.ticks) batch s.committed.outbox,
    )
    | inr failed ↦ inr failed
  ]
