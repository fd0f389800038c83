-- ===== src/Worker/Draining/Ready.antt =====
-- Rows that a round of send_loop may take up, as time goes on (app/sms_relay/worker.py).
use sms_relay.Common.{
  ℕ, ◌≤◌, ◌≡◌, refl, inl, inr, true, ◌||◌, Option, none, some, List, [], ◌∷◌, arith, if◌then◌else◌,
  Bool-cases, length, select, update, All,
}
use sms_relay.Common.Int.{ℤ, pos, negsuc, before_cutoff}
use sms_relay.Config.{Settings}
use sms_relay.Metrics.{is_on_its_way}
use sms_relay.Models.{Message, second}
use sms_relay.Models.Db.{Db, is_due}
use sms_relay.Worker.{is_stuck, requeued, is_claimable}
-- Counts of rows.
use sms_relay.Worker.Draining.Rows.{length-select-update}

due_later : (t t' : ℕ) (o : Option ℕ) → t ≤ t' → is_due o t ≡ true → is_due o t' ≡ true
due_later t t' none h k = refl
due_later t t' (some s) h k = ground arith

cutoff_later :
    (unit : ℕ) (z : ℤ) (u t t' : ℕ)
    → t ≤ t'
    → before_cutoff unit z u t ≡ true
    → before_cutoff unit z u t' ≡ true
cutoff_later unit (pos n) u t t' h k = ground arith
cutoff_later unit (negsuc n) u t t' h k = ground arith

-- Every row that is still to be sent is due, or long enough in sending.
abbrev pub IsReady : Settings → ℕ → Db → Type 0
IsReady settings t db =
    All (λ m. is_on_its_way m ≡ true → (is_claimable t m || is_stuck settings t m) ≡ true)
      db.messages

abbrev pub AreClaimable : ℕ → List Message → Type 0
AreClaimable t rows = All (λ m. is_on_its_way m ≡ true → is_claimable t m ≡ true) rows

abbrev pub pending : List Message → ℕ
pending rows = length (select is_on_its_way rows)

module _ (settings : Settings) (t : ℕ) where
  requeued_due :
      (m : Message) → is_on_its_way (requeued t m) ≡ true → is_claimable t (requeued t m) ≡ true
  unfolding is_on_its_way
  requeued_due m h = ground (arith, h)

  requeued_claimable :
      (m : Message)
      → (is_on_its_way m ≡ true → (is_claimable t m || is_stuck settings t m) ≡ true)
      → is_on_its_way (if is_stuck settings t m then requeued t m else m) ≡ true
      → is_claimable t (if is_stuck settings t m then requeued t m else m) ≡ true
  requeued_claimable m h k = elim (Bool-cases (is_stuck settings t m)) [
    | inl stuck ↦ rw stuck (requeued_due m (rw stuck at k))
    | inr still ↦ rw still (let w = h (rw still at k) in ground (arith, w, still))
  ]

  pub requeued-AreClaimable :
      (rows : List Message)
      → All (λ m. is_on_its_way m ≡ true → (is_claimable t m || is_stuck settings t m) ≡ true) rows
      → AreClaimable t (update (is_stuck settings t) (requeued t) rows)
  requeued-AreClaimable [] h = tt
  requeued-AreClaimable (m ∷ rows) h = (requeued_claimable m h.0, requeued-AreClaimable rows h.1)

  pub pending-requeued :
      (rows : List Message)
      → pending (update (is_stuck settings t) (requeued t) rows) ≡ pending rows
  unfolding is_stuck is_on_its_way
  pending-requeued =
      length-select-update (is_stuck settings t) is_on_its_way (requeued t) (λ m h. same m h)
    where
      same :
          (m : Message)
          → is_stuck settings t m ≡ true
          → is_on_its_way (requeued t m) ≡ is_on_its_way m
      same m h = ground (arith, h)

pub AreClaimable-later :
    (settings : Settings) (t t' : ℕ) (rows : List Message)
    → t ≤ t'
    → AreClaimable t rows
    → All (λ m. is_on_its_way m ≡ true → (is_claimable t' m || is_stuck settings t' m) ≡ true) rows
AreClaimable-later settings t t' [] h k = tt
AreClaimable-later settings t t' (m ∷ rows) h k = (
  (λ w. ground (arith, k.0 w, due_later t t' m.next_attempt_at h)),
  AreClaimable-later settings t t' rows h k.1,
)

pub IsReady-later :
    (settings : Settings) (t t' : ℕ) (rows : List Message)
    → t ≤ t'
    → All (λ m. is_on_its_way m ≡ true → (is_claimable t m || is_stuck settings t m) ≡ true) rows
    → All (λ m. is_on_its_way m ≡ true → (is_claimable t' m || is_stuck settings t' m) ≡ true) rows
unfolding is_stuck
IsReady-later settings t t' [] h k = tt
IsReady-later settings t t' (m ∷ rows) h k = (
  (λ w. ground (
    arith,
    k.0 w,
    due_later t t' m.next_attempt_at h,
    cutoff_later second settings.stuck_after_seconds m.updated_at t t' h,
  )),
  IsReady-later settings t t' rows h k.1,
)
