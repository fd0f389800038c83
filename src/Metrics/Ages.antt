-- ===== src/Metrics/Ages.antt =====
-- The age of the oldest message on its way (app/sms_relay/metrics.py).
use sms_relay.Common.{
  ℕ, ◌-◌, ◌≤◌, max, ◌≡◌, refl, sym, ◌⊎◌, inl, inr, true, false, List, [], ◌∷◌, arith, ◌==◌, ==_iff,
  Bool-cases, select, All, Any, Any-unselect, All-unselect,
}
use sms_relay.Metrics.{is_on_its_way, max_age, oldest_pending}
use sms_relay.Models.{Message}
use sms_relay.Models.Db.{Db}

max_age-bounds :
    (now bound : ℕ) (rows : List Message)
    → max_age now rows ≤ bound
    → All (λ m. now - m.created_at ≤ bound) rows
unfolding max_age
max_age-bounds now bound [] h = tt
max_age-bounds now bound (m ∷ rows) h = (omega arith, max_age-bounds now bound rows (omega arith))

other_end : (a b c : ℕ) → max a b ≡ c → (a == c) ≡ false → b ≡ c
other_end a b c h k = ground arith

max_age-attained :
    (now age : ℕ) (rows : List Message)
    → max_age now rows ≡ age
    → (age ≡ 0) ⊎ Any (λ m. now - m.created_at ≡ age) rows
unfolding max_age
max_age-attained now age [] h = inl (sym h)
max_age-attained now age (m ∷ rows) h = elim (Bool-cases (now - m.created_at == age)) [
  | inl hit ↦ inr (inl ((==_iff (now - m.created_at) age).0 hit))
  | inr miss ↦ elim (max_age-attained now age rows (other_end _ _ _ h miss)) [
    | inl zero_age ↦ inl zero_age
    | inr there ↦ inr (inr there)
  ]
]

-- No outbound message that is queued or being sent is older than the age that the metrics tell, and one
-- is as old, or the age is 0.
pub oldest_pending_reached :
    (now : ℕ) (db : Db)
    → All (λ m. is_on_its_way m ≡ true → now - m.created_at ≤ oldest_pending now db) db.messages
      × ((oldest_pending now db ≡ 0)
          ⊎ Any
              (λ m. (now - m.created_at ≡ oldest_pending now db) × (is_on_its_way m ≡ true))
              db.messages)
unfolding oldest_pending
oldest_pending_reached now db =
    let waiting = select is_on_its_way db.messages in
    (
      All-unselect (λ m. now - m.created_at ≤ max_age now waiting) is_on_its_way db.messages
          (max_age-bounds now (max_age now waiting) waiting (omega arith)),
      elim (max_age-attained now (max_age now waiting) waiting refl) [
        | inl none_waits ↦ inl none_waits
        | inr there ↦ inr (
            Any-unselect (λ m. now - m.created_at ≡ max_age now waiting) is_on_its_way db.messages
              there)
      ],
    )
