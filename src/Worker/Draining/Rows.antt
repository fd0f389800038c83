-- ===== src/Worker/Draining/Rows.antt =====
-- Counts and updates of rows, for the rounds of send_loop (app/sms_relay/worker.py).
use sms_relay.Common.{
  ◌≤◌, ◌<◌, ◌≡◌, refl, inl, inr, Bool, true, false, List, [], ◌∷◌, arith, length, select, update,
  Any,
}
use sms_relay.Models.{Message}

-- Counts of rows.
-- Counts of rows.
module _ (p q : Message → Bool) where
  pub length-select-update :
      (f : Message → Message)
      → ((m : Message) → p m ≡ true → q (f m) ≡ q m)
      → (rows : List Message) → length (select q (update p f rows)) ≡ length (select q rows)
  length-select-update f same [] = refl
  length-select-update f same (m ∷ rows) = ground (arith, length-select-update f same rows, same m)

  module _ (g : Message → Message) (gone : (m : Message) → q (g m) ≡ false) where
    select-update_fewer :
        (rows : List Message) → length (select q (update p g rows)) ≤ length (select q rows)
    select-update_fewer [] = omega arith
    select-update_fewer (m ∷ rows) = ground (arith, select-update_fewer rows, gone m)

    pub select-update_less :
        (rows : List Message)
        → Any (λ m. (q m ≡ true) × (p m ≡ true)) rows
        → length (select q (update p g rows)) < length (select q rows)
    select-update_less [] h = elim h [ ]
    select-update_less (m ∷ rows) (inl (a, b)) =
        ground (arith, select-update_fewer rows, gone m, a, b)
    select-update_less (m ∷ rows) (inr h) = ground (arith, select-update_less rows h, gone m)

pub update-update :
    (p : Message → Bool) (f g : Message → Message)
    → ((m : Message) → p (f m) ≡ p m)
    → (rows : List Message) → update p g (update p f rows) ≡ update p (λ m. g (f m)) rows
update-update p f g same [] = refl
update-update p f g same (m ∷ rows) = ground (arith, update-update p f g same rows, same m)
