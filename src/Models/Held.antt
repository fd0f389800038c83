-- ===== src/Models/Held.antt =====
-- A row that a loop holds by its id, between its reads and its writes (app/sms_relay/models.py).
use sms_relay.Common.{
  ◌≡◌, sym, ap, subst, inl, inr, true, false, List, [], ◌∷◌, arith, Bool-cases, update, All, Any,
  Text, str_eq, str_eq_comm,
}
use sms_relay.Models.{Message}
use sms_relay.Models.Db.{message_clash}
use sms_relay.Models.Db.Constraints.{IsDistinct}
use sms_relay.Models.Lifecycle.{Evolves, Evolve, Evolve-update}

-- The row with an id, if there is one, is `m`.
abbrev pub Holds : Text → Message → List Message → Type 0
Holds id m rows = All (λ (n : Message). str_eq n.id id ≡ true → n ≡ m) rows

Holds-of_later :
    (m : Message) (rows : List Message)
    → All (λ n. message_clash n m ≡ false) rows
    → Holds m.id m rows
Holds-of_later m [] h = tt
Holds-of_later m (n ∷ rows) h = (λ e. absurd (ground (arith, h.0, e)), Holds-of_later m rows h.1)

not_same_id :
    (m n : Message) (rows : List Message)
    → All (λ k. message_clash k n ≡ false) rows
    → Any (λ k. k ≡ m) rows
    → str_eq n.id m.id ≡ true
    → ⊥
not_same_id m n [] h a e = elim a [ ]
not_same_id m n (k ∷ rows) h (inl p) e =
    absurd (ground (arith, h.0, e, str_eq_comm n.id k.id, ap (λ (r : Message). r.id) p))
not_same_id m n (k ∷ rows) h (inr a) e = not_same_id m n rows h.1 a e

-- In a table of distinct rows, a stored row is the only one with its id.
pub Holds-of_Any :
    (m : Message) (rows : List Message)
    → IsDistinct message_clash rows
    → Any (λ n. n ≡ m) rows
    → Holds m.id m rows
Holds-of_Any m [] d a = tt
Holds-of_Any m (n ∷ rows) d (inl p) =
    (λ _. p, subst (λ k. Holds k.id k rows) p (Holds-of_later n rows d.0))
Holds-of_Any m (n ∷ rows) d (inr a) =
    (λ e. absurd (not_same_id m n rows d.0 a e), Holds-of_Any m rows d.1 a)

module _ (id : Text) (m : Message) (f : Message → Message) where
  -- After an update of the row that is held, the changed row is held.
  pub Holds-update :
      (rows : List Message) → Holds id m rows → Holds id (f m) (update (λ n. str_eq n.id id) f rows)
  Holds-update [] h = tt
  Holds-update (n ∷ rows) h = elim (Bool-cases (str_eq n.id id)) [
    | inl hit ↦ rw hit (λ _. ap f (h.0 hit), Holds-update rows h.1)
    | inr miss ↦ rw miss (λ e. absurd (cc (miss, e)), Holds-update rows h.1)
  ]

  held_lawful :
      Evolves m (f m)
      → (rows : List Message) → Holds id m rows
      → All (λ (n : Message). str_eq n.id id ≡ true → Evolves n (f n)) rows
  held_lawful lawful [] k = tt
  held_lawful lawful (n ∷ ns) k =
      (λ e. subst (λ r. Evolves r (f r)) (sym (k.0 e)) lawful, held_lawful lawful ns k.1)

  -- An update of the held row is lawful if it is so for the row held.
  pub Evolve-held :
      (rows : List Message)
      → Evolves m (f m)
      → Holds id m rows
      → Evolve rows (update (λ n. str_eq n.id id) f rows)
  Evolve-held rows lawful h = Evolve-update (λ n. str_eq n.id id) f rows (held_lawful lawful rows h)
