-- ===== src/Models/Db/Growth.antt =====
-- Databases that lose no message (app/sms_relay/models.py): the rows keep their keys and their places,
-- and new ones stand behind them.
use sms_relay.Common.{
  ◌≡◌, refl, sym, ap, ◌∙◌, subst, inl, inr, Bool, true, false, List, [], ◌∷◌, ◌++◌, arith,
  Bool-cases, select, All, select-append, Pointwise, Pointwise-refl, Pointwise-trans,
}
use mathlib.Core.List.{append-nil, append_assoc}
use sms_relay.Models.{Message}
use sms_relay.Models.Db.{Db, message_clash}
use sms_relay.Models.Db.Constraints.{IsDistinct}
use sms_relay.Models.Lifecycle.{IsSameMessage, IsSameMessage-refl, IsSameMessage-trans}
use sms_relay.Models.Db.Keys.{Keyed}

abbrev pub Grows : Db → Db → Type 0
Grows db db' =
    (rows : List Message) × (rest : List Message) × Pointwise IsSameMessage db.messages rows
    × (db'.messages ≡ rows ++ rest)

pub Grows-of_Keyed : (db db' : Db) → Keyed db db' → Grows db db'
Grows-of_Keyed db db' k = (db'.messages, [], k.0, sym (append-nil db'.messages))

pub Grows-of_append :
    (db db' : Db) (rest : List Message) → db'.messages ≡ db.messages ++ rest → Grows db db'
Grows-of_append db db' rest e =
    (db.messages, rest, Pointwise-refl IsSameMessage IsSameMessage-refl db.messages, e)

-- What becomes of a list in two parts.
Pointwise-split :
    (xs rest zs : List Message)
    → Pointwise IsSameMessage (xs ++ rest) zs
    → (ys : List Message) × (more : List Message) × Pointwise IsSameMessage xs ys
      × (zs ≡ ys ++ more)
Pointwise-split [] rest zs h = ([], zs, tt, refl)
Pointwise-split (x ∷ xs) rest [] h = elim h [ ]
Pointwise-split (x ∷ xs) rest (z ∷ zs) h =
    let (ys, more, k, e) = Pointwise-split xs rest zs h.1 in (z ∷ ys, more, (h.0, k), ap (◌∷◌ z) e)

pub Grows-trans : (a b c : Db) → Grows a b → Grows b c → Grows a c
Grows-trans a b c (rows, rest, g, e) (rows', rest', h, f) =
    let (ys, more, k, split) =
      Pointwise-split rows rest rows' (subst (λ l. Pointwise IsSameMessage l rows') e h) in
    (
      ys,
      more ++ rest',
      Pointwise-trans IsSameMessage IsSameMessage-trans a.messages rows ys g k,
      f ∙ ap (λ l. l ++ rest') split ∙ append_assoc ys more rest',
    )

drop_All : (P : Message → Type 0) (xs ys : List Message) → All P (xs ++ ys) → All P ys
drop_All P [] ys h = h
drop_All P (x ∷ xs) ys h = drop_All P xs ys h.1

-- A row that a clause on the keys has selected alone.
module _ (p : Message → Bool) (by_keys : (m n : Message) → IsSameMessage m n → p m ≡ p n)
    (once : (m n : Message) → p m ≡ true → p n ≡ true → message_clash m n ≡ true) where
  Pointwise-select :
      (xs ys : List Message)
      → Pointwise IsSameMessage xs ys
      → Pointwise IsSameMessage (select p xs) (select p ys)
  Pointwise-select [] [] h = tt
  Pointwise-select [] (y ∷ ys) h = elim h [ ]
  Pointwise-select (x ∷ xs) [] h = elim h [ ]
  Pointwise-select (x ∷ xs) (y ∷ ys) h = elim (Bool-cases (p x)) [
    | inl hit ↦ rw (hit, sym (by_keys x y h.0) ∙ hit) (h.0, Pointwise-select xs ys h.1)
    | inr miss ↦ rw (miss, sym (by_keys x y h.0) ∙ miss) (Pointwise-select xs ys h.1)
  ]

  alone :
      (n : Message) (ys : List Message)
      → Pointwise IsSameMessage (n ∷ []) ys
      → (n' : Message) × IsSameMessage n n' × (ys ≡ n' ∷ [])
  alone n [] h = elim h [ ]
  alone n (y ∷ []) h = (y, h.0, refl)
  alone n (y ∷ k ∷ ys) h = elim h.1 [ ]

  none_apart :
      (n : Message) (rest : List Message)
      → p n ≡ true
      → All (λ k. message_clash k n ≡ false) rest
      → select p rest ≡ []
  none_apart n [] hit h = refl
  none_apart n (k ∷ rest) hit h = ground (arith, none_apart n rest hit h.1, once k n, h.0, hit)

  none_behind :
      (n : Message) (ys rest : List Message)
      → IsDistinct message_clash (ys ++ rest)
      → select p ys ≡ n ∷ []
      → select p rest ≡ []
  none_behind n [] rest d e = absurd (cc e)
  none_behind n (y ∷ ys) rest d e = elim (Bool-cases (p y)) [
    | inl hit ↦ none_apart y rest hit (drop_All (λ k. message_clash k y ≡ false) ys rest d.0)
    | inr miss ↦ none_behind n ys rest d.1 (rw miss at e)
  ]

  -- It is selected alone ever after.
  pub Grows-alone :
      (db db' : Db) (n : Message)
      → Grows db db'
      → IsDistinct message_clash db'.messages
      → select p db.messages ≡ n ∷ []
      → (n' : Message) × IsSameMessage n n' × (select p db'.messages ≡ n' ∷ [])
  Grows-alone db db' n (rows, rest, g, e) d single =
      let (n', same, there) = alone n (select p rows) (
        subst (λ l. Pointwise IsSameMessage l (select p rows)) single
          (Pointwise-select db.messages rows g)) in
      let gone = none_behind n' rows rest (subst (IsDistinct message_clash) e d) there in
      (n', same, ap (select p) e ∙ select-append p rows rest ∙ rw (there, gone) refl)
