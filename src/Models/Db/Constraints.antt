-- ===== src/Models/Db/Constraints.antt =====
-- What the constraints of the two tables keep (app/sms_relay/models.py): no two rows clash.
use sms_relay.Common.{
  ◌≡◌, sym, ◌∙◌, subst, inl, inr, Bool, true, false, some, List, [], ◌∷◌, ◌++◌, arith, Bool-cases,
  any, select, update, All, All-append, All-update, All-select, Text, str_eq,
}
use sms_relay.Models.{Message, WebhookDelivery}
use mathlib.Core.List.{append-nil, append_assoc}
use mathlib.Core.Option.{some-injective}
use sms_relay.Models.Db.{Db, message_clash, delivery_clash, insert_all}

module _ {ℓ} {A : Type ℓ} (clash : A → A → Bool) where
  -- No row clashes with an earlier one.
  abbrev pub IsDistinct : List A → Type ℓ
  IsDistinct [] = Unit
  IsDistinct (m ∷ ms) = All (λ n. clash n m ≡ false) ms × IsDistinct ms

  IsDistinct-concat :
      (rows : List A) (m : A)
      → IsDistinct rows
      → any (clash m) rows ≡ false
      → IsDistinct (rows ++ m ∷ [])
  IsDistinct-concat [] m h k = (tt, tt)
  IsDistinct-concat (r ∷ rows) m h k = (
    All-append (λ n. clash n r ≡ false) rows (m ∷ []) h.0 (ground arith, tt),
    IsDistinct-concat rows m h.1 (ground arith),
  )

  pub insert_all-IsDistinct :
      (ms rows : List A) {rows' : List A}
      → insert_all clash ms rows ≡ some rows'
      → IsDistinct rows
      → IsDistinct rows'
  unfolding insert_all
  insert_all-IsDistinct [] rows {rows'} h d = subst IsDistinct (some-injective _ _ h) d
  insert_all-IsDistinct (m ∷ ms) rows {rows'} h d = elim (Bool-cases (any (clash m) rows)) [
    | inl hit ↦ absurd (cc (rw hit at h))
    | inr free ↦
        insert_all-IsDistinct ms (rows ++ m ∷ []) (rw free at h) (IsDistinct-concat rows m d free)
  ]

  -- The rows that are stored are the old ones and then the new ones.
  pub insert_all-append :
      (ms rows : List A) {rows' : List A}
      → insert_all clash ms rows ≡ some rows'
      → rows' ≡ rows ++ ms
  unfolding insert_all
  insert_all-append [] rows h = sym (some-injective _ _ h) ∙ sym (append-nil rows)
  insert_all-append (m ∷ ms) rows h = elim (Bool-cases (any (clash m) rows)) [
    | inl hit ↦ absurd (cc (rw hit at h))
    | inr free ↦
        insert_all-append ms (rows ++ m ∷ []) (rw free at h) ∙ append_assoc rows (m ∷ []) ms
  ]

  All-clash-update :
      (p : A → Bool) (f : A → A)
      → ((a b : A) → clash (f a) b ≡ clash a b)
      → (m : A) (ms : List A) → All (λ n. clash n m ≡ false) ms
      → All (λ n. clash n m ≡ false) (update p f ms)
  All-clash-update p f left m ms h =
      All-update (λ n. clash n m ≡ false) p f (λ n _ k. left n m ∙ k) ms h

  All-clash_fixed :
      (m m' : A)
      → ((n : A) → clash n m' ≡ clash n m)
      → (ms : List A) → All (λ n. clash n m ≡ false) ms
      → All (λ n. clash n m' ≡ false) ms
  All-clash_fixed m m' same [] h = tt
  All-clash_fixed m m' same (n ∷ ms) h = (same n ∙ h.0, All-clash_fixed m m' same ms h.1)

  -- An update that leaves the constrained columns alone.
  pub update-IsDistinct :
      (p : A → Bool) (f : A → A)
      → ((a b : A) → clash (f a) b ≡ clash a b)
      → ((a b : A) → clash a (f b) ≡ clash a b)
      → (rows : List A) → IsDistinct rows
      → IsDistinct (update p f rows)
  update-IsDistinct p f left right [] h = tt
  update-IsDistinct p f left right (m ∷ ms) h = elim (Bool-cases (p m)) [
    | inl hit ↦ rw hit (
      All-clash_fixed m (f m) (λ n. right n m) (update p f ms) (All-clash-update p f left m ms h.0),
      update-IsDistinct p f left right ms h.1,
    )
    | inr miss ↦
        rw miss (All-clash-update p f left m ms h.0, update-IsDistinct p f left right ms h.1)
  ]

  pub select-IsDistinct :
      (p : A → Bool) (rows : List A) → IsDistinct rows → IsDistinct (select p rows)
  select-IsDistinct p [] h = tt
  select-IsDistinct p (m ∷ ms) h =
      ground (arith, select-IsDistinct p ms h.1, All-select (λ n. clash n m ≡ false) p ms h.0)

-- The constraints of both tables.
pub record IsValid (db : Db) : Type 0 where
  pub messages_distinct : IsDistinct message_clash db.messages
  pub deliveries_distinct : IsDistinct delivery_clash db.deliveries

-- A message with an id is stored.
abbrev pub is_stored : List Message → Text → Bool
is_stored rows id = any (λ (m : Message). str_eq m.id id) rows

-- The foreign key of `webhook_deliveries`.
abbrev pub IsReferential : Db → Type 0
IsReferential db =
    All (λ (d : WebhookDelivery). is_stored db.messages d.message_id ≡ true) db.deliveries

-- The constraints of both tables hold, and so does the foreign key.
pub record IsSound (db : Db) : Type 0 where
  pub valid : IsValid db
  pub referential : IsReferential db
