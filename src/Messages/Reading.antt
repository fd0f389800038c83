-- ===== src/Messages/Reading.antt =====
-- What the query routes show (app/sms_relay/routes/messages.py).
use sms_relay.Common.{
  ◌-◌, min, ◌≡◌, refl, ◌∙◌, subst, ◌≢◌, ◌⊎◌, inl, inr, Bool, true, false, ◌&&◌, not, some, List, [],
  ◌∷◌, arith, leb, if◌then◌else◌, Bool-cases, Option-cases, length, take, drop, select, All,
  All-take, All-drop, All-map, length-take, length-drop, length-map, Text, text, str_eq, str_eq_iff,
}
use sms_relay.Common.Result.{Result, ok, raise, http, ok_injective}
use sms_relay.Common.Sort.{
  sort, IsSorted, sort-IsSorted, All-sort, length-sort, IsSorted-map, IsSorted-take, IsSorted-drop,
}
use sms_relay.Models.{outbound, inbound, Message, is_outbound}
use sms_relay.Models.Db.{Db}
use sms_relay.Schemas.{MessageOut, message_out}
use sms_relay.Messages.{get_row, get_message, ListQuery, is_listed, newer, list_messages}

-- A caller may see a message that it sent, and every inbound one.
abbrev pub IsVisible : Text → MessageOut → Type 0
IsVisible service m = (m.service ≡ service) ⊎ (m.direction ≡ inbound)

get_row-id : (id : Text) (rows : List Message) {m : Message} → get_row id rows ≡ some m → m.id ≡ id
unfolding get_row
get_row-id id [] h = cc
get_row-id id (n ∷ rows) {m} h = ground (arith, get_row-id id rows {m = m}, str_eq_iff n.id id)

-- What a found row is answered with.
shown_row : Text → Message → Result MessageOut
shown_row service n =
    if is_outbound n.direction && not (str_eq n.service service)
    then raise (http 404 (text "message not found"))
    else ok (message_out n)

shown_row-IsVisible :
    (service : Text) (n : Message) {m : MessageOut}
    → shown_row service n ≡ ok m
    → (m.id ≡ n.id) × IsVisible service m
unfolding shown_row message_out
shown_row-IsVisible service n {m} h =
    elim (Bool-cases (is_outbound n.direction && not (str_eq n.service service))) [
      | inl hidden ↦ absurd (ground (arith, h, hidden))
      | inr open_to ↦
          let same : message_out n ≡ m = ok_injective _ _ (rw open_to at h) in
          subst (λ (v : MessageOut). (v.id ≡ n.id) × IsVisible service v) same
            (refl, ground (arith, str_eq_iff n.service service))
    ]

-- A message that is shown by its id has that id, and is the caller's own or an inbound one; and a
-- message of another service is answered as one that does not exist.
pub get_message-IsVisible :
    (message_id service : Text) (db : Db)
    → ((m : MessageOut)
        → get_message message_id service db ≡ ok m
        → (m.id ≡ message_id) × IsVisible service m)
      × ((n : Message)
          → get_row message_id db.messages ≡ some n
          → n.direction ≡ outbound
          → n.service ≢ service
          → get_message message_id service db
            ≡ get_message message_id service (record db { messages = [] }))
unfolding get_message shown_row
get_message-IsVisible message_id service db = (
  λ m h. elim (Option-cases (get_row message_id db.messages)) [
    | inl missing ↦ absurd (ground (arith, h, missing))
    | inr (n, found) ↦
        let (same, seen) = shown_row-IsVisible service n {m = m} (ground (arith, h, found)) in
        (same ∙ get_row-id message_id db.messages found, seen)
  ],
  λ n found out other. ground (arith, found, out, str_eq_iff n.service service),
)

module _ (q : ListQuery) (service : Text) where
  is_listed-IsVisible :
      (m : Message) → is_listed q service m ≡ true → IsVisible service (message_out m)
  unfolding is_listed message_out
  is_listed-IsVisible m h = ground (arith, str_eq_iff m.service service)

  All-listed :
      (rows : List Message)
      → All (λ m. IsVisible service (message_out m)) (select (is_listed q service) rows)
  All-listed [] = tt
  All-listed (m ∷ rows) = elim (Bool-cases (is_listed q service m)) [
    | inl listed ↦ rw listed (is_listed-IsVisible m listed, All-listed rows)
    | inr other ↦ rw other (All-listed rows)
  ]

  newer_total : (a b : Message) → newer a b ≡ false → newer b a ≡ true
  newer_total a b h = ground arith

  newer_trans : (a b c : Message) → newer a b ≡ true → newer b c ≡ true → newer a c ≡ true
  newer_trans a b c h k = ground arith

  -- Newest first, on what is shown of a message.
  abbrev pub shown_newer : MessageOut → MessageOut → Bool
  shown_newer a b = leb b.created_at a.created_at

  -- Whatever the filters, each listed message is the caller's own or an inbound one, the page is no
  -- longer than the limit and than what the total leaves behind the offset, and it runs from the
  -- newest to the oldest.
  pub list_messages-IsVisible :
      (db : Db)
      → All (IsVisible service) (list_messages q service db).0
        × (length (list_messages q service db).0
            ≡ min q.limit ((list_messages q service db).1 - q.offset))
        × IsSorted shown_newer (list_messages q service db).0
  unfolding list_messages
  list_messages-IsVisible db =
      let rows = select (is_listed q service) db.messages in
      let sorted = sort newer rows in
      let page = take q.limit (drop q.offset sorted) in
      (
        All-map (IsVisible service) message_out page (
            All-take _ q.limit _
              (All-drop _ q.offset _ (All-sort newer _ rows (All-listed db.messages)))),
        omega (
          arith,
          length-map message_out page,
          length-take q.limit (drop q.offset sorted),
          length-drop q.offset sorted,
          length-sort newer rows,
        ),
        IsSorted-map newer shown_newer message_out (λ a b h. unfold message_out in h) page
            (IsSorted-take newer q.limit _
              (IsSorted-drop newer q.offset _ (sort-IsSorted newer newer_total newer_trans rows))),
      )
