-- ===== src/Worker/Claiming.antt =====
-- Which message the send loop takes (app/sms_relay/worker.py, _requeue_stuck and _claim_next).
use sms_relay.Common.{
  ℕ, ◌≤◌, ◌≡◌, refl, ap, subst, inl, inr, true, false, Option, none, some, List, [], ◌∷◌, arith,
  length, select, head?, All, Any, Any-map, Any-unselect, All-unselect,
}
use sms_relay.Common.Sort.{sort, IsSorted, length-sort, sort-IsSorted, All-unsort, Any-unsort}
use sms_relay.Models.{Message}
use sms_relay.Models.Db.{Db, update_message}
use sms_relay.Worker.{is_claimable, older, claimed, claim_next}

older_total : (a b : Message) → older a b ≡ false → older b a ≡ true
older_total a b h = ground arith

older_trans : (a b c : Message) → older a b ≡ true → older b c ≡ true → older a c ≡ true
older_trans a b c h k = ground arith

-- A stored row that is due, and is as old as any due row.
pub record IsNext (now : ℕ) (db : Db) (row : Message) : Type 0 where
  pub stored : Any (λ m. m ≡ row) db.messages
  pub due : is_claimable now row ≡ true
  pub oldest : All (λ m. is_claimable now m ≡ true → row.created_at ≤ m.created_at) db.messages

-- What a claim makes of the database: the next row is marked, by its id.
abbrev pub IsClaim : ℕ → Db → Option (Message × Db) → Type 0
IsClaim now db none = All (λ m. is_claimable now m ≡ false) db.messages
IsClaim now db (some (m, db')) =
    (row : Message) × IsNext now db row
    × (m ≡ claimed now row)
    × (db' ≡ update_message row.id (claimed now) db)

none_due :
    (now : ℕ) (rows : List Message)
    → select (is_claimable now) rows ≡ []
    → All (λ m. is_claimable now m ≡ false) rows
none_due now [] h = tt
none_due now (m ∷ rows) h = ground (arith, none_due now rows)

is_nil_of_sort : (rows : List Message) → sort older rows ≡ [] → rows ≡ []
is_nil_of_sort [] h = refl
is_nil_of_sort (m ∷ rows) h = absurd (omega (arith, length-sort older (m ∷ rows), ap length h))

All-older :
    (m : Message) (rows : List Message)
    → All (λ n. older m n ≡ true) rows
    → All (λ n. m.created_at ≤ n.created_at) rows
All-older m [] h = tt
All-older m (n ∷ rows) h = (ground arith, All-older m rows h.1)

due_of_Any :
    (now : ℕ) (m : Message) (rows : List Message)
    → Any (λ n. (n ≡ m) × (is_claimable now n ≡ true)) rows
    → is_claimable now m ≡ true
due_of_Any now m [] h = elim h [ ]
due_of_Any now m (n ∷ rows) (inl p) = subst (λ k. is_claimable now k ≡ true) p.0 p.1
due_of_Any now m (n ∷ rows) (inr h) = due_of_Any now m rows h

module _ (now : ℕ) (db : Db) where
  abbrev due_rows : List Message
  due_rows = select (is_claimable now) db.messages

  head-IsNext :
      (m : Message) (rest : List Message) → sort older due_rows ≡ m ∷ rest → IsNext now db m
  head-IsNext m rest e =
      let ordered =
        subst (IsSorted older) e (sort-IsSorted older older_total older_trans due_rows) in
      let found : Any (λ n. (n ≡ m) × (is_claimable now n ≡ true)) db.messages =
        Any-unselect (λ n. n ≡ m) (is_claimable now) db.messages
          (Any-unsort older (λ n. n ≡ m) due_rows (rw e (inl refl))) in
      record {
        stored =
            Any-map (λ n. (n ≡ m) × (is_claimable now n ≡ true)) (λ n p. p.0) db.messages found;
        due = due_of_Any now m db.messages found;
        oldest =
            All-unselect (λ n. m.created_at ≤ n.created_at) (is_claimable now) db.messages
              (All-unsort older (λ n. m.created_at ≤ n.created_at) due_rows
                (rw e (omega arith, All-older m rest ordered.0)));
      }

  IsClaim-of :
      (l : List Message)
      → sort older due_rows ≡ l
      → IsClaim now db (elim (head? l) [
        | none ↦ none
        | some m ↦ some (claimed now m, update_message m.id (claimed now) db)
      ])
  IsClaim-of [] e = none_due now db.messages (is_nil_of_sort due_rows e)
  IsClaim-of (m ∷ rest) e = (m, head-IsNext m rest e, refl, refl)

-- A claim takes the oldest due message and marks it alone, and takes none only when none is due.
pub claim_next-IsClaim : (now : ℕ) (db : Db) → IsClaim now db (claim_next now db)
unfolding claim_next
claim_next-IsClaim now db = IsClaim-of now db (sort older (due_rows now db)) refl
