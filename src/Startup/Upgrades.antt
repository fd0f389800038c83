-- ===== src/Startup/Upgrades.antt =====
-- What starting on the table of an older version comes to (app/sms_relay/db.py, init_db).
use sms_relay.Common.{
  ◌≡◌, refl, sym, ap, ◌∙◌, inl, inr, true, false, ◌||◌, Option, none, some, List, [], ◌∷◌, ◌++◌,
  map, arith, Bool-cases, All, All-append, Pointwise, Pointwise-refl, Pointwise-trans, Text, text,
  str_eq, str_eq_refl, str_eq_iff, lower,
}
use mathlib.Core.List.{append-nil, append_assoc}
use sms_relay.Common.Result.{ok}
use sms_relay.Startup.{Table, has_column, add_column, ensure_column, table_of, init_db}

abbrev IsLower : List Text → Type 0
IsLower columns = All (λ c. lower c ≡ c) columns

has_column-lower :
    (name : Text) (columns : List Text)
    → IsLower columns
    → has_column name (map lower columns) ≡ has_column name columns
unfolding has_column
has_column-lower name [] h = refl
has_column-lower name (c ∷ columns) h = rw (h.0, has_column-lower name columns h.1) refl

has_column-append :
    (a name : Text) (columns : List Text)
    → has_column a (columns ++ name ∷ []) ≡ (has_column a columns || str_eq a name)
unfolding has_column
has_column-append a name [] = ground arith
has_column-append a name (c ∷ columns) = ground (arith, has_column-append a name columns)

has_named :
    (other name : Text) (columns : List Text)
    → has_column name columns ≡ true
    → has_column other columns ≡ (has_column other columns || str_eq other name)
unfolding has_column
has_named other name columns there = elim (Bool-cases (str_eq other name)) [
  | inl hit ↦ rw ((str_eq_iff other name).0 hit, there) refl
  | inr miss ↦ ground (arith, miss)
]

-- The columns and the cells of a table, in their places, and others behind them.
abbrev pub Extends : Table → Table → Type 0
Extends t u =
    ((more : List Text) × (u.columns ≡ t.columns ++ more))
    × Pointwise (λ r s. (more : List (Text × Option Text)) × (s ≡ r ++ more)) t.rows u.rows

Extends-refl : (t : Table) → Extends t t
Extends-refl t =
    (([], sym (append-nil t.columns)), Pointwise-refl _ (λ r. ([], sym (append-nil r))) t.rows)

Extends-trans : (t u v : Table) → Extends t u → Extends u v → Extends t v
Extends-trans t u v ((more, e), g) ((rest, f), h) = (
  (more ++ rest, f ∙ ap (λ l. l ++ rest) e ∙ append_assoc t.columns more rest),
  Pointwise-trans _
      (λ p q r k l. (k.0 ++ l.0, l.1 ∙ ap (λ z. z ++ l.0) k.1 ∙ append_assoc p k.0 l.0)) t.rows
      u.rows v.rows g h,
)

-- What a step of `init_db` for a column makes of a table.
record IsEnsured (name : Text) (t u : Table) : Type 0 where
  extends : Extends t u
  lowered : IsLower u.columns
  has :
      (other : Text)
      → has_column other u.columns ≡ (has_column other t.columns || str_eq other name)

Pointwise-cells :
    (cell : Text × Option Text) (rows : List (List (Text × Option Text)))
    → Pointwise
        (λ r s. (more : List (Text × Option Text)) × (s ≡ r ++ more))
        rows
        (map (λ cells. cells ++ cell ∷ []) rows)
Pointwise-cells cell [] = tt
Pointwise-cells cell (r ∷ rows) = ((cell ∷ [], refl), Pointwise-cells cell rows)

ensure_column-IsEnsured :
    (columns : List Text) (name : Text) (default : Option Text) (t : Table)
    → lower name ≡ name
    → IsLower t.columns
    → has_column name columns ≡ has_column name t.columns
    → (u : Table) × (ensure_column columns name default t ≡ ok u) × IsEnsured name t u
unfolding ensure_column add_column
ensure_column-IsEnsured columns name default t e h same =
    elim (Bool-cases (has_column name t.columns)) [
      | inl there ↦ (
        t,
        rw (same, there, ensure_column) refl,
        record {
          extends = Extends-refl t;
          lowered = h;
          has = λ other. has_named other name t.columns there;
        },
      )
      | inr missing ↦ (
        record {
          columns = t.columns ++ name ∷ [];
          rows = map (λ cells. cells ++ (name, default) ∷ []) t.rows;
        },
        rw
            (
              same,
              missing,
              ensure_column,
              ap (λ n. has_column n (map lower t.columns)) e
                  ∙ has_column-lower name t.columns h
                  ∙ missing,
            )
            refl,
        record {
          extends = ((name ∷ [], refl), Pointwise-cells (name, default) t.rows);
          lowered = All-append (λ c. lower c ≡ c) t.columns (name ∷ []) h (e, tt);
          has = λ other. has_column-append other name t.columns;
        },
      )
    ]

-- The columns of the model that older tables lack.
abbrev transport : Text
transport = text "transport"

abbrev topic : Text
topic = text "notification_topic"

abbrev priority : Text
priority = text "notification_priority"

lower_names : (lower transport ≡ transport) × (lower topic ≡ topic) × (lower priority ≡ priority)
unfolding lower text
lower_names = (refl, refl, refl)

names_apart :
    (str_eq topic transport ≡ false)
    × (str_eq priority transport ≡ false)
    × (str_eq priority topic ≡ false)
    × (str_eq transport topic ≡ false)
    × (str_eq transport priority ≡ false)
    × (str_eq topic priority ≡ false)
unfolding str_eq text
names_apart = (refl, refl, refl, refl, refl, refl)

has_other :
    (other name : Text) {t u : Table}
    → IsEnsured name t u
    → str_eq other name ≡ false
    → has_column other u.columns ≡ has_column other t.columns
has_other other name s apart = s.has other ∙ ground (arith, apart)

has_itself : (name : Text) {t u : Table} → IsEnsured name t u → has_column name u.columns ≡ true
has_itself name {t} s = s.has name ∙ ground (arith, str_eq_refl name)

-- The three steps, each of which reads the columns of the first table.
upgrade :
    (t : Table)
    → IsLower t.columns
    → (t1 t2 t3 : Table) × (ensure_column t.columns transport (some (text "sms")) t ≡ ok t1)
      × (ensure_column t.columns topic none t1 ≡ ok t2)
      × (ensure_column t.columns priority (some (text "3")) t2 ≡ ok t3)
      × IsEnsured transport t t1
      × IsEnsured topic t1 t2
      × IsEnsured priority t2 t3
upgrade t h =
    let (low, low', low'') = lower_names in
    let (a, b, c, _, _, _) = names_apart in
    let (t1, e1, s1) =
      ensure_column-IsEnsured t.columns transport (some (text "sms")) t low h refl in
    let (t2, e2, s2) =
      ensure_column-IsEnsured t.columns topic none t1 low' s1.lowered
        (sym (has_other topic transport s1 a)) in
    let (t3, e3, s3) =
      ensure_column-IsEnsured t.columns priority (some (text "3")) t2 low'' s2.lowered
        (sym (has_other priority topic s2 c ∙ has_other priority transport s1 b)) in
    (t1, t2, t3, e1, e2, e3, s1, s2, s3)

upgraded_again :
    (created u : Table)
    → has_column transport u.columns ≡ true
    → has_column topic u.columns ≡ true
    → has_column priority u.columns ≡ true
    → init_db created (some u) ≡ ok u
unfolding init_db ensure_column
upgraded_again created u a b c = rw (a, b, c) refl

-- Starting on a table whose columns are in lower case, or on none, succeeds. It keeps every column and
-- every cell, each of the three added columns is there afterwards, and starting again changes nothing.
pub init_db_upgrades :
    (created : Table) (found : Option Table)
    → All (λ c. lower c ≡ c) (table_of created found).columns
    → (u : Table) × (init_db created found ≡ ok u)
      × Extends (table_of created found) u
      × (has_column (text "transport") u.columns ≡ true)
      × (has_column (text "notification_topic") u.columns ≡ true)
      × (has_column (text "notification_priority") u.columns ≡ true)
      × (init_db created (some u) ≡ ok u)
unfolding init_db
init_db_upgrades created found h =
    let t = table_of created found in
    let (t1, t2, t3, e1, e2, e3, s1, s2, s3) = upgrade t h in
    let (_, _, _, a, b, c) = names_apart in
    let first =
      has_other transport priority s3 b
      ∙ has_other transport topic s2 a
      ∙ has_itself transport s1 in
    let second' = has_other topic priority s3 c ∙ has_itself topic s2 in
    let third = has_itself priority s3 in
    (
      t3,
      rw (e1, e2, e3) refl,
      Extends-trans t t2 t3 (Extends-trans t t1 t2 s1.extends s2.extends) s3.extends,
      first,
      second',
      third,
      upgraded_again created t3 first second' third,
    )
