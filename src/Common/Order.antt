-- ===== src/Common/Order.antt =====
-- Total orders as Python's `<` on numbers, texts and tuples, and what sorting by one of them forgets.
use Prim.Native.Nat.{ℕ}
use mathlib.Core.Path.{◌≡◌, refl, ap, ◌∙◌}
use mathlib.Core.Bool.{Bool, true, false}
use mathlib.Core.List.{List, [], ◌∷◌, map}
use mathlib.Core.List.{Permᴰ}
use native.Mathlib.Omega.{arith}
use sms_relay.Common.Tests.{leb_total, leb_trans, ltb, leb, ◌==◌, if◌then◌else◌}
use sms_relay.Common.Sort.{insert_sorted, sort}
use sms_relay.Common.Strings.{Text}

pub record Order {ℓ} (A : Type ℓ) : Type ℓ where
  pub le : A → A → Bool
  pub total : (a b : A) → le a b ≡ false → le b a ≡ true
  pub trans : (a b c : A) → le a b ≡ true → le b c ≡ true → le a c ≡ true
  pub antisymm : (a b : A) → le a b ≡ true → le b a ≡ true → a ≡ b

pub leb_antisymm : (a b : ℕ) → leb a b ≡ true → leb b a ≡ true → a ≡ b
leb_antisymm a b h k = ground (arith, h, k)

abbrev pub ascending : Order ℕ
ascending = record { le = leb; total = leb_total; trans = leb_trans; antisymm = leb_antisymm }

-- `-a <= -b`
abbrev pub descending : Order ℕ
descending = record {
  le = λ a b. leb b a;
  total = λ a b. leb_total b a;
  trans = λ a b c h k. leb_trans c b a k h;
  antisymm = λ a b h k. leb_antisymm a b k h;
}

-- `s <= t` on texts, by code points.
unfoldable pub text_le : Text → Text → Bool
text_le [] t = true
text_le (a ∷ s) [] = false
text_le (a ∷ s) (b ∷ t) = let rest = text_le s t in if a == b then rest else ltb a b

pub text_le-total : (s t : Text) → text_le s t ≡ false → text_le t s ≡ true
unfolding text_le
text_le-total [] t h = absurd (cc h)
text_le-total (a ∷ s) [] h = refl
text_le-total (a ∷ s) (b ∷ t) h = ground (arith, h, text_le-total s t)

pub text_le_trans : (s t u : Text) → text_le s t ≡ true → text_le t u ≡ true → text_le s u ≡ true
unfolding text_le
text_le_trans [] t u h k = refl
text_le_trans (a ∷ s) [] u h k = absurd (cc h)
text_le_trans (a ∷ s) (b ∷ t) [] h k = absurd (cc k)
text_le_trans (a ∷ s) (b ∷ t) (c ∷ u) h k = ground (arith, h, k, text_le_trans s t u)

pub text_le_antisymm : (s t : Text) → text_le s t ≡ true → text_le t s ≡ true → s ≡ t
unfolding text_le
text_le_antisymm [] [] h k = refl
text_le_antisymm [] (b ∷ t) h k = absurd (cc k)
text_le_antisymm (a ∷ s) [] h k = absurd (cc h)
text_le_antisymm (a ∷ s) (b ∷ t) h k = ground (arith, h, k, text_le_antisymm s t)

abbrev pub by_text : Order Text
by_text = record {
  le = text_le;
  total = text_le-total;
  trans = text_le_trans;
  antisymm = text_le_antisymm;
}

-- Tuples: the first component that differs decides.
module _ {ℓ κ} {A : Type ℓ} {B : Type κ} (o : Order A) (p : Order B) where
  abbrev pub pair_le : A × B → A × B → Bool
  pair_le (a, b) (c, d) = if o.le a c then (if o.le c a then p.le b d else true) else false

  pub pair_le-total : (x y : A × B) → pair_le x y ≡ false → pair_le y x ≡ true
  pair_le-total (a, b) (c, d) h = ground (arith, h, o.total a c, o.total c a, p.total b d)

  pub pair_le_trans : (x y z : A × B) → pair_le x y ≡ true → pair_le y z ≡ true → pair_le x z ≡ true
  pair_le_trans (a, b) (c, d) (e, f) h k =
      ground
        (arith, h, k, o.trans a c e, o.trans e c a, o.trans c e a, o.trans e a c, p.trans b d f)

  pub pair_le_antisymm : (x y : A × B) → pair_le x y ≡ true → pair_le y x ≡ true → x ≡ y
  pair_le_antisymm (a, b) (c, d) h k = ground (arith, h, k, o.antisymm a c, p.antisymm b d)

  abbrev pub by_pair : Order (A × B)
  by_pair = record {
    le = pair_le;
    total = pair_le-total;
    trans = pair_le_trans;
    antisymm = pair_le_antisymm;
  }

module _ {ℓ} {A : Type ℓ} (o : Order A) where
  insert_sorted_comm :
      (a b : A) (l : List A)
      → insert_sorted o.le a (insert_sorted o.le b l)
        ≡ insert_sorted o.le b (insert_sorted o.le a l)
  unfolding insert_sorted
  insert_sorted_comm a b [] = ground (arith, o.antisymm a b, o.total a b, o.total b a)
  insert_sorted_comm a b (c ∷ l) = ground (
    arith,
    insert_sorted_comm a b l,
    o.antisymm a b,
    o.total a b,
    o.total b a,
    o.trans a b c,
    o.trans b a c,
  )

  -- Sorting forgets the order of its input.
  pub sort-perm : {xs ys : List A} → Permᴰ xs ys → sort o.le xs ≡ sort o.le ys
  unfolding sort
  sort-perm Permᴰ.nil = refl
  sort-perm (Permᴰ.cons {a} {b} {l₁} {l₂} e p) = rw (e, sort-perm p)
  sort-perm (Permᴰ.swap {a} {b} {a'} {b'} {l} e f) =
      rw (e, f) (insert_sorted_comm b' a' (sort o.le l))
  sort-perm (Permᴰ.trans p q) = sort-perm p ∙ sort-perm q

module _ {ℓ κ} {A : Type ℓ} {B : Type κ} (le : B → B → Bool) (f : A → B) where
  insert_sorted-map :
      (a : A) (l : List A)
      → map f (insert_sorted (λ x y. le (f x) (f y)) a l) ≡ insert_sorted le (f a) (map f l)
  unfolding insert_sorted
  insert_sorted-map a [] = refl
  insert_sorted-map a (b ∷ l) = ground (arith, insert_sorted-map a l)

  -- Sorting by a key.
  pub sort-map : (l : List A) → map f (sort (λ x y. le (f x) (f y)) l) ≡ sort le (map f l)
  unfolding sort
  sort-map [] = refl
  sort-map (a ∷ l) =
      insert_sorted-map a (sort (λ x y. le (f x) (f y)) l)
      ∙ ap (insert_sorted le (f a)) (sort-map l)

pub map-perm {ℓ κ} :
    {A : Type ℓ} {B : Type κ} (f : A → B) {xs ys : List A}
    → Permᴰ xs ys
    → Permᴰ (map f xs) (map f ys)
map-perm f Permᴰ.nil = Permᴰ.nil
map-perm f (Permᴰ.cons e p) = Permᴰ.cons (ap f e) (map-perm f p)
map-perm f (Permᴰ.swap e g) = Permᴰ.swap (ap f e) (ap f g)
map-perm f (Permᴰ.trans p q) = Permᴰ.trans (map-perm f p) (map-perm f q)
