-- ===== src/Storage/Tables/Laws.antt =====
-- What the statements do to the rows of a table.
use go_dashboard.Prelude.{
  ℕ, ◌≡◌, refl, Bool, true, false, ◌||◌, List, [], ◌∷◌, ◌++◌, arith, leb, if◌then◌else◌, select,
  any, find, some, map_where, All,
}
use go_dashboard.Storage.Tables.{order_by, insert_by}

module _ {ℓ} {A : Type ℓ} where
  pub any-append : (p : A → Bool) (xs ys : List A) → any p (xs ++ ys) ≡ (any p xs || any p ys)
  unfolding any
  any-append p [] ys = refl
  any-append p (x ∷ xs) ys = ground (arith, any-append p xs ys)

  pub any-map_where :
      (q p : A → Bool) (f : A → A)
      → ((x : A) → p x ≡ true → q (f x) ≡ q x)
      → (xs : List A) → any q (map_where p f xs) ≡ any q xs
  unfolding any map_where
  any-map_where q p f h [] = refl
  any-map_where q p f h (x ∷ xs) = ground (arith, h x, any-map_where q p f h xs)

  pub find-append :
      (q : A → Bool) (xs ys : List A) → any q xs ≡ false → find q (xs ++ ys) ≡ find q ys
  unfolding any find
  find-append q [] ys h = refl
  find-append q (x ∷ xs) ys h = ground (arith, find-append q xs ys)

  pub any-find : (q : A → Bool) (xs : List A) (x : A) → find q xs ≡ some x → any q xs ≡ true
  unfolding any find
  any-find q [] x h = cc
  any-find q (y ∷ ys) x h = ground (arith, any-find q ys x)

  -- An UPDATE that keeps what a test asks of a row rewrites the row that the test finds, or not.
  pub find-map_where :
      (q p : A → Bool) (f : A → A)
      → ((x : A) → q (f x) ≡ q x)
      → (xs : List A) (x : A) → find q xs ≡ some x
      → find q (map_where p f xs) ≡ some (if p x then f x else x)
  unfolding find map_where
  find-map_where q p f h [] x e = cc
  find-map_where q p f h (y ∷ ys) x e =
      step (q y) (p y) (λ k. find-map_where q p f h ys x k) refl refl
    where
      first : q y ≡ true → y ≡ x
      first same = ground (arith, e)

      step :
          (b c : Bool)
          → (find q ys ≡ some x → find q (map_where p f ys) ≡ some (if p x then f x else x))
          → q y ≡ b
          → p y ≡ c
          → (if q (if c then f y else y)
              then some (if c then f y else y)
              else find q (map_where p f ys))
            ≡ some (if p x then f x else x)
      step true true rest same picked = rw (h y, same, ← first same, picked) refl
      step true false rest same picked = rw (same, ← first same, picked) refl
      step false true rest same picked = rw (h y, same) (rest (ground (arith, e)))
      step false false rest same picked = rw same (rest (ground (arith, e)))

  module _ {κ} (P : A → Type κ) where
    pub All-map_where :
        (p : A → Bool) (f : A → A)
        → ((x : A) → p x ≡ true → P x → P (f x))
        → (xs : List A) → All P xs
        → All P (map_where p f xs)
    unfolding map_where
    All-map_where p f h [] a = tt
    All-map_where p f h (x ∷ xs) a = (here (p x) refl, All-map_where p f h xs a.1)
      where
        here : (b : Bool) → p x ≡ b → P (if b then f x else x)
        here true e = h x e a.0
        here false e = a.0

    pub All-select : (p : A → Bool) (xs : List A) → All P xs → All P (select p xs)
    unfolding select
    All-select p [] a = tt
    All-select p (x ∷ xs) a = here (p x) (All-select p xs a.1)
      where
        here : (b : Bool) → All P (select p xs) → All P (if b then x ∷ select p xs else select p xs)
        here true rest = (a.0, rest)
        here false rest = rest

    -- What holds of the rows that pass the test of a SELECT, holds of those that it finds.
    pub All-select_test {μ} :
        (Q : A → Type μ) (p : A → Bool)
        → ((x : A) → Q x → p x ≡ true → P x)
        → (xs : List A) → All Q xs
        → All P (select p xs)
    unfolding select
    All-select_test Q p h [] a = tt
    All-select_test Q p h (x ∷ xs) a = here (p x) refl (All-select_test Q p h xs a.1)
      where
        here :
            (b : Bool)
            → p x ≡ b
            → All P (select p xs)
            → All P (if b then x ∷ select p xs else select p xs)
        here true e rest = (h x a.0 e, rest)
        here false e rest = rest

    All-insert_by :
        (key : A → ℕ) (x : A) (xs : List A) → P x → All P xs → All P (insert_by key x xs)
    unfolding insert_by
    All-insert_by key x [] h a = (h, tt)
    All-insert_by key x (y ∷ ys) h a = here (leb (key x) (key y)) (All-insert_by key x ys h a.1)
      where
        here :
            (b : Bool)
            → All P (insert_by key x ys)
            → All P (if b then x ∷ y ∷ ys else y ∷ insert_by key x ys)
        here true rest = (h, a)
        here false rest = (a.0, rest)

    pub All-order_by : (key : A → ℕ) (xs : List A) → All P xs → All P (order_by key xs)
    unfolding order_by
    All-order_by key [] a = tt
    All-order_by key (x ∷ xs) a =
        All-insert_by key x (order_by key xs) a.0 (All-order_by key xs a.1)

pub All-and {ℓ κ μ} :
    {A : Type ℓ} (P : A → Type κ) (Q : A → Type μ) (xs : List A)
    → All P xs
    → All Q xs
    → All (λ x. P x × Q x) xs
All-and P Q [] p q = tt
All-and P Q (x ∷ xs) p q = ((p.0, q.0), All-and P Q xs p.1 q.1)
