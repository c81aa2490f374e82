-- ===== src/Grid/Sessions/Slots.antt =====
-- Slots for ids, where 0 stands for none, that are renewed one after the other with ids above those given before.
use mathlib.Core.Path.{subst}
use trading_engine.Base.{
  ℕ, zero, suc, ◌≤◌, ◌<◌, ◌≡◌, ◌≢◌, ◌⊎◌, inl, inr, refl, List, [], ◌∷◌, some, arith, All, get_elem?,
  ap, sym, ◌∙◌,
}

-- A slot keeps its id, loses it, or gets one from [b, b').
abbrev pub Slot : ℕ → ℕ → ℕ → ℕ → Type 0
Slot b x b' y = (b ≤ b') × ((y ≡ x) ⊎ ((y ≡ 0) ⊎ ((b ≤ y) × (y < b'))))

pub data Renew (b' : ℕ) : ℕ → List ℕ → List ℕ → Type 0 where
  done : {b : ℕ} → b ≤ b' → Renew b' b [] []
  next :
      {b m x y : ℕ} {xs ys : List ℕ}
      → Slot b x m y
      → Renew b' m xs ys
      → Renew b' b (x ∷ xs) (y ∷ ys)

abbrev pub Under : ℕ → ℕ → Type 0
Under b x = (x ≡ 0) ⊎ (x < b)

abbrev pub Apart : ℕ → List ℕ → Type 0
Apart x xs = All (λ y. x ≢ 0 → x ≢ y) xs

abbrev pub IsDistinct : List ℕ → Type 0
IsDistinct [] = Unit
IsDistinct (x ∷ xs) = Apart x xs × IsDistinct xs

Slot-Under : (b x m y : ℕ) → Slot b x m y → Under b x → Under m y
Slot-Under b x m y s u = omega arith

-- An id that was given stays apart from what a slot becomes.
Slot-apart : (b x m y z : ℕ) → Slot b x m y → Under b z → (z ≢ 0 → z ≢ x) → z ≢ 0 → z ≢ y
Slot-apart b x m y z s u apart set = omega (arith, apart set)

Under-mono : (b m : ℕ) (xs : List ℕ) → b ≤ m → All (Under b) xs → All (Under m) xs
Under-mono b m [] h u = u
Under-mono b m (x ∷ xs) h (u, us) = (omega arith, Under-mono b m xs h us)

Renew-le : {b' b : ℕ} {xs ys : List ℕ} → Renew b' b xs ys → b ≤ b'
Renew-le (done h) = h
Renew-le {b' = b'} {b = b} (next {m = m} s r) = omega (arith, s.0, Renew-le r)

Renew-Apart :
    {b' b : ℕ} {xs ys : List ℕ} (z : ℕ) → Renew b' b xs ys → Under b z → Apart z xs → Apart z ys
Renew-Apart z (done h) u apart = apart
Renew-Apart z (next {b = b} {m = m} {x = x} {y = y} s r) u (a, apart) =
    (Slot-apart b x m y z s u a, Renew-Apart z r (omega (arith, s.0)) apart)

Apart-new : (b y : ℕ) (xs : List ℕ) → b ≤ y → All (Under b) xs → Apart y xs
Apart-new b y [] h us = tt
Apart-new b y (x ∷ xs) h (u, us) = (λ set e. omega arith, Apart-new b y xs h us)

pub Apart-none : (xs : List ℕ) → Apart 0 xs
Apart-none [] = tt
Apart-none (x ∷ xs) = (λ set. absurd (set refl), Apart-none xs)

-- What a slot holds after a change is apart from the ids behind it.
Slot-Apart : (b x m y : ℕ) (xs : List ℕ) → Slot b x m y → All (Under b) xs → Apart x xs → Apart y xs
Slot-Apart b x m y xs (up, inl e) us apart = subst (λ v. Apart v xs) (sym e) apart
Slot-Apart b x m y xs (up, inr (inl e)) us apart = subst (λ v. Apart v xs) (sym e) (Apart-none xs)
Slot-Apart b x m y xs (up, inr (inr h)) us apart = Apart-new b y xs h.0 us

pub Renew-IsDistinct :
    {b' b : ℕ} {xs ys : List ℕ}
    → Renew b' b xs ys
    → All (Under b) xs
    → IsDistinct xs
    → All (Under b') ys × IsDistinct ys
Renew-IsDistinct (done h) us d = (tt, tt)
Renew-IsDistinct (next {b = b} {m = m} {x = x} {y = y} {xs = xs} {ys = ys} s r) (u, us) (apart, d) =
    let up = Renew-le r in
    let under = Slot-Under b x m y s u in
    let (later, distinct) = Renew-IsDistinct r (Under-mono b m xs s.0 us) d in
    ((omega arith, later), (Renew-Apart y r under (Slot-Apart b x m y xs s us apart), distinct))

Apart-index :
    (x : ℕ) (xs : List ℕ) (j : ℕ) {id : ℕ} → Apart x xs → id ≢ 0 → x ≡ id → get_elem? xs j ≢ some id
Apart-index x [] j apart set e h = cc
Apart-index x (y ∷ xs) zero (a, apart) set e h = a (λ z. set (sym e ∙ z)) (cc)
Apart-index x (y ∷ xs) (suc j) (a, apart) set e h = Apart-index x xs j apart set e h

pub IsDistinct-index :
    (xs : List ℕ) (i j id : ℕ)
    → IsDistinct xs
    → id ≢ 0
    → get_elem? xs i ≡ some id
    → get_elem? xs j ≡ some id
    → i ≡ j
IsDistinct-index [] i j id d set a b = cc
IsDistinct-index (x ∷ xs) zero zero id d set a b = refl
IsDistinct-index (x ∷ xs) zero (suc j) id (apart, d) set a b =
    absurd (Apart-index x xs j apart set (cc) b)
IsDistinct-index (x ∷ xs) (suc i) zero id (apart, d) set a b =
    absurd (Apart-index x xs i apart set (cc) a)
IsDistinct-index (x ∷ xs) (suc i) (suc j) id (apart, d) set a b =
    ap suc (IsDistinct-index xs i j id d set a b)
