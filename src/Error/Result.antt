-- ===== src/Error/Result.antt =====
-- `Result<T, DynError>` with its `?`, over any type of errors.
use vectis.Base.{if◌then◌else◌, ◌≡◌, refl, Bool, true, false, not, ◌⊎◌, inl, inr}

pub data Result {ℓ} (E : Type 0) (A : Type ℓ) : Type ℓ where
  ok : A → Result E A
  err : E → Result E A

infixl 5 ◌>>=◌ ◌>>◌
abbrev pub ◌>>=◌ {ℓ κ} :
    {E : Type 0} {A : Type ℓ} {B : Type κ} → Result E A → (A → Result E B) → Result E B
ok a >>= f = f a
err e >>= f = err e

abbrev pub ◌>>◌ {ℓ} : {E : Type 0} {B : Type ℓ} → Result E (Unit {0}) → Result E B → Result E B
m >> k = m >>= λ _. k

-- `if c { return Err(e); }`
abbrev pub reject : {E : Type 0} → Bool → E → Result E (Unit {0})
reject true e = err e
reject false e = ok tt

-- `map_err`
abbrev pub map_err {ℓ} : {E F : Type 0} {A : Type ℓ} → (E → F) → Result E A → Result F A
map_err f (ok a) = ok a
map_err f (err e) = err (f e)

abbrev pub is_ok {ℓ} : {E : Type 0} {A : Type ℓ} → Result E A → Bool
is_ok (ok _) = true
is_ok (err _) = false

-- A successful bind comes from two successes.
pub >>=-eq-ok {ℓ κ} :
    {E : Type 0} {A : Type ℓ} {B : Type κ} (first : Result E A) (next : A → Result E B) {last : B}
    → (first >>= next) ≡ ok last
    → (mid : A) × (first ≡ ok mid) × (next mid ≡ ok last)
>>=-eq-ok (err e) next h = cc
>>=-eq-ok (ok mid) next h = (mid, refl, h)

-- To split on a computed result and keep the equation.
pub Result-cases {ℓ} :
    {E : Type 0} {A : Type ℓ} (r : Result E A) → ((a : A) × (r ≡ ok a)) ⊎ ((e : E) × (r ≡ err e))
Result-cases (ok a) = inl (a, refl)
Result-cases (err e) = inr (e, refl)

pub ok-injective {ℓ} :
    {E : Type 0} {A : Type ℓ} (r : Result E A) {a b : A} → r ≡ ok a → r ≡ ok b → a ≡ b
ok-injective r ha hb = cc

pub reject-ok : {E : Type 0} (c : Bool) (e : E) → reject c e ≡ ok tt → c ≡ false
reject-ok true e h = cc
reject-ok false e h = refl

-- Two checks in a row that succeed both succeed.
pub >>-eq-ok {ℓ} :
    {E : Type 0} {B : Type ℓ} (m : Result E (Unit {0})) (k : Result E B) {b : B}
    → (m >> k) ≡ ok b
    → (m ≡ ok tt) × (k ≡ ok b)
>>-eq-ok (ok tt) k h = (refl, h)
>>-eq-ok (err e) k h = cc

-- The same, with the parts as variables of what follows.
pub with_ok {ℓ κ μ} :
    {E : Type 0} {A : Type ℓ} {B : Type κ} {C : Type μ} (first : Result E A) (next : A → Result E B)
    {last : B}
    → (first >>= next) ≡ ok last
    → ((mid : A) → first ≡ ok mid → next mid ≡ ok last → C)
    → C
with_ok (err e) next h k = cc
with_ok (ok mid) next h k = k mid refl h

pub map_err-ok {ℓ} :
    {E F : Type 0} {A : Type ℓ} (f : E → F) (r : Result E A) {a : A} → map_err f r ≡ ok a → r ≡ ok a
map_err-ok f (ok a) h = cc
map_err-ok f (err e) h = cc

pub reject-then {ℓ} :
    {E : Type 0} {B : Type ℓ} (c : Bool) (e : E) (k : Result E B) {b : B}
    → (reject c e >> k) ≡ ok b
    → (c ≡ false) × (k ≡ ok b)
reject-then true e k h = cc
reject-then false e k h = (refl, h)

pub not-false : (b : Bool) → not b ≡ false → b ≡ true
not-false true h = refl
not-false false h = cc

-- A conditional that succeeds took one of its branches.
pub if-ok {ℓ} :
    {E : Type 0} {A : Type ℓ} (b : Bool) (m n : Result E A) {a : A}
    → (if b then m else n) ≡ ok a
    → ((b ≡ true) × (m ≡ ok a)) ⊎ ((b ≡ false) × (n ≡ ok a))
if-ok true m n h = inl (refl, h)
if-ok false m n h = inr (refl, h)
