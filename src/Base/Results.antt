-- ===== src/Base/Results.antt =====
-- Rust's `Result`, with the error type first.
use mathlib.Core.Bool.{Bool, true, false}
use reink_rust.Base.Tests.{if◌then◌else◌}
use mathlib.Core.Option.{Option, none, some}
use mathlib.Core.List.{List, [], ◌∷◌}
use reink_rust.Base.Lists.{All}
use mathlib.Core.Path.{subst, ◌≡◌, refl}
use mathlib.Core.Logic.{◌⊎◌, inl, inr}

pub data Result {ℓ} (E A : Type ℓ) : Type ℓ where
  ok : A → Result E A
  err : E → Result E A

-- The `?` operator.
infixl 10 ◌>>=◌ ◌>>◌
abbrev pub ◌>>=◌ {ℓ} : {E A B : Type ℓ} → Result E A → (A → Result E B) → Result E B
ok a >>= f = f a
err e >>= f = err e

abbrev pub ◌>>◌ {ℓ} : {E A B : Type ℓ} → Result E A → Result E B → Result E B
m >> k = m >>= λ _. k

abbrev pub map_err {ℓ} : {E F A : Type ℓ} → (E → F) → Result E A → Result F A
map_err f (ok a) = ok a
map_err f (err e) = err (f e)

pub Result-cases {ℓ} :
    {E A : Type ℓ} (r : Result E A) → ((a : A) × (r ≡ ok a)) ⊎ ((e : E) × (r ≡ err e))
Result-cases (ok a) = inl (a, refl)
Result-cases (err e) = inr (e, refl)

pub ok-injective {ℓ} : {E A : Type ℓ} {a b : A} → ◌≡◌ {A = Result E A} (ok a) (ok b) → a ≡ b
ok-injective h = cc h

pub err-ne-ok {ℓ} : {E A : Type ℓ} {e : E} {a : A} → ◌≡◌ {A = Result E A} (err e) (ok a) → ⊥
err-ne-ok h = cc h

-- `iter.map(f).collect::<Result<Vec<_>, _>>()`
unfoldable pub collect {ℓ} : {E A B : Type ℓ} → (A → Result E B) → List A → Result E (List B)
collect f [] = ok []
collect f (x ∷ xs) = f x >>= λ y. collect f xs >>= λ ys. ok (y ∷ ys)

-- A chain that succeeds: each step did.
pub bind-ok {ℓ} :
    {E A B : Type ℓ} (m : Result E A) (f : A → Result E B) (b : B)
    → (m >>= f) ≡ ok b
    → (a : A) × (m ≡ ok a) × (f a ≡ ok b)
bind-ok (ok a) f b h = (a, refl, h)
bind-ok (err e) f b h = absurd (err-ne-ok h)

-- What holds of each item's image holds of all that is collected.
pub collect-All {ℓ κ} :
    {E A B : Type ℓ} (P : B → Type κ) (f : A → Result E B)
    → ((a : A) (b : B) → f a ≡ ok b → P b)
    → (xs : List A) (ys : List B) → collect f xs ≡ ok ys
    → All P ys
unfolding collect
collect-All P f h [] ys eq = subst (All P) (ok-injective eq) tt
collect-All P f h (x ∷ xs) ys eq =
    let (y, fx, rest) = bind-ok (f x) _ ys eq in
    let (ys', fxs, done) = bind-ok (collect f xs) _ ys rest in
    subst (All P) (ok-injective done) (h x y fx, collect-All P f h xs ys' fxs)

-- `Option::unwrap_or`
abbrev pub unwrap_or {ℓ} : {A : Type ℓ} → Option A → A → A
unwrap_or none a = a
unwrap_or (some b) a = b

-- A guard that refuses, and a test that accepts.
pub refuse-ok {ℓ} :
    {E A : Type ℓ} (b : Bool) (e : E) (m : Result E A) (a : A)
    → (if b then err e else m) ≡ ok a
    → (b ≡ false) × (m ≡ ok a)
refuse-ok true e m a h = absurd (err-ne-ok h)
refuse-ok false e m a h = (refl, h)

pub accept-ok {ℓ} :
    {E A : Type ℓ} (b : Bool) (e : E) (m : Result E A) (a : A)
    → (if b then m else err e) ≡ ok a
    → (b ≡ true) × (m ≡ ok a)
accept-ok true e m a h = (refl, h)
accept-ok false e m a h = absurd (err-ne-ok h)

-- `Option::or`
abbrev pub prefer {ℓ} : {A : Type ℓ} → Option A → Option A → Option A
prefer (some a) other = some a
prefer none other = other
