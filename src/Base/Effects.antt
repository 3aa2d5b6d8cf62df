-- ===== src/Base/Effects.antt =====
-- What a C function that may call `fatal` comes to, and the arithmetic of unsigned types.
use csbu_flo.Base.Core.{◌≡◌, refl, ℕ, ◌+◌, ◌-◌, ◌*◌, ◌/◌, ◌%◌, ◌^◌}

-- `stop` is a call of `fatal` or `cleanup_exit`, which end the process, with the reason; `spin` is a
-- loop that has used up its fuel.
pub data Outcome {ℓ κ} (E : Type κ) (A : Type ℓ) : Type (ℓ ⊔ κ) where
  ok : A → Outcome E A
  stop : E → Outcome E A
  spin : Outcome E A

infixl 5 ◌>>=◌
abbrev pub ◌>>=◌ {ℓ κ μ} :
    {E : Type μ} {A : Type ℓ} {B : Type κ} → Outcome E A → (A → Outcome E B) → Outcome E B
ok a >>= f = f a
stop e >>= f = stop e
spin >>= f = spin

-- `u_int` sums and differences wrap at 2 ^ 32, those of `unsigned long long` at 2 ^ 64.
abbrev pub add32 : ℕ → ℕ → ℕ
add32 a b = (a + b) % 2 ^ 32

abbrev pub sub32 : ℕ → ℕ → ℕ
sub32 a b = (a + 2 ^ 32 - b) % 2 ^ 32

abbrev pub add64 : ℕ → ℕ → ℕ
add64 a b = (a + b) % 2 ^ 64

abbrev pub sub64 : ℕ → ℕ → ℕ
sub64 a b = (a + 2 ^ 64 - b) % 2 ^ 64

-- The macro of defines.h, on `u_int`.
abbrev pub roundup : ℕ → ℕ → ℕ
roundup x y = add32 x (y - 1) / y * y

-- A call that returns has gone through the one before it.
pub ok_of_bind {ℓ κ μ} :
    {E : Type μ} {A : Type ℓ} {B : Type κ} (o : Outcome E A) (f : A → Outcome E B) (b : B)
    → (o >>= f) ≡ ok b
    → (a : A) × (o ≡ ok a) × (f a ≡ ok b)
ok_of_bind (ok a) f b e = (a, refl, e)
ok_of_bind (stop x) f b e = cc
ok_of_bind spin f b e = cc

-- What a call comes to that returns what another has returned, changed by `f`.
pub ok_of_map {ℓ κ μ} :
    {E : Type μ} {A : Type ℓ} {B : Type κ} (o : Outcome E A) (f : A → B) (b : B)
    → (o >>= λ a. ok (f a)) ≡ ok b
    → (a : A) × (o ≡ ok a) × (f a ≡ b)
ok_of_map (ok a) f b e = (a, refl, cc)
ok_of_map (stop x) f b e = cc
ok_of_map spin f b e = cc

pub ok_injective {ℓ κ} :
    {E : Type κ} {A : Type ℓ} {a b : A} → ◌≡◌ {A = Outcome E A} (ok a) (ok b) → a ≡ b
ok_injective e = cc
