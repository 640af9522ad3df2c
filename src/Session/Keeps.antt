-- ===== src/Session/Keeps.antt =====
-- Invariants of the steps of a session: one rule for each way to build a step.
use voicechat.Base.{◌≡◌, refl, Result, ok, err, panic, Error, Bool, true, false, if◌then◌else◌}
use voicechat.Session.World.{
  Env, World, M, proceed, attempted, ◌>>=◌, pure, raise, lift, attempt, gets,
}
use voicechat.Session.Control.{or_done, tried}

-- `m` keeps `P`, however it ends.
pub record Keeps {env : Env} {A : Type 0} (P : World env → Type 0) (m : M env A) : Type 0 where
  pub at : (w : World env) → P w → P (m w).1

module _ {env : Env} {A : Type 0} {P : World env → Type 0} where
  pub Keeps-pure : (a : A) → Keeps P (pure a)
  unfolding pure
  Keeps-pure a = record { at = λ w h. h }

  pub Keeps-raise : (e : Error) → Keeps P (raise {A = A} e)
  unfolding raise
  Keeps-raise e = record { at = λ w h. h }

  pub Keeps-lift : (r : Result A) → Keeps P (lift r)
  unfolding lift
  Keeps-lift r = record { at = λ w h. h }

  pub Keeps-gets : (f : World env → A) → Keeps P (gets f)
  unfolding gets
  Keeps-gets f = record { at = λ w h. h }

  pub Keeps-if : (b : Bool) (m n : M env A) → Keeps P m → Keeps P n → Keeps P (if b then m else n)
  Keeps-if true m n km kn = km
  Keeps-if false m n km kn = kn

  pub Keeps-tried : (m : M env A) → Keeps P m → Keeps P (tried env m)
  unfolding tried
  Keeps-tried m km = record { at = λ w h. km.at w h }

  pub Keeps-or_done :
      (r : Result A) (f : A → M env (Unit {0}))
      → ((a : A) → Keeps P (f a))
      → Keeps P (or_done env r f)
  unfolding or_done
  Keeps-or_done (ok a) f kf = kf a
  Keeps-or_done (err e) f kf = record { at = λ w h. unfold pure in h }
  Keeps-or_done panic f kf = record { at = λ w h. unfold lift in h }

module _ {env : Env} {A B : Type 0} {P : World env → Type 0} where
  proceed_keeps :
      (r : Result A) (w : World env) (f : A → M env B)
      → P w
      → ((a : A) → Keeps P (f a))
      → P (proceed r f w).1
  proceed_keeps (ok a) w f h kf = (kf a).at w h
  proceed_keeps (err e) w f h kf = h
  proceed_keeps panic w f h kf = h

  pub Keeps-bind :
      (m : M env A) (f : A → M env B) → Keeps P m → ((a : A) → Keeps P (f a)) → Keeps P (m >>= f)
  unfolding ◌>>=◌
  Keeps-bind m f km kf = record { at = λ w h. proceed_keeps (m w).0 (m w).1 f (km.at w h) kf }

module _ {env : Env} (P : World env → Type 0) where
  attempted_keeps : (r : Result (Unit {0})) (w : World env) → P w → P (attempted (r, w)).1
  unfolding attempted
  attempted_keeps (ok u) w h = h
  attempted_keeps (err e) w h = h
  attempted_keeps panic w h = h

module _ {env : Env} {P : World env → Type 0} where
  pub Keeps-attempt : (m : M env (Unit {0})) → Keeps P m → Keeps P (attempt m)
  unfolding attempt
  Keeps-attempt m km = record { at = λ w h. attempted_keeps P (m w).0 (m w).1 (km.at w h) }

pub Keeps-fail :
    {env : Env} {A B : Type 0} {P : World env → Type 0} (e : Error) (r : Result A) (f : A → M env B)
    → r ≡ err e
    → Keeps P (lift r >>= f)
unfolding ◌>>=◌ lift
Keeps-fail e r f failed = rw failed (record { at = λ w h. h })

-- A test that is known to fail.
pub Keeps-other :
    {env : Env} {A : Type 0} {P : World env → Type 0} (b : Bool) (m n : M env A)
    → b ≡ false
    → Keeps P n
    → Keeps P (if b then m else n)
Keeps-other b m n e kn = rw e kn

-- The branches under what the test says.
pub Keeps-test :
    {env : Env} {A : Type 0} {P : World env → Type 0} (b : Bool) (m n : M env A)
    → (b ≡ true → Keeps P m)
    → Keeps P n
    → Keeps P (if b then m else n)
Keeps-test true m n km kn = km refl
Keeps-test false m n km kn = kn

pub Keeps-go :
    {env : Env} {A B : Type 0} {P : World env → Type 0} (r : Result A) (a : A) (f : A → M env B)
    → r ≡ ok a
    → Keeps P (f a)
    → Keeps P (lift r >>= f)
unfolding ◌>>=◌ lift
Keeps-go r a f e kf = rw e kf

-- A result under `?`, with what is known of it after.
pub Keeps-opened :
    {env : Env} {A B : Type 0} {P : World env → Type 0} (r : Result A) (f : A → M env B)
    → ((a : A) → r ≡ ok a → Keeps P (f a))
    → Keeps P (lift r >>= f)
unfolding ◌>>=◌ lift
Keeps-opened (ok a) f kf = kf a refl
Keeps-opened (err e) f kf = record { at = λ w h. h }
Keeps-opened panic f kf = record { at = λ w h. h }

pub ruleset keeps_rules = (
  Keeps-pure, Keeps-raise, Keeps-lift, Keeps-gets, Keeps-if, Keeps-tried, Keeps-or_done, Keeps-bind,
  Keeps-attempt,
)
