-- ===== src/Session/Succeeds.antt =====
-- Steps of a session that return a value in every state: one rule for each way to build them.
use voicechat.Base.{
  ℕ, List, ◌≡◌, refl, ok, err, panic, Result, Bool, Bool-cases, true, false, arith, inl, inr,
  if◌then◌else◌,
}
use voicechat.Crypto.Context
use voicechat.Crypto.Context.{CryptoContext}
use voicechat.Net.Addr.{SocketAddr}
use voicechat.Net.Header.{PacketHeader}
use voicechat.Peer.{PeerManager}
use voicechat.Session.World.{
  Env, World, M, update_peers, attempt, attempted, ◌>>=◌, proceed, pure, gets, send_to, seal,
}
use voicechat.Session.Control.{tried, or_done}

module _ {A : Type 0} where
  -- No failure, and nothing but a value, respectively.
  abbrev pub is_ok : Result A → Bool
  is_ok (ok a) = true
  is_ok (err e) = false
  is_ok panic = false

  abbrev pub is_panic : Result A → Bool
  is_panic (ok a) = false
  is_panic (err e) = false
  is_panic panic = true

-- `m` returns a value in every state.
pub record Succeeds {env : Env} {A : Type 0} (m : M env A) : Type 0 where
  pub at : (w : World env) → is_ok (m w).0 ≡ true

module _ {env : Env} {A : Type 0} where
  pub Succeeds-pure : (a : A) → Succeeds {env = env} (pure a)
  unfolding pure
  Succeeds-pure a = record { at = λ w. refl }

  pub Succeeds-gets : (f : World env → A) → Succeeds (gets f)
  unfolding gets
  Succeeds-gets f = record { at = λ w. refl }

  pub Succeeds-tried : (m : M env A) → Succeeds (tried env m)
  unfolding tried
  Succeeds-tried m = record { at = λ w. refl }

  pub Succeeds-if :
      (b : Bool) (m n : M env A) → Succeeds m → Succeeds n → Succeeds (if b then m else n)
  Succeeds-if true m n sm sn = sm
  Succeeds-if false m n sm sn = sn

  -- A result that is no panic is logged or goes on.
  pub Succeeds-or_done :
      (r : Result A) (f : A → M env (Unit {0}))
      → is_panic r ≡ false
      → ((a : A) → Succeeds (f a))
      → Succeeds (or_done env r f)
  unfolding or_done
  Succeeds-or_done (ok a) f h sf = sf a
  Succeeds-or_done (err e) f h sf = record { at = λ w. unfold pure in refl }
  Succeeds-or_done panic f h sf = absurd (ground arith)

module _ {env : Env} {A B : Type 0} where
  pub proceed-Succeeds :
      (r : Result A) (w : World env) (f : A → M env B)
      → is_ok r ≡ true
      → ((a : A) → Succeeds (f a))
      → is_ok (proceed r f w).0 ≡ true
  proceed-Succeeds (ok a) w f h sf = (sf a).at w
  proceed-Succeeds (err e) w f h sf = absurd (ground arith)
  proceed-Succeeds panic w f h sf = absurd (ground arith)

  pub Succeeds-bind :
      (m : M env A) (f : A → M env B) → Succeeds m → ((a : A) → Succeeds (f a)) → Succeeds (m >>= f)
  unfolding ◌>>=◌
  Succeeds-bind m f sm sf = record { at = λ w. proceed-Succeeds (m w).0 (m w).1 f (sm.at w) sf }

module _ (env : Env) where
  attempted_succeeds :
      (r : Result (Unit {0})) (w : World env)
      → is_panic r ≡ false
      → is_ok (attempted (r, w)).0 ≡ true
  unfolding attempted
  attempted_succeeds (ok u) w h = refl
  attempted_succeeds (err e) w h = refl
  attempted_succeeds panic w h = absurd (ground arith)

  -- Handing a packet to the system does not panic.
  pub Succeeds-send :
      (wire : List ℕ) (addr : SocketAddr) → Succeeds (attempt (send_to env wire addr))
  unfolding attempt attempted send_to
  Succeeds-send wire addr = record {
    at = λ w. elim (Bool-cases (env.sendable wire addr)) [
      | inl taken ↦ rw taken refl
      | inr refused ↦ rw refused refl
    ];
  }

  pub Succeeds-update_peers :
      (f : PeerManager env.fl env.op → PeerManager env.fl env.op)
      → Succeeds {env = env} (update_peers f)
  unfolding update_peers
  Succeeds-update_peers f = record { at = λ w. refl }

  pub seal_no_panic :
      (ctx : CryptoContext) (header : PacketHeader) (payload : List ℕ)
      → is_panic (seal env ctx header payload) ≡ false
  unfolding seal Context.encrypt
  seal_no_panic ctx header payload = ground arith

pub ruleset succeeds_rules = (
  Succeeds-pure, Succeeds-gets, Succeeds-if, Succeeds-or_done, Succeeds-bind, Succeeds-send,
  Succeeds-update_peers, seal_no_panic,
)
