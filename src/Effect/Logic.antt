-- ===== src/Effect/Logic.antt =====
-- A protocol watches the calls of a program: it has a state, says which call may be made in it, and
-- how each answer changes it. `Wp P p Q g` says that every path of `p` from `g` keeps to the
-- protocol, whatever is answered, and ends in `Q`.
use snowdeploy.Base.{◌≡◌, refl, Bool, true, false, if◌then◌else◌}
use snowdeploy.Effect.{Call, Answer, Prog, ret, call, ◌>>=◌}

pub record Protocol : Type 1 where
  pub Watch : Type 0
  pub Allowed : Watch → Call → Type 0
  pub after : Watch → (c : Call) → Answer c → Watch

abbrev pub Wp : (P : Protocol) {A : Type 0} → Prog A → (A → P.Watch → Type 0) → P.Watch → Type 0
Wp P (ret a) Q g = Q a g
Wp P (call c k) Q g = P.Allowed g c × ((a : Answer c) → Wp P (k a) Q (P.after g c a))

module _ (P : Protocol) {A B : Type 0} where
  -- A program that goes on with `f` keeps to the protocol if each part does.
  pub Wp-bind :
      (p : Prog A) (f : A → Prog B) (Q : B → P.Watch → Type 0) (g : P.Watch)
      → Wp P p (λ a h. Wp P (f a) Q h) g
      → Wp P (p >>= f) Q g
  Wp-bind (ret a) f Q g w = w
  Wp-bind (call c k) f Q g w = (w.0, λ a. Wp-bind (k a) f Q (P.after g c a) (w.1 a))

module _ (P : Protocol) {A : Type 0} where
  pub Wp-mono :
      (p : Prog A) (Q R : A → P.Watch → Type 0) (g : P.Watch)
      → ((a : A) (h : P.Watch) → Q a h → R a h)
      → Wp P p Q g
      → Wp P p R g
  Wp-mono (ret a) Q R g m w = m a g w
  Wp-mono (call c k) Q R g m w = (w.0, λ a. Wp-mono (k a) Q R (P.after g c a) m (w.1 a))

module _ (P : Protocol) {A B : Type 0} where
  -- What a part guarantees is what the rest may rely on.
  pub Wp-then :
      (p : Prog A) (f : A → Prog B) (R : A → P.Watch → Type 0) (Q : B → P.Watch → Type 0)
      (g : P.Watch)
      → Wp P p R g
      → ((a : A) (h : P.Watch) → R a h → Wp P (f a) Q h)
      → Wp P (p >>= f) Q g
  Wp-then p f R Q g w next = Wp-bind P p f Q g (Wp-mono P p R (λ a h. Wp P (f a) Q h) g next w)

module _ (P : Protocol) {A : Type 0} where
  pub Wp-if :
      (b : Bool) (p q : Prog A) (Q : A → P.Watch → Type 0) (g : P.Watch)
      → (b ≡ true → Wp P p Q g)
      → (b ≡ false → Wp P q Q g)
      → Wp P (if b then p else q) Q g
  Wp-if true p q Q g yes_ no_ = yes_ refl
  Wp-if false p q Q g yes_ no_ = no_ refl
