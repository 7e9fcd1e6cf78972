-- ===== src/Script.antt =====
-- Code that drives a client of another system: a `Script` is a tree of queries in the client's
-- language, and the code goes on from each reply. A contract watches the queries, as Effect/Logic
-- does for the engine's calls.
use snowdeploy.Base.{◌≡◌, refl}

pub record Language : Type 1 where
  pub Query : Type 0
  pub Reply : Query → Type 0

pub data Script (L : Language) (A : Type 0) : Type 0 where
  ret : A → Script L A
  ask : (q : L.Query) → (L.Reply q → Script L A) → Script L A

infixl 5 ◌>>=◌ ◌>>◌
abbrev pub ◌>>=◌ : {L : Language} {A B : Type 0} → Script L A → (A → Script L B) → Script L B
ret a >>= f = f a
ask q k >>= f = ask q (λ r. k r >>= f)

abbrev pub ◌>>◌ : {L : Language} {A B : Type 0} → Script L A → Script L B → Script L B
m >> n = m >>= λ _. n

abbrev pub query : {L : Language} (q : L.Query) → Script L (L.Reply q)
query q = ask q ret

-- The result against a client that always gives the same replies.
abbrev pub run : {L : Language} {A : Type 0} → ((q : L.Query) → L.Reply q) → Script L A → A
run replies (ret a) = a
run replies (ask q k) = run replies (k (replies q))

pub run-bind :
    {L : Language} {A B : Type 0} (replies : (q : L.Query) → L.Reply q) (p : Script L A)
    (f : A → Script L B)
    → run replies (p >>= f) ≡ run replies (f (run replies p))
run-bind replies (ret a) f = refl
run-bind replies (ask q k) f = run-bind replies (k (replies q)) f

-- Which query may be made when, and how its reply is remembered.
pub record Contract (L : Language) : Type 1 where
  pub Watch : Type 0
  pub Allowed : Watch → L.Query → Type 0
  pub after : Watch → (q : L.Query) → L.Reply q → Watch

module _ {L : Language} (C : Contract L) where
  -- Whatever is replied, each query is allowed, and the script ends in `Q`.
  abbrev pub Keeps : {A : Type 0} → Script L A → (A → C.Watch → Type 0) → C.Watch → Type 0
  Keeps (ret a) Q w = Q a w
  Keeps (ask q k) Q w = C.Allowed w q × ((r : L.Reply q) → Keeps (k r) Q (C.after w q r))

  pub Keeps-mono :
      {A : Type 0} (p : Script L A) (Q R : A → C.Watch → Type 0) (w : C.Watch)
      → ((a : A) (v : C.Watch) → Q a v → R a v)
      → Keeps p Q w
      → Keeps p R w
  Keeps-mono (ret a) Q R w m h = m a w h
  Keeps-mono (ask q k) Q R w m h = (h.0, λ r. Keeps-mono (k r) Q R (C.after w q r) m (h.1 r))

  -- What a part guarantees is what the rest may rely on.
  pub Keeps-then :
      {A B : Type 0} (p : Script L A) (f : A → Script L B) (R : A → C.Watch → Type 0)
      (Q : B → C.Watch → Type 0) (w : C.Watch)
      → Keeps p R w
      → ((a : A) (v : C.Watch) → R a v → Keeps (f a) Q v)
      → Keeps (p >>= f) Q w
  Keeps-then (ret a) f R Q w h next = next a w h
  Keeps-then (ask q k) f R Q w h next =
      (h.0, λ r. Keeps-then (k r) f R Q (C.after w q r) (h.1 r) next)
