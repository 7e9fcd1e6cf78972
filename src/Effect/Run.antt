-- ===== src/Effect/Run.antt =====
-- A program run against a world that answers its calls, with the trace of what was called.
use mathlib.Core.Path.{subst}
use snowdeploy.Base.{◌≡◌, refl, sym, List, [], ◌∷◌}
use snowdeploy.Effect.{Call, Answer, Prog, ret, call}
use snowdeploy.Effect.Logic.{Protocol, Wp}

pub record World : Type 1 where
  pub State : Type 0
  pub answer : (c : Call) → State → Answer c × State

pub data Step : Type 0 where
  step : (c : Call) → Answer c → Step

abbrev pub Trace : Type 0
Trace = List Step

unfoldable pub execute : (w : World) {A : Type 0} → Prog A → w.State → A × w.State × Trace
execute w (ret a) s = (a, s, [])
execute w (call c k) s =
    let t = w.answer c s in let r = execute w (k t.0) t.1 in (r.0, r.1, step c t.0 ∷ r.2)

module _ (P : Protocol) where
  -- Every call of the trace was allowed where it was made.
  abbrev pub Keeps : P.Watch → Trace → Type 0
  Keeps g [] = Unit
  Keeps g (step c a ∷ t) = P.Allowed g c × Keeps (P.after g c a) t

  -- The protocol's state behind the trace.
  abbrev pub final : P.Watch → Trace → P.Watch
  final g [] = g
  final g (step c a ∷ t) = final (P.after g c a) t

  -- A run in any world keeps to a protocol that the program is proved to keep to.
  pub execute-Keeps :
      (w : World) {A : Type 0} (p : Prog A) (Q : A → P.Watch → Type 0) (g : P.Watch) (s : w.State)
      → Wp P p Q g
      → let r = execute w p s in Keeps g r.2 × Q r.0 (final g r.2)
  unfolding execute
  execute-Keeps w (ret a) Q g s h = (tt, h)
  execute-Keeps w (call c k) Q g s h =
      let t = w.answer c s in
      let (kept, post) = execute-Keeps w (k t.0) Q (P.after g c t.0) t.1 (h.1 t.0) in
      ((h.0, kept), post)

module _ (P R : Protocol) (view : P.Watch → R.Watch)
    (allowed : (g : P.Watch) (c : Call) → P.Allowed g c → R.Allowed (view g) c)
    (follows : (g : P.Watch) (c : Call) (a : Answer c)
      → P.Allowed g c
      → R.after (view g) c a ≡ view (P.after g c a)) where
  -- What keeps to a protocol keeps to a coarser one that watches it through `view`.
  pub Keeps-view :
      (g : P.Watch) (t : Trace)
      → Keeps P g t
      → Keeps R (view g) t × (final R (view g) t ≡ view (final P g t))
  Keeps-view g [] k = (tt, refl)
  Keeps-view g (step c a ∷ t) k =
      let rest : Keeps R (view (P.after g c a)) t
          × (final R (view (P.after g c a)) t ≡ view (final P (P.after g c a) t)) =
        Keeps-view (P.after g c a) t k.1 in
      subst
        (λ (h : R.Watch).
          (R.Allowed (view g) c × Keeps R h t) × (final R h t ≡ view (final P (P.after g c a) t)))
        (sym (follows g c a k.0)) ((allowed g c k.0, rest.0), rest.1)
