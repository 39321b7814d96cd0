-- ===== src/Action/Rules.antt =====
-- Rules for actions: what a successful chain went through, what a chain keeps of its state, and what
-- holds of a result.
use apeiron.Base.{◌≡◌, refl, ◌∙◌, Bool, true, false, if◌then◌else◌}
use apeiron.Action.{
  Result, ok, err, panicked, Action, pure, fail, lift, map_result, map_err, continue, attempt,
  ◌>>=◌,
}

module _ {E S A B : Type 0} where
  continue-ok :
      (r : Result E A) (f : A → Action E S B) (s s' : S) (b : B)
      → continue r f s ≡ (ok b, s')
      → (a : A) × (r ≡ ok a) × (f a s ≡ (ok b, s'))
  continue-ok (ok a) f s s' b e = (a, refl, e)
  continue-ok (err x) f s s' b e = cc
  continue-ok panicked f s s' b e = cc

  -- A chain that succeeds has a first part that does, and a second that goes on from there.
  pub >>=-ok :
      (m : Action E S A) (f : A → Action E S B) (s s' : S) (b : B)
      → (m >>= f) s ≡ (ok b, s')
      → (a : A) × (t : S) × (m s ≡ (ok a, t)) × (f a t ≡ (ok b, s'))
  >>=-ok m f s s' b e =
      let (a, p, q) = continue-ok (m s).0 f (m s).1 s' b e in (a, (m s).1, λ i. (p i, (m s).1), q)

-- `m` keeps what `view` shows of the state, whether it succeeds or fails.
pub record Keeps {E S A V : Type 0} (view : S → V) (m : Action E S A) : Type 0 where
  pub at : (s : S) → view (m s).1 ≡ view s

module _ {E S A V : Type 0} {view : S → V} where
  pub Keeps-pure : (a : A) → Keeps view (pure {E = E} a)
  Keeps-pure a = record { at = λ s. refl }

  pub Keeps-fail : (e : E) → Keeps view (fail {A = A} e)
  Keeps-fail e = record { at = λ s. refl }

  pub Keeps-lift : (r : Result E A) → Keeps view (lift r)
  Keeps-lift r = record { at = λ s. refl }

  pub Keeps-if :
      (b : Bool) (m n : Action E S A)
      → Keeps view m
      → Keeps view n
      → Keeps view (if b then m else n)
  Keeps-if true m n km kn = km
  Keeps-if false m n km kn = kn

  pub Keeps-map_err : (f : E → E) (m : Action E S A) → Keeps view m → Keeps view (map_err f m)
  Keeps-map_err f m km = record { at = λ s. km.at s }

  pub Keeps-attempt : (m : Action E S A) → Keeps view m → Keeps view (attempt m)
  Keeps-attempt m km = record { at = λ s. km.at s }

module _ {E S A B V : Type 0} {view : S → V} where
  pub continue-Keeps :
      (r : Result E A) (f : A → Action E S B) (s : S)
      → ((a : A) → Keeps view (f a))
      → view (continue r f s).1 ≡ view s
  continue-Keeps (ok a) f s kf = (kf a).at s
  continue-Keeps (err e) f s kf = refl
  continue-Keeps panicked f s kf = refl

  pub Keeps-bind :
      (m : Action E S A) (f : A → Action E S B)
      → Keeps view m
      → ((a : A) → Keeps view (f a))
      → Keeps view (m >>= f)
  Keeps-bind m f km kf = record { at = λ s. continue-Keeps (m s).0 f (m s).1 kf ∙ km.at s }

pub ruleset keeps_rules =
    (Keeps-pure, Keeps-fail, Keeps-lift, Keeps-if, Keeps-map_err, Keeps-attempt, Keeps-bind)

-- What an action may fail with, and that it does not panic.
abbrev pub Fails : {E A : Type 0} → (E → Type 0) → Result E A → Type 0
Fails P (ok a) = Unit
Fails P (err e) = P e
Fails P panicked = ⊥

pub record FailsWith {E S A : Type 0} (P : E → Type 0) (m : Action E S A) : Type 0 where
  pub at : (s : S) → Fails P (m s).0

module _ {E S A : Type 0} {P : E → Type 0} where
  pub FailsWith-pure : (a : A) → FailsWith P (pure {S = S} a)
  FailsWith-pure a = record { at = λ s. tt }

  pub FailsWith-fail : (e : E) → P e → FailsWith P (fail {S = S} {A = A} e)
  FailsWith-fail e h = record { at = λ s. h }

  pub FailsWith-if :
      (b : Bool) (m n : Action E S A)
      → FailsWith P m
      → FailsWith P n
      → FailsWith P (if b then m else n)
  FailsWith-if true m n km kn = km
  FailsWith-if false m n km kn = kn

  pub FailsWith-attempt : (m : Action E S A) → FailsWith P (attempt m)
  FailsWith-attempt m = record { at = λ s. tt }

map_result-Fails :
    {E A : Type 0} (P Q : E → Type 0) (f : E → E) (r : Result E A)
    → ((e : E) → P e → Q (f e))
    → Fails P r
    → Fails Q (map_result f r)
map_result-Fails P Q f (ok a) h k = tt
map_result-Fails P Q f (err e) h k = h e k
map_result-Fails P Q f panicked h k = k

module _ {E S A : Type 0} {P Q : E → Type 0} where
  pub FailsWith-map_err :
      (f : E → E) (m : Action E S A)
      → ((e : E) → P e → Q (f e))
      → FailsWith P m
      → FailsWith Q (map_err f m)
  FailsWith-map_err f m h km = record { at = λ s. map_result-Fails P Q f (m s).0 h (km.at s) }

module _ {E S A B : Type 0} {P : E → Type 0} where
  continue-Fails :
      (r : Result E A) (f : A → Action E S B) (s : S)
      → Fails P r
      → ((a : A) → FailsWith P (f a))
      → Fails P (continue r f s).0
  continue-Fails (ok a) f s h kf = (kf a).at s
  continue-Fails (err e) f s h kf = h
  continue-Fails panicked f s h kf = h

  pub FailsWith-bind :
      (m : Action E S A) (f : A → Action E S B)
      → FailsWith P m
      → ((a : A) → FailsWith P (f a))
      → FailsWith P (m >>= f)
  FailsWith-bind m f km kf = record { at = λ s. continue-Fails (m s).0 f (m s).1 (km.at s) kf }

-- What holds of the value that an action returns.
abbrev pub Holds : {E A : Type 0} → (A → Type 0) → Result E A → Type 0
Holds P (ok a) = P a
Holds P (err e) = Unit
Holds P panicked = Unit

pub Holds-imp :
    {E A : Type 0} {P Q : A → Type 0} (r : Result E A)
    → ((a : A) → P a → Q a)
    → Holds P r
    → Holds Q r
Holds-imp (ok a) h k = h a k
Holds-imp (err e) h k = tt
Holds-imp panicked h k = tt

pub record Gives {E S A : Type 0} (P : A → Type 0) (m : Action E S A) : Type 0 where
  pub at : (s : S) → Holds P (m s).0

module _ {E S A : Type 0} {P : A → Type 0} where
  pub Gives-pure : (a : A) → P a → Gives P (pure {E = E} {S = S} a)
  Gives-pure a h = record { at = λ s. h }

module _ {E S A B : Type 0} {P : B → Type 0} where
  continue-Holds :
      (r : Result E A) (f : A → Action E S B) (s : S)
      → ((a : A) → Gives P (f a))
      → Holds P (continue r f s).0
  continue-Holds (ok a) f s kf = (kf a).at s
  continue-Holds (err e) f s kf = tt
  continue-Holds panicked f s kf = tt

  pub Gives-bind :
      (m : Action E S A) (f : A → Action E S B) → ((a : A) → Gives P (f a)) → Gives P (m >>= f)
  Gives-bind m f kf = record { at = λ s. continue-Holds (m s).0 f (m s).1 kf }

module _ {E S A B : Type 0} {Q : A → Type 0} {P : B → Type 0} where
  continue-after :
      (r : Result E A) (f : A → Action E S B) (s : S)
      → Holds Q r
      → ((a : A) → Q a → Gives P (f a))
      → Holds P (continue r f s).0
  continue-after (ok a) f s h kf = (kf a h).at s
  continue-after (err e) f s h kf = tt
  continue-after panicked f s h kf = tt

  -- The same, where the rest relies on what the first part gives.
  pub Gives-after :
      (m : Action E S A) (f : A → Action E S B)
      → Gives Q m
      → ((a : A) → Q a → Gives P (f a))
      → Gives P (m >>= f)
  Gives-after m f km kf = record { at = λ s. continue-after (m s).0 f (m s).1 (km.at s) kf }
