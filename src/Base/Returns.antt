-- ===== src/Base/Returns.antt =====
-- What holds of a value that a call returns.
use Prim.Native.String.{String}
use mathlib.Core.Bool.{Bool, true, false}
use mathlib.Core.Path.{◌≡◌}
use elastic_agent_system_met.Base.Tests.{if◌then◌else◌}
use elastic_agent_system_met.Base.Outcome.{Result, ok, err, panic, ◌>>=◌, wrap_err}

-- What a call returns, if it returns, is `P`.
abbrev pub Returns : {A : Type 0} → (A → Type 0) → Result A → Type 0
Returns P (ok a) = P a
Returns P (err e) = Unit
Returns P panic = Unit

module _ {A : Type 0} (P : A → Type 0) where
  pub Returns-wrap_err : (s : String) (r : Result A) → Returns P r → Returns P (wrap_err s r)
  Returns-wrap_err s (ok a) h = h
  Returns-wrap_err s (err e) h = tt
  Returns-wrap_err s panic h = tt

  pub Returns-if :
      (b : Bool) (r r' : Result A) → Returns P r → Returns P r' → Returns P (if b then r else r')
  Returns-if true r r' h k = h
  Returns-if false r r' h k = k

  pub Returns-bind :
      {B : Type 0} (r : Result B) (g : B → Result A)
      → ((b : B) → Returns P (g b))
      → Returns P (r >>= g)
  Returns-bind (ok b) g h = h b
  Returns-bind (err e) g h = tt
  Returns-bind panic g h = tt

  pub Returns-then :
      {B : Type 0} (Q : B → Type 0) (r : Result B) (g : B → Result A)
      → Returns Q r
      → ((b : B) → Q b → Returns P (g b))
      → Returns P (r >>= g)
  Returns-then Q (ok b) g h k = k b h
  Returns-then Q (err e) g h k = tt
  Returns-then Q panic g h k = tt

-- The call ends without a panic.
abbrev pub NoPanic : {A : Type 0} → Result A → Type 0
NoPanic (ok a) = Unit
NoPanic (err e) = Unit
NoPanic panic = ⊥

module _ {A : Type 0} where
  pub NoPanic-wrap_err : (s : String) (r : Result A) → NoPanic r → NoPanic (wrap_err s r)
  NoPanic-wrap_err s (ok a) h = tt
  NoPanic-wrap_err s (err e) h = tt
  NoPanic-wrap_err s panic h = h

  pub NoPanic-if :
      (b : Bool) (r r' : Result A) → NoPanic r → NoPanic r' → NoPanic (if b then r else r')
  NoPanic-if true r r' h k = h
  NoPanic-if false r r' h k = k

  pub NoPanic-bind :
      {B : Type 0} (r : Result B) (g : B → Result A)
      → NoPanic r
      → ((b : B) → NoPanic (g b))
      → NoPanic (r >>= g)
  NoPanic-bind (ok b) g h k = k b
  NoPanic-bind (err e) g h k = tt
  NoPanic-bind panic g h k = h

  pub NoPanic-then :
      {B : Type 0} (Q : B → Type 0) (r : Result B) (g : B → Result A)
      → NoPanic r
      → Returns Q r
      → ((b : B) → Q b → NoPanic (g b))
      → NoPanic (r >>= g)
  NoPanic-then Q (ok b) g h q k = k b q
  NoPanic-then Q (err e) g h q k = tt
  NoPanic-then Q panic g h q k = h

-- A call whose error is wrapped, and that returned.
pub wrap_err-ok : {A : Type 0} (s : String) (r : Result A) {a : A} → wrap_err s r ≡ ok a → r ≡ ok a
wrap_err-ok s (ok x) e = e
wrap_err-ok s (err x) e = cc
wrap_err-ok s panic e = cc
