-- ===== src/Prelude/Action.antt =====
-- A Go call that may return an error and that changes the state that it works on. What was written
-- before an error stays written.
use Prim.Native.String.{String}
use mathlib.Core.Path.{◌≡◌, refl, ap, sym, subst}
use mathlib.Core.Bool.{Bool, true, false}
use vaultnuban.Prelude.Text.{concat}

-- `errors.New` and `fmt.Errorf`, `fmt.Errorf("…: %w")`, and the error types of the services.
pub data Error : Type 0 where
  message : String → Error
  wrapped : String → Error → Error
  validation_error : String → String → Error
  not_found_error : String → String → Error
  state_error : String → String → Error

-- `err.Error()`
unfoldable pub error_text : Error → String
error_text (message m) = m
error_text (wrapped label e) = concat label (concat ": " (error_text e))
error_text (validation_error field detail) =
    concat "validation error on " (concat field (concat ": " detail))
error_text (not_found_error entity id) = concat entity (concat " not found: " id)
error_text (state_error current target) =
    concat "invalid state transition: " (concat current (concat " → " target))

pub data Result (A : Type 0) : Type 0 where
  ok : A → Result A
  err : Error → Result A

abbrev pub M : Type 0 → Type 0 → Type 0
M W A = W → Result A × W

module _ {W A : Type 0} where
  abbrev pub pure : A → M W A
  pure a w = (ok a, w)

  abbrev pub fail : Error → M W A
  fail e w = (err e, w)

  -- A call that only reads.
  abbrev pub gets : (W → A) → M W A
  gets f w = (ok (f w), w)

  abbrev pub of_result : Result A → M W A
  of_result r w = (r, w)

  -- `if err != nil { return fmt.Errorf("label: %w", err) }`
  abbrev pub or_wrap : String → M W A → M W A
  or_wrap label m w =
      let (r, w') = m w in elim r [ ok a ↦ (ok a, w') | err e ↦ (err (wrapped label e), w') ]

  -- A call whose error the caller looks at.
  abbrev pub attempt : M W A → M W (Result A)
  attempt m w = let (r, w') = m w in (ok r, w')

  -- `_ = call()`: the error is dropped.
  abbrev pub ignoring : M W A → M W (Unit {0})
  ignoring m w = let (r, w') = m w in (ok tt, w')

infixl 5 ◌>>=◌ ◌>>◌
abbrev pub ◌>>=◌ : {W A B : Type 0} → M W A → (A → M W B) → M W B
◌>>=◌ m f w = let (r, w') = m w in elim r [ ok a ↦ f a w' | err e ↦ (err e, w') ]

abbrev pub ◌>>◌ : {W B : Type 0} → M W (Unit {0}) → M W B → M W B
m >> k = m >>= λ _. k

-- `if bad { return err }`
abbrev pub guard : {W : Type 0} → Bool → Error → M W (Unit {0})
guard true e = pure tt
guard false e = fail e

-- The outcome of a call without its value.
abbrev pub void : {A : Type 0} → Result A → Result (Unit {0})
void (ok _) = ok tt
void (err e) = err e

-- Two calls that begin alike end alike if their continuations do.
pub >>=-void :
    {W A B : Type 0} (m : M W A) (f : A → M W (Unit {0})) (g : A → M W B) (w : W)
    → ((a : A) (w : W) → f a w ≡ (void (g a w).0, (g a w).1))
    → (m >>= f) w ≡ (void ((m >>= g) w).0, ((m >>= g) w).1)
>>=-void {W} {A} m f g w h = go (m w)
  where
    go :
        (q : Result A × W)
        → ◌>>=◌ (λ _. q) f w ≡ (void (◌>>=◌ (λ _. q) g w).0, (◌>>=◌ (λ _. q) g w).1)
    go (ok a, w') = h a w'
    go (err e, w') = refl

module _ {W A B : Type 0} where
  -- A call that succeeds hands over its value and the state that it leaves.
  pub >>=-ok :
      (m : M W A) (f : A → M W B) (w : W) {a : A} {w' : W} → m w ≡ (ok a, w') → (m >>= f) w ≡ f a w'
  >>=-ok m f w e = ap (λ q. ◌>>=◌ (λ (_ : W). q) f w) e

  pub >>=-err :
      (m : M W A) (f : A → M W B) (w : W) {x : Error} {w' : W}
      → m w ≡ (err x, w')
      → (m >>= f) w ≡ (err x, w')
  >>=-err m f w e = ap (λ q. ◌>>=◌ (λ (_ : W). q) f w) e

module _ {W A : Type 0} where
  pub or_wrap-ok :
      (label : String) (m : M W A) (w : W) {a : A} {w' : W}
      → m w ≡ (ok a, w')
      → or_wrap label m w ≡ (ok a, w')
  or_wrap-ok label m w e = ap (λ q. or_wrap label (λ (_ : W). q) w) e

  pub or_wrap-err :
      (label : String) (m : M W A) (w : W) {x : Error} {w' : W}
      → m w ≡ (err x, w')
      → or_wrap label m w ≡ (err (wrapped label x), w')
  or_wrap-err label m w e = ap (λ q. or_wrap label (λ (_ : W). q) w) e

-- A call that keeps a property of the state, however it ends.
abbrev pub Keeps {ℓ} : {W A : Type 0} → (W → Type ℓ) → M W A → Type ℓ
Keeps P m = (w : _) → P w → P (m w).1

module _ {ℓ} {W : Type 0} (P : W → Type ℓ) where
  pub Keeps-bind :
      {A B : Type 0} (m : M W A) (f : A → M W B)
      → Keeps P m
      → ((a : A) → Keeps P (f a))
      → Keeps P (m >>= f)
  Keeps-bind {A} {B} m f hm hf w h = go (m w) (hm w h)
    where
      go : (q : Result A × W) → P q.1 → P (◌>>=◌ (λ (_ : W). q) f w).1
      go (ok a, w') h' = hf a w' h'
      go (err e, w') h' = h'

  pub Keeps-or_wrap :
      {A : Type 0} (label : String) (m : M W A) → Keeps P m → Keeps P (or_wrap label m)
  Keeps-or_wrap {A} label m hm w h = go (m w) (hm w h)
    where
      go : (q : Result A × W) → P q.1 → P (or_wrap label (λ (_ : W). q) w).1
      go (ok a, w') h' = h'
      go (err e, w') h' = h'

  pub Keeps-guard : (b : Bool) (e : Error) → Keeps P (guard {W = W} b e)
  Keeps-guard true e w h = h
  Keeps-guard false e w h = h

  -- A call that only reads.
  pub Keeps-reads : {A : Type 0} (m : M W A) → ((w : W) → (m w).1 ≡ w) → Keeps P m
  Keeps-reads m reads w h = subst P (sym (reads w)) h
