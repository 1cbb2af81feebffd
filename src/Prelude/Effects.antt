-- ===== src/Prelude/Effects.antt =====
-- Code that calls out: what it returns, the calls it makes in order, and the world after them.
use mathlib.Core.Path.{◌≡◌, refl, ap}
use mathlib.Core.List.{List, [], ◌∷◌, ◌++◌, append-nil}
use mathlib.Core.Option.{Option, none, some}
use verkkokyyla.Prelude.Results.{Result, ok, err}

-- `none`: a loop ran out of fuel.
pub record Outcome (E C W A : Type 0) : Type 0 where
  pub result : Option (Result E A)
  pub calls : List C
  pub world : W

abbrev pub Effect : Type 0 → Type 0 → Type 0 → Type 0 → Type 0
Effect E C W A = W → Outcome E C W A

-- Every element has the property.
abbrev pub All : {A : Type 0} → (A → Type 0) → List A → Type 0
All P [] = Unit
All P (x ∷ xs) = P x × All P xs

pub All-append :
    {A : Type 0} (P : A → Type 0) (xs ys : List A) → All P xs → All P ys → All P (xs ++ ys)
All-append P [] ys p q = q
All-append P (x ∷ xs) ys (p, ps) q = (p, All-append P xs ys ps q)

-- There is a result: no loop ran out of fuel.
abbrev pub Ends : {E A : Type 0} → Option (Result E A) → Type 0
Ends {E = E} {A = A} o = (r : Result E A) × (o ≡ some r)

module _ {E C W : Type 0} where
  abbrev pub ret : {A : Type 0} → A → Effect E C W A
  ret a w = record { result = some (ok a); calls = []; world = w }

  abbrev pub raise : {A : Type 0} → E → Effect E C W A
  raise e w = record { result = some (err e); calls = []; world = w }

  -- A value that depends on the world only.
  abbrev pub inspect : {A : Type 0} → (W → Result E A) → Effect E C W A
  inspect f w = record { result = some (f w); calls = []; world = w }

  -- One call, with its answer.
  abbrev pub call : {A : Type 0} → (Result E A → C) → (W → Result E A × W) → Effect E C W A
  call c f w = record { result = some ((f w).0); calls = c (f w).0 ∷ []; world = (f w).1 }

  -- One call, whose failure is a value.
  abbrev pub attempt :
      {A F : Type 0} → (Result F A → C) → (W → Result F A × W) → Effect E C W (Result F A)
  attempt c f w = record { result = some (ok (f w).0); calls = c (f w).0 ∷ []; world = (f w).1 }

  -- What is left to do after a result.
  abbrev pub proceed : {A B : Type 0} → Option (Result E A) → (A → Effect E C W B) → Effect E C W B
  proceed none f w = record { result = none; calls = []; world = w }
  proceed (some (err e)) f w = record { result = some (err e); calls = []; world = w }
  proceed (some (ok a)) f w = f a w

  -- The `?` operator.
  infixl 5 ◌>>=◌
  unfoldable pub ◌>>=◌ : {A B : Type 0} → Effect E C W A → (A → Effect E C W B) → Effect E C W B
  ◌>>=◌ m f w =
      let o = m w in
      let p = proceed o.result f o.world in
      record { result = p.result; calls = o.calls ++ p.calls; world = p.world }

  infixl 5 ◌>>◌
  abbrev pub ◌>>◌ : {B : Type 0} → Effect E C W (Unit {0}) → Effect E C W B → Effect E C W B
  m >> k = m >>= λ _. k

  -- Every call that is ever made has the property.
  abbrev pub Calls : {A : Type 0} → (C → Type 0) → Effect E C W A → Type 0
  Calls P m = (w : W) → All P (m w).calls

  pub >>=-All :
      {A B : Type 0} (P : C → Type 0) (m : Effect E C W A) (f : A → Effect E C W B) (w : W)
      → All P (m w).calls
      → ((a : A) → (m w).result ≡ some (ok a) → All P (f a (m w).world).calls)
      → All P ((m >>= f) w).calls
  unfolding ◌>>=◌
  >>=-All {A = A} P m f w h k =
      All-append P (m w).calls (proceed (m w).result f (m w).world).calls h (at (m w).result refl)
    where
      at : (r : Option (Result E A)) → (m w).result ≡ r → All P (proceed r f (m w).world).calls
      at none e = tt
      at (some (err x)) e = tt
      at (some (ok a)) e = k a e

  pub >>=-Calls :
      {A B : Type 0} (P : C → Type 0) (m : Effect E C W A) (f : A → Effect E C W B)
      → Calls P m
      → ((a : A) → Calls P (f a))
      → Calls P (m >>= f)
  >>=-Calls P m f h k w = >>=-All P m f w (h w) (λ a e. k a (m w).world)

  pub >>=-Ends :
      {A B : Type 0} (m : Effect E C W A) (f : A → Effect E C W B) (w : W)
      → Ends (m w).result
      → ((a : A) → (m w).result ≡ some (ok a) → Ends (f a (m w).world).result)
      → Ends ((m >>= f) w).result
  unfolding ◌>>=◌
  >>=-Ends {A = A} m f w h k = at (m w).result refl h
    where
      at :
          (o : Option (Result E A))
          → (m w).result ≡ o
          → Ends o
          → Ends (proceed o f (m w).world).result
      at none e (r, h) = absurd cc
      at (some (err x)) e h = (err x, refl)
      at (some (ok a)) e h = k a e

  -- A chain that ends well: its first part did, and so did the rest.
  pub >>=-ok :
      {A B : Type 0} (m : Effect E C W A) (f : A → Effect E C W B) (w : W) (b : B)
      → ((m >>= f) w).result ≡ some (ok b)
      → (a : A) × ((m w).result ≡ some (ok a))
        × ((f a (m w).world).result ≡ some (ok b))
        × (((m >>= f) w).calls ≡ (m w).calls ++ (f a (m w).world).calls)
  unfolding ◌>>=◌
  >>=-ok {A = A} m f w b h = at (m w).result refl h
    where
      at :
          (o : Option (Result E A))
          → (m w).result ≡ o
          → (proceed o f (m w).world).result ≡ some (ok b)
          → (a : A) × ((m w).result ≡ some (ok a))
            × ((f a (m w).world).result ≡ some (ok b))
            × ((m w).calls ++ (proceed (m w).result f (m w).world).calls
                ≡ (m w).calls ++ (f a (m w).world).calls)
      at none e h = absurd cc
      at (some (err x)) e h = absurd (cc h)
      at (some (ok a)) e h = (a, e, h, ap (λ r. (m w).calls ++ (proceed r f (m w).world).calls) e)

  -- A chain whose first part ends well and whose second part calls nothing.
  pub >>=-quiet :
      {A B : Type 0} (m : Effect E C W A) (f : A → Effect E C W B) (w : W) (a : A)
      → (m w).result ≡ some (ok a)
      → (f a (m w).world).calls ≡ []
      → (((m >>= f) w).result ≡ (f a (m w).world).result) × (((m >>= f) w).calls ≡ (m w).calls)
  unfolding ◌>>=◌
  >>=-quiet m f w a e h = rw e (refl, rw h (append-nil (m w).calls))
