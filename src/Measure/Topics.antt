-- ===== src/Measure/Topics.antt =====
-- Predicates on the topics of what a measurement puts, and how the parts of a measurement keep them.
pub mod Hosts
use mathlib.Core.Path.{subst}
use telemd.Base.{◌≡◌, Option, none, some, List, [], ◌∷◌, ◌++◌, Text, ◌>>=◌, All, All-append}
use telemd.Go.Strconv.{WithErr}
use telemd.Go.Float.{Floats}
use telemd.Host.{Moment, next}
use telemd.Measure.{Put, put_each, put_parsed}

-- Every topic that begins with a text.
abbrev pub Begins : (Text → Type 0) → Text → Type 0
Begins P kind = (rest : Text) → P (kind ++ rest)

module _ (F : Floats) (P : Text → Type 0) where
  abbrev pub AllTopics : List (Put F) → Type 0
  AllTopics = All (λ p. P p.0)

  -- Every topic of a measurement that does not panic.
  pub Topics : Option (List (Put F)) → Type 0
  Topics none = Unit
  Topics (some puts) = AllTopics puts

  pub some-Topics : (puts : List (Put F)) → AllTopics puts → Topics (some puts)
  unfolding Topics
  some-Topics puts h = h

  pub none-Topics : Topics none
  unfolding Topics
  none-Topics = tt

  pub Topics-AllTopics :
      {o : Option (List (Put F))} {puts : List (Put F)} → o ≡ some puts → Topics o → AllTopics puts
  Topics-AllTopics e h = unfold Topics in subst Topics e h

  pub bind-Topics {ℓ} :
      {A : Type ℓ} (o : Option A) (f : A → Option (List (Put F)))
      → ((a : A) → Topics (f a))
      → Topics (o >>= f)
  bind-Topics none f h = none-Topics
  bind-Topics (some a) f h = h a

  append-Topics :
      (o o' : Option (List (Put F)))
      → Topics o
      → Topics o'
      → Topics (o >>= λ puts. o' >>= λ rest. some (puts ++ rest))
  unfolding Topics
  append-Topics none o' h k = tt
  append-Topics (some puts) none h k = tt
  append-Topics (some puts) (some rest) h k = All-append (λ p. P p.0) puts rest h k

  pub put_each-Topics :
      (body : Moment → Text → Option (List (Put F)))
      → ((n : Moment) (x : Text) → Topics (body n x))
      → (m : Moment) (xs : List Text) → Topics (put_each F body m xs)
  unfolding put_each
  put_each-Topics body h m [] = some-Topics [] tt
  put_each-Topics body h m (x ∷ xs) =
      append-Topics (body m x) (put_each F body (next m) xs) (h m x)
        (put_each-Topics body h (next m) xs)

  pub put_parsed-AllTopics :
      (topic : Text) (r : WithErr F.Float) → P topic → AllTopics (put_parsed F topic r)
  unfolding put_parsed
  put_parsed-AllTopics topic (v, none) h = (h, tt)
  put_parsed-AllTopics topic (v, some err) h = tt
