-- ===== src/Runtime.antt =====
-- What the program runs on: stateful operations that may fail, the operating system, and
-- internal/runtime/process/runner.go, which starts every program.
pub mod Process
use agent_orchestrator_publi.Base.{ap, ◌≡◌, refl, ℕ, ℤ, Option, List, Text, Bool}
use agent_orchestrator_publi.Base.Errors.{Error, Result, ok, err, wrapped}

-- A function that reads and changes the world `W` and returns a value and an error.
abbrev pub M : Type 0 → Type 0 → Type 0
M W A = W → Result A × W

-- `if err != nil { return fmt.Errorf("...: %w", err) }`
abbrev pub wrap_error : {A : Type 0} → Text → Result A → Result A
wrap_error what (ok a) = ok a
wrap_error what (err e) = err (wrapped what e)

module _ {W : Type 0} where
  abbrev pub pure : {A : Type 0} → A → M W A
  pure a w = (ok a, w)

  abbrev pub fails : {A : Type 0} → Error → M W A
  fails e w = (err e, w)

  -- A check that reads nothing of the world.
  abbrev pub lift : {A : Type 0} → Result A → M W A
  lift r w = (r, w)

  infixl 5 ◌>>=◌ ◌>>◌
  abbrev pub ◌>>=◌ : {A B : Type 0} → M W A → (A → M W B) → M W B
  ◌>>=◌ m f w = let (r, w') = m w in elim r [ ok a ↦ f a w' | err e ↦ (err e, w') ]

  abbrev pub ◌>>◌ : {B : Type 0} → M W (Unit {0}) → M W B → M W B
  m >> k = m >>= λ _. k

  -- `defer release()`, whose error is dropped.
  unfoldable pub releasing : {A : Type 0} → M W (Unit {0}) → M W A → M W A
  releasing release m w = let (r, w') = m w in (r, (release w').1)

  unfoldable pub wrapping : {A : Type 0} → Text → M W A → M W A
  wrapping what m w = let (r, w') = m w in (wrap_error what r, w')

-- Inversion: a chain that succeeds has succeeded at its first step.
pub >>=-ok :
    {W A B : Type 0} (m : M W A) (f : A → M W B) (w : W) {b : B} {w' : W}
    → (m >>= f) w ≡ (ok b, w')
    → (a : A) × (w₁ : W) × (m w ≡ (ok a, w₁)) × (f a w₁ ≡ (ok b, w'))
>>=-ok {W} {A} {B} m f w {b} {w'} h = go (m w) refl h
  where
    go :
        (r : Result A × W)
        → m w ≡ r
        → elim r.0 [ ok a ↦ f a r.1 | err e ↦ (err e, r.1) ] ≡ (ok b, w')
        → (a : A) × (w₁ : W) × (m w ≡ (ok a, w₁)) × (f a w₁ ≡ (ok b, w'))
    go (ok a, w₁) e h = (a, w₁, e, h)
    go (err x, w₁) e h = cc

pub releasing-ok :
    {W A : Type 0} (release : M W (Unit {0})) (m : M W A) (w : W) {a : A} {w' : W}
    → releasing release m w ≡ (ok a, w')
    → m w ≡ (ok a, (m w).1)
unfolding releasing
releasing-ok release m w h = ap (λ q. (q.0, (m w).1)) h

-- A program to start; its time limit is in seconds, and 0 or less is no limit.
pub record Spec : Type 0 where
  pub path : Text
  pub args : List Text
  pub dir : Text
  pub env : List (Text × Text)
  pub timeout : ℤ

-- A program that has ended: when it was started and when its end was noted, its output, its exit
-- code, and the error that waiting for it reports.
pub record Ended : Type 0 where
  pub started_at : ℕ
  pub finished_at : ℕ
  pub stdout : Text
  pub stderr : Text
  pub exit_code : ℤ
  pub wait_error : Option Text

-- Why a context is over.
pub data ContextEnd : Type 0 where
  deadline canceled : ContextEnd

-- How a program that was to be started fares under its context. Where the `select` has taken the end
-- of the program, the context may be over by the time that it is asked; where it has taken the end of
-- the context, the process group is killed, or was gone already, and the program is waited for. Of a
-- program that is not started the times of the try and of its failure are known, and of one that
-- cannot be killed the time of its start.
pub data Launch : Type 0 where
  not_started : ℕ → ℕ → Text → Launch
  waited : Ended → Option ContextEnd → Launch
  not_killed : ℕ → Text → Launch
  killed : ContextEnd → Ended → Launch

-- A file that is read to its end, is not there, cannot be opened, or breaks off in a read error.
pub data Reading : Type 0 where
  contents : Text → Reading
  absent : Text → Reading
  unopened : Text → Reading
  broken : Text → Text → Reading

-- What `os.Mkdir` reports.
pub data Made : Type 0 where
  made : Made
  existing : Made
  unmade : Text → Made

-- The calls of the operating system. `execute` is `exec.Command` with the environment as a list of
-- `KEY=value`, up to the end of its wait, with the times that the clock tells; a file that is
-- created stays open under its path. The random source fills 16 bytes; where it cannot, the process
-- ends and there is no next step.
pub record System (W : Type 0) : Type 0 where
  pub lookup_env : Text → W → Option Text
  pub now : M W ℕ
  pub pid : ℕ
  pub execute : Spec → List Text → W → Launch × W
  pub make_temp_dir : Text → M W Text
  pub mkdir_all : Text → M W (Unit {0})
  pub mkdir : Text → W → Made × W
  pub create_new : Text → M W (Unit {0})
  pub create_temp : Text → Text → M W Text
  pub open_append : Text → M W (Unit {0})
  pub open_dir : Text → M W (Unit {0})
  pub write : Text → Text → M W (Unit {0})
  pub sync : Text → M W (Unit {0})
  pub chmod : Text → M W (Unit {0})
  pub close : Text → M W (Unit {0})
  pub read : Text → W → Reading × W
  pub write_file : Text → Text → M W (Unit {0})
  pub rename : Text → Text → M W (Unit {0})
  pub remove : Text → M W (Unit {0})
  pub remove_all : Text → M W (Unit {0})
  pub random_bytes : W → Text × W
