-- ===== src/Orchestrator/Exits.antt =====
-- The ways in which the body of `Engine.Run` returns, and its deferred calls. `left` is an early
-- return, and `kept` is one after `preserveWriter = true`.
pub mod Going
use agent_orchestrator_publi.Base.{Option, none, some, Text}
use agent_orchestrator_publi.Base.Errors.{Error, Result, ok, err}
use agent_orchestrator_publi.Runtime.{M}
use agent_orchestrator_publi.Store.{RunStore}
use agent_orchestrator_publi.Orchestrator.{Run, empty_run, failed, recovery_required}

pub data Exit (A : Type 0) : Type 0 where
  going : A → Exit A
  left : Run → Error → Exit A
  kept : Run → Error → Exit A

abbrev pub E : Type 0 → Type 0 → Type 0
E W A = W → Exit A × W

module _ {W : Type 0} where
  infixl 5 ◌>>=◌ ◌>>◌
  unfoldable pub ◌>>=◌ : {A B : Type 0} → E W A → (A → E W B) → E W B
  ◌>>=◌ m f w =
      let (r, w') = m w in
      elim r [ going a ↦ f a w' | left run e ↦ (left run e, w') | kept run e ↦ (kept run e, w') ]

  abbrev pub ◌>>◌ : {B : Type 0} → E W (Unit {0}) → E W B → E W B
  m >> k = m >>= λ _. k

  abbrev pub going_on : {A : Type 0} → A → E W A
  going_on a w = (going a, w)

  -- `if err != nil { return Run{}, err }`
  unfoldable pub bare : {A : Type 0} → M W A → E W A
  bare m w = let (r, w') = m w in (elim r [ ok a ↦ going a | err e ↦ left empty_run e ], w')

  -- `defer cleanup()`, whose error is dropped.
  unfoldable pub finally : {A B : Type 0} → M W B → E W A → E W A
  finally cleanup m w = let (r, w') = m w in let (_, w'') = cleanup w' in (r, w'')

  -- The deferred removal of the writer's worktree, `if !preserveWriter`.
  unfoldable pub unless_kept : {A B : Type 0} → M W B → E W A → E W A
  unless_kept cleanup m w =
      let (r, w') = m w in
      let cleaned = (cleanup w').1 in
      elim r [
        | going a ↦ (going a, cleaned)
        | left run e ↦ (left run e, cleaned)
        | kept run e ↦ (kept run e, w')
      ]

  -- The two results of the function.
  unfoldable pub returned : E W Run → W → (Run × Option Error) × W
  returned m w =
      let (r, w') = m w in
      (
        elim r [
          | going run ↦ (run, none)
          | left run e ↦ (run, some e)
          | kept run e ↦ (run, some e)
        ],
        w',
      )

module _ {W : Type 0} (store : RunStore W Run) (run : Run) where
  -- `if err != nil { return e.failed(fileStore, run, err) }`
  unfoldable pub or_failed : {A : Type 0} → M W A → E W A
  or_failed m w =
      let (r, w') = m w in
      elim r [
        | ok a ↦ (going a, w')
        | err e ↦ let (out, w'') = failed store run e w' in (left out.0 out.1, w'')
      ]

  -- `if err != nil { preserveWriter = true; return e.recoveryRequired(...) }`
  unfoldable pub or_recovery : {A : Type 0} → Text → M W A → E W A
  or_recovery writer_dir m w =
      let (r, w') = m w in
      elim r [
        | ok a ↦ (going a, w')
        | err e ↦
            let (out, w'') = recovery_required store run writer_dir e w' in (kept out.0 out.1, w'')
      ]
