-- ===== src/Store/Disk.antt =====
-- What the store relies on of the operating system: what its calls do to the bytes of a file. A call
-- that fails may have had a part of its effect.
pub mod Rules
pub mod Paths
pub mod States
pub mod Appends
pub mod Written
use agent_orchestrator_publi.Base.{
  ℕ, ◌≡◌, ◌≢◌, ◌⊎◌, Option, none, some, List, [], ◌∷◌, ◌++◌, Text, codes, true, ltb, ◌&&◌, All,
}
use agent_orchestrator_publi.Base.Errors.{Error, Result, ok, err}
use agent_orchestrator_publi.FilePath.Clean.{join_path}
use agent_orchestrator_publi.Runtime.{M, Reading, contents, absent, System}

abbrev pub or_empty : Option Text → Text
or_empty none = []
or_empty (some bytes) = bytes

abbrev pub AllDigits : Text → Type 0
AllDigits s = All (λ c. (ltb 47 c && ltb c 58) ≡ true) s

module _ {W : Type 0} (content : Text → W → Option Text) where
  -- An operation that changes the bytes of no file, or of no other file.
  abbrev pub Still : {A : Type 0} → (W → A × W) → Type 0
  Still m = (p : Text) (w : W) → content p (m w).1 ≡ content p w

  abbrev pub StillBut : {A : Type 0} → Text → (W → A × W) → Type 0
  StillBut q m = (p : Text) (w : W) → p ≢ q → content p (m w).1 ≡ content p w

pub record Disk {W : Type 0} (sys : System W) : Type 0 where
  pub content : Text → W → Option Text
  pub mkdir_all : (d : Text) → Still content (sys.mkdir_all d)
  pub open_dir : (d : Text) → Still content (sys.open_dir d)
  pub sync : (p : Text) → Still content (sys.sync p)
  pub chmod : (p : Text) → Still content (sys.chmod p)
  pub close : (p : Text) → Still content (sys.close p)
  pub read : (p : Text) → Still content (sys.read p)
  pub remove : (p : Text) → StillBut content p (sys.remove p)
  pub write : (p b : Text) → StillBut content p (sys.write p b)
  pub open_append : (p : Text) → StillBut content p (sys.open_append p)
  pub read_contents :
      (p b : Text) (w w' : W) → sys.read p w ≡ (contents b, w') → content p w ≡ some b
  pub read_absent : (p m : Text) (w w' : W) → sys.read p w ≡ (absent m, w') → content p w ≡ none
  -- A file is written at its end: it has just been created, or is open for appending.
  pub written :
      (p b c : Text) (w w' : W)
      → content p w ≡ some c
      → sys.write p b w ≡ (ok tt, w')
      → content p w' ≡ some (c ++ b)
  pub written_part :
      (p b c : Text) (w w' : W) (x : Error)
      → content p w ≡ some c
      → sys.write p b w ≡ (err x, w')
      → (b₁ b₂ : Text) × (b₁ ++ b₂ ≡ b) × (content p w' ≡ some (c ++ b₁))
  pub opened :
      (p : Text) (w w' : W)
      → sys.open_append p w ≡ (ok tt, w')
      → content p w' ≡ some (or_empty (content p w))
  pub not_opened :
      (p : Text) (w w' : W) (x : Error)
      → sys.open_append p w ≡ (err x, w')
      → (content p w' ≡ content p w) ⊎ (content p w' ≡ some (or_empty (content p w)))
  -- The last `*` of the pattern is replaced by digits.
  pub temporary :
      (dir prefix t : Text) (w w' : W)
      → sys.create_temp dir (prefix ++ codes "*") w ≡ (ok t, w')
      → (content t w' ≡ some [])
        × ((p : Text) → p ≢ t → content p w' ≡ content p w)
        × ((digits : Text) × AllDigits digits × (t ≡ join_path dir (prefix ++ digits)))
  pub not_temporary :
      (dir pattern : Text) (w w' : W) (x : Error)
      → sys.create_temp dir pattern w ≡ (err x, w')
      → (p : Text) → content p w' ≡ content p w
  pub renamed :
      (old new : Text) (w w' : W)
      → sys.rename old new w ≡ (ok tt, w')
      → content new w' ≡ content old w
  pub not_renamed :
      (old new : Text) (w w' : W) (x : Error)
      → sys.rename old new w ≡ (err x, w')
      → (content new w' ≡ content new w) ⊎ (content new w' ≡ content old w)
  pub rename :
      (old new p : Text) (w : W)
      → p ≢ old
      → p ≢ new
      → content p (sys.rename old new w).1 ≡ content p w
