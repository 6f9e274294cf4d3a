-- ===== src/Store/Disk/Paths.antt =====
-- The files of a run lie under different paths.
use agent_orchestrator_publi.Base.{
  ℕ, ◌<◌, ◌≡◌, ◌≢◌, refl, ap, false, ◌==◌, [], ◌∷◌, ◌++◌, Text, codes, any, arith,
}
use agent_orchestrator_publi.FilePath.Split.{Lacks}
use agent_orchestrator_publi.FilePath.Clean.{slash, element, join_path}
use agent_orchestrator_publi.FilePath.Last.{last_byte, last_byte-join_path}
use agent_orchestrator_publi.Store.Disk.{AllDigits}

no_slash : (s : Text) → any (λ c. c == slash) s ≡ false → Lacks slash s
unfolding any
no_slash [] h = tt
no_slash (c ∷ s) h = (ground arith, no_slash s (ground arith))

pub last_byte-state : (dir : Text) → last_byte (join_path dir (codes "state.json")) ≡ b'n'
unfolding last_byte element any
last_byte-state dir =
    last_byte-join_path b's' (codes "tate.json") (no_slash (codes "state.json") refl) refl dir

pub last_byte-events : (dir : Text) → last_byte (join_path dir (codes "events.jsonl")) ≡ b'l'
unfolding last_byte element any
last_byte-events dir =
    last_byte-join_path b'e' (codes "vents.jsonl") (no_slash (codes "events.jsonl") refl) refl dir

digits-Lacks : (s : Text) → AllDigits s → Lacks slash s
digits-Lacks [] a = tt
digits-Lacks (c ∷ s) a = (ground (arith, a.0), digits-Lacks s a.1)

last_digit : (c : ℕ) (s : Text) → c < 58 → AllDigits s → last_byte (c ∷ s) < 58
unfolding last_byte
last_digit c [] h a = h
last_digit c (d ∷ s) h a = last_digit d s (ground (arith, a.0)) a.1

pub last_byte-temp :
    (dir digits : Text)
    → AllDigits digits
    → last_byte (join_path dir (codes ".state-" ++ digits)) < 58
unfolding last_byte element any
last_byte-temp dir digits a =
    rw
      (last_byte-join_path b'.' (codes "state-" ++ digits)
        (refl, (refl, (refl, (refl, (refl, (refl, (refl, digits-Lacks digits a))))))) refl dir)
      (last_digit b'-' digits (omega arith) a)

pub state-ne-events :
    (dir : Text) → join_path dir (codes "state.json") ≢ join_path dir (codes "events.jsonl")
state-ne-events dir e =
    absurd (omega (arith, ap last_byte e, last_byte-state dir, last_byte-events dir))

pub temp-ne-state :
    (dir digits : Text)
    → AllDigits digits
    → join_path dir (codes ".state-" ++ digits) ≢ join_path dir (codes "state.json")
temp-ne-state dir digits a e =
    absurd (omega (arith, ap last_byte e, last_byte-state dir, last_byte-temp dir digits a))

pub temp-ne-events :
    (dir digits : Text)
    → AllDigits digits
    → join_path dir (codes ".state-" ++ digits) ≢ join_path dir (codes "events.jsonl")
temp-ne-events dir digits a e =
    absurd (omega (arith, ap last_byte e, last_byte-events dir, last_byte-temp dir digits a))
