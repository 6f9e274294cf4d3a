-- ===== src/Store/Log.antt =====
-- `ReadEvents` of internal/store/file.go on the bytes of a log: lines as `bufio.Scanner` cuts them,
-- one event on each.
pub mod Grown
use agent_orchestrator_publi.Base.{
  ℕ, Bool, true, false, ◌==◌, ltb, if◌then◌else◌, List, [], ◌∷◌, ◌++◌, Text, codes, length,
  is_empty,
}
use agent_orchestrator_publi.Base.Errors.{
  Error, Result, ok, err, ◌>>=◌, ◌>>◌, require, wrapped, external,
}
use agent_orchestrator_publi.Runtime.{wrap_error}
use agent_orchestrator_publi.Store.{Event, Codec}

abbrev pub newline : ℕ
newline = 10

-- The whole lines of a text, and what follows the last newline.
unfoldable pub cut : Text → List Text × Text
cut [] = ([], [])
cut (c ∷ s) =
    let (lines, rest) = cut s in
    if c == newline
    then ([] ∷ lines, rest)
    else elim lines [ [] ↦ ([], c ∷ rest) | l ∷ ls ↦ ((c ∷ l) ∷ ls, rest) ]

-- A carriage return at the end of a line is dropped.
unfoldable pub drop_cr : Text → Text
drop_cr [] = []
drop_cr (c ∷ []) = if c == 13 then [] else c ∷ []
drop_cr (c ∷ d ∷ s) = c ∷ drop_cr (d ∷ s)

-- The last line counts without a newline too, if it has a byte.
abbrev pub tokens : List Text × Text → List Text
tokens (lines, []) = lines
tokens (lines, c ∷ rest) = lines ++ ((c ∷ rest) ∷ [])

-- The buffer of a `Scanner` holds 64 KiB (`MaxScanTokenSize`): a line that fills it is refused.
abbrev pub line_limit : ℕ
line_limit = 65536

module _ {S : Type 0} (codec : Codec S) where
  unfoldable pub decode_line : Text → Result Event
  decode_line line = do
    require (ltb (length line) line_limit)
        (wrapped (codes "scan event log") (external (codes "bufio.Scanner: token too long")))
    wrap_error (codes "decode event") (codec.unmarshal_event (drop_cr line))

  -- The loop over the lines.
  unfoldable pub decode_lines : List Text → Result (List Event)
  decode_lines [] = ok []
  decode_lines (line ∷ lines) = do e ← decode_line line; es ← decode_lines lines; ok (e ∷ es)

  unfoldable pub decode_events : Text → Result (List Event)
  unfolding decode_lines cut
  decode_events bytes = decode_lines (tokens (cut bytes))
