-- ===== src/Tests/Files.antt =====
-- A small world of files and directories that obeys the laws that the file store relies on.
use mathlib.Core.Option.{some-injective, none-ne-some}
use agent_orchestrator_publi.Base.{
  ◌≡◌, ◌≢◌, refl, sym, ap, ◌∙◌, ◌⊎◌, inl, Bool, true, false, if◌then◌else◌, Option, none, some, [],
  ◌∷◌, ◌++◌, Text, codes, text_eq, text_eq_iff, arith,
}
use agent_orchestrator_publi.Base.Errors.{Error, Result, ok, err, external}
use agent_orchestrator_publi.FilePath.Clean.{join_path}
use agent_orchestrator_publi.Runtime.{Reading, contents, absent, Made, made, existing, System}
use agent_orchestrator_publi.Store.Disk.{or_empty, Disk}
use agent_orchestrator_publi.Store.Lock.Acquired.{Directories}
use agent_orchestrator_publi.Tests.World

pub record FileWorld : Type 0 where
  pub files : Text → Option Text
  pub dirs : Text → Bool

-- A function changed at one place.
abbrev pub set : {A : Type 0} → Text → A → (Text → A) → Text → A
set p a f q = if text_eq q p then a else f q

pub set_same : {A : Type 0} (p : Text) (a : A) (f : Text → A) → set p a f p ≡ a
set_same p a f = ground (arith, text_eq_iff p p)

pub set_other : {A : Type 0} (p q : Text) (a : A) (f : Text → A) → q ≢ p → set p a f q ≡ f q
set_other p q a f n = ground (arith, text_eq_iff q p)

abbrev pub put : Text → Option Text → FileWorld → FileWorld
put p o w = record w { files = set p o w.files }

abbrev without_last : Text → Text
without_last [] = []
without_last (c ∷ []) = []
without_last (c ∷ d ∷ s) = c ∷ without_last (d ∷ s)

pub without_last-star : (s : Text) → without_last (s ++ codes "*") ≡ s
without_last-star [] = refl
without_last-star (c ∷ []) = refl
without_last-star (c ∷ d ∷ s) = ap (λ t. c ∷ t) (without_last-star (d ∷ s))

abbrev pub write_at : Text → Text → Option Text → FileWorld → Result (Unit {0}) × FileWorld
write_at p b none w = (err (external []), w)
write_at p b (some c) w = (ok tt, put p (some (c ++ b)) w)

abbrev rename_to : Text → Text → Option Text → FileWorld → Result (Unit {0}) × FileWorld
rename_to old new none w = (err (external []), w)
rename_to old new (some c) w = (ok tt, put new (some c) (put old none w))

abbrev pub mkdir_at : Text → Bool → FileWorld → Made × FileWorld
mkdir_at p true w = (existing, w)
mkdir_at p false w = (made, record w { dirs = set p true w.dirs })

abbrev reading : Option Text → Reading
reading none = absent []
reading (some b) = contents b

abbrev pub file_sys : System FileWorld
file_sys = record {
  lookup_env = λ key w. none;
  now = λ w. (ok 7, w);
  pid = 42;
  execute = λ spec env w. (World.ended_well (World.answer spec.args), w);
  make_temp_dir = λ name w. (ok (codes "/tmp/x"), w);
  mkdir_all = λ path w. (ok tt, w);
  mkdir = λ p w. mkdir_at p (w.dirs p) w;
  create_new = λ p w. (ok tt, put p (some []) w);
  create_temp = λ dir pattern w.
      let t = join_path dir (without_last pattern ++ codes "7") in (ok t, put t (some []) w);
  open_append = λ p w. (ok tt, put p (some (or_empty (w.files p))) w);
  open_dir = λ path w. (ok tt, w);
  write = λ p b w. write_at p b (w.files p) w;
  sync = λ path w. (ok tt, w);
  chmod = λ path w. (ok tt, w);
  close = λ path w. (ok tt, w);
  read = λ p w. (reading (w.files p), w);
  write_file = λ p b w. (ok tt, put p (some b) w);
  rename = λ old new w. rename_to old new (w.files old) w;
  remove = λ p w. (ok tt, put p none w);
  remove_all = λ p w. (ok tt, record w { dirs = set p false w.dirs });
  random_bytes = λ w. (1 ∷ 2 ∷ [], w);
}

pub done :
    {A : Type 0} {a : A} {w w' : FileWorld} {x : Error}
    → ◌≡◌ {A = Result A × FileWorld} (ok a, w) (err x, w')
    → ⊥
done p = cc (ap (λ q. q.0) p)

abbrev pub file_disk : Disk file_sys
file_disk = record {
  content = λ p w. w.files p;
  mkdir_all = λ d p w. refl;
  open_dir = λ d p w. refl;
  sync = λ d p w. refl;
  chmod = λ d p w. refl;
  close = λ d p w. refl;
  read = λ d p w. refl;
  remove = λ q p w n. set_other q p none w.files n;
  write = λ q b p w n. written_but q b p w n (w.files q);
  open_append = λ q p w n. set_other q p (some (or_empty (w.files q))) w.files n;
  read_contents = λ p b w w' h. was_read p b w w' (w.files p) h;
  read_absent = λ p m w w' h. was_absent p m w w' (w.files p) h;
  written = λ p b c w w' q h. was_written p b c w w' (w.files p) q h;
  written_part = λ p b c w w' x q h. absurd (was_part p b c w w' x (w.files p) q h);
  opened =
      λ p w w' h. ap (λ v. v.1.files p) (sym h) ∙ set_same p (some (or_empty (w.files p))) w.files;
  not_opened = λ p w w' x h. absurd (done h);
  temporary = λ dir prefix t w w' h.
      let (named, found, kept) =
        made_temp (join_path dir (without_last (prefix ++ codes "*") ++ codes "7")) t w w' h in
      (
        found,
        kept,
        (
          codes "7",
          (refl, tt),
          named ∙ ap (λ s. join_path dir (s ++ codes "7")) (without_last-star prefix),
        ),
      );
  not_temporary = λ dir pattern w w' x h. absurd (done h);
  renamed = λ old new w w' h. was_renamed old new w w' (w.files old) refl h;
  not_renamed = λ old new w w' x h. not_moved old new w w' x (w.files old) h;
  rename = λ old new p w n m. renamed_but old new p w n m (w.files old);
}
  where
    made_temp :
        (t₀ t : Text) (w w' : FileWorld)
        → ◌≡◌ {A = Result Text × FileWorld} (ok t₀, put t₀ (some []) w) (ok t, w')
        → (t ≡ t₀) × (w'.files t ≡ some []) × ((p : Text) → p ≢ t → w'.files p ≡ w.files p)
    made_temp t₀ t w w' h =
        let e : t ≡ t₀ = cc (ap (λ v. v.0) h) in
        (
          e,
          ap (λ v. v.1.files t) (sym h)
              ∙ ap (λ q. set t₀ (some []) w.files q) e
              ∙ set_same t₀ (some []) w.files,
          λ p n.
              ap (λ v. v.1.files p) (sym h) ∙ set_other t₀ p (some []) w.files (λ q. n (q ∙ sym e)),
        )

    written_but :
        (q b p : Text) (w : FileWorld)
        → p ≢ q
        → (o : Option Text) → (write_at q b o w).1.files p ≡ w.files p
    written_but q b p w n none = refl
    written_but q b p w n (some c) = set_other q p (some (c ++ b)) w.files n

    was_read :
        (p b : Text) (w w' : FileWorld) (o : Option Text)
        → ◌≡◌ {A = Reading × FileWorld} (reading o, w) (contents b, w')
        → o ≡ some b
    was_read p b w w' none h = absurd (cc (ap (λ v. v.0) h))
    was_read p b w w' (some c) h = cc (ap (λ v. v.0) h)

    was_absent :
        (p m : Text) (w w' : FileWorld) (o : Option Text)
        → ◌≡◌ {A = Reading × FileWorld} (reading o, w) (absent m, w')
        → o ≡ none
    was_absent p m w w' none h = refl
    was_absent p m w w' (some c) h = absurd (cc (ap (λ v. v.0) h))

    was_written :
        (p b c : Text) (w w' : FileWorld) (o : Option Text)
        → o ≡ some c
        → write_at p b o w ≡ (ok tt, w')
        → w'.files p ≡ some (c ++ b)
    was_written p b c w w' none q h = absurd (none-ne-some _ q)
    was_written p b c w w' (some d) q h =
        ap (λ v. v.1.files p) (sym h)
        ∙ set_same p (some (d ++ b)) w.files
        ∙ ap (λ e. some (e ++ b)) (some-injective _ _ q)

    was_part :
        (p b c : Text) (w w' : FileWorld) (x : Error) (o : Option Text)
        → o ≡ some c
        → write_at p b o w ≡ (err x, w')
        → ⊥
    was_part p b c w w' x none q h = none-ne-some _ q
    was_part p b c w w' x (some d) q h = done h

    was_renamed :
        (old new : Text) (w w' : FileWorld) (o : Option Text)
        → w.files old ≡ o
        → rename_to old new o w ≡ (ok tt, w')
        → w'.files new ≡ w.files old
    was_renamed old new w w' none q h = absurd (cc (ap (λ v. v.0) h))
    was_renamed old new w w' (some c) q h =
        ap (λ v. v.1.files new) (sym h) ∙ set_same new (some c) (set old none w.files) ∙ sym q

    not_moved :
        (old new : Text) (w w' : FileWorld) (x : Error) (o : Option Text)
        → rename_to old new o w ≡ (err x, w')
        → (w'.files new ≡ w.files new) ⊎ (w'.files new ≡ w.files old)
    not_moved old new w w' x none h = inl (ap (λ v. v.1.files new) (sym h))
    not_moved old new w w' x (some c) h = absurd (done h)

    renamed_but :
        (old new p : Text) (w : FileWorld)
        → p ≢ old
        → p ≢ new
        → (o : Option Text) → (rename_to old new o w).1.files p ≡ w.files p
    renamed_but old new p w n m none = refl
    renamed_but old new p w n m (some c) =
        set_other new p (some c) (set old none w.files) m ∙ set_other old p none w.files n

pub file_dirs : Directories file_sys
file_dirs = record {
  is_dir = λ p w. w.dirs p;
  mkdir_new = λ p w w' h. was_made p w w' (w.dirs p) refl h;
  mkdir_keeps = λ p w h. kept p w (w.dirs p) h;
  mkdir_all_keeps = λ d p w h. h;
  write_file_keeps = λ f b p w h. h;
}
  where
    was_made :
        (p : Text) (w w' : FileWorld) (d : Bool)
        → w.dirs p ≡ d
        → mkdir_at p d w ≡ (made, w')
        → (w.dirs p ≡ false) × (w'.dirs p ≡ true)
    was_made p w w' true q h = absurd (cc (ap (λ v. v.0) h))
    was_made p w w' false q h = (q, ap (λ v. v.1.dirs p) (sym h) ∙ set_same p true w.dirs)

    kept :
        (p : Text) (w : FileWorld) (d : Bool) → w.dirs p ≡ true → (mkdir_at p d w).1.dirs p ≡ true
    kept p w true h = h
    kept p w false h = set_same p true w.dirs
