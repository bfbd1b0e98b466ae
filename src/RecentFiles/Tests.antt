-- ===== src/RecentFiles/Tests.antt =====
-- Runs of the Open Recent list on a volume that ignores case, and its theorems at them.
use pdfdebug.Prelude.{
  ℕ, ◌+◌, String, Bool, true, ◌&&◌, ltb, Option, none, some, List, [], ◌∷◌, ◌≡◌, refl,
  if◌then◌else◌, str_eq, arith,
}
use pdfdebug.Prelude.Text.{Text, codes, eq_text, eq_text_iff}
use pdfdebug.RecentFiles.{
  Files, Answers, adding, removing, without, normalize, same_file, begin, to_compare, compare, pass,
  add, remove, pass_at, step, run, load_paths, load, Event,
}
use pdfdebug.RecentFiles.Atomic.{IsAtomic, run-IsAtomic}
use pdfdebug.RecentFiles.Clash.{Keeps, IsList}
use pdfdebug.RecentFiles.Distinct.{run-load-IsList}
use pdfdebug.RecentFiles.Finishes.{event_of, ended, run-passes}

abbrev lower : Text → Text
lower [] = []
lower (c ∷ s) = (if ltb 64 c && ltb c 91 then c + 32 else c) ∷ lower s

abbrev folded : String → String → Bool
folded a b = eq_text (lower (codes a)) (lower (codes b))

folded_refl : (a : String) → folded a a ≡ true
folded_refl a = (eq_text_iff (lower (codes a)) (lower (codes a))).1 refl

folded_comm : (a b : String) → folded a b ≡ folded b a
folded_comm a b = ground (
  arith,
  eq_text_iff (lower (codes a)) (lower (codes b)),
  eq_text_iff (lower (codes b)) (lower (codes a)),
)

abbrev files : Files
files = record {
  abs = λ p. if str_eq p "a.pdf" then some "/a.pdf" else some p;
  clean = λ p. p;
  ignores_case = true;
  equal_fold = folded;
  equal_fold_refl = folded_refl;
  equal_fold_comm = folded_comm;
}

-- /a.pdf and /A.pdf are one file; /b.pdf and /B.pdf are missing.
abbrev stat : String → Option ℕ
stat p = if folded p "/a.pdf" then some 7 else none

abbrev disk : Answers
disk a b = (stat a, stat b)

-- /b.pdf and /B.pdf have come to be one file too.
abbrev disk_with_b : Answers
disk_with_b a b =
    (some (if folded a "/a.pdf" then 7 else 8), some (if folded b "/a.pdf" then 7 else 8))

abbrev is_a : String → Bool
is_a p = folded p "/a.pdf"

abbrev recorded_paths : Option (List String)
recorded_paths = some ("/b.pdf" ∷ "" ∷ "/A.pdf" ∷ "/a.pdf" ∷ "/B.pdf" ∷ [])

-- Two calls of Add whose passes interleave, and a Remove.
abbrev events : List (Event files)
events =
    add "a.pdf"
    ∷ add "/c.pdf"
    ∷ pass_at 0 disk
    ∷ pass_at 1 disk
    ∷ remove "/B.pdf"
    ∷ pass_at 0 disk
    ∷ pass_at 0 disk_with_b
    ∷ pass_at 0 disk
    ∷ []

load_run : (load files (λ n. disk) recorded_paths).paths ≡ "/b.pdf" ∷ "/A.pdf" ∷ "/B.pdf" ∷ []
unfolding load_paths normalize same_file
load_run = refl

interleaved :
    run files events (load files (λ n. disk) recorded_paths)
    ≡ record { paths = "/a.pdf" ∷ "/c.pdf" ∷ []; calls = [] }
unfolding run step pass to_compare compare without load_paths normalize same_file
interleaved = refl

-- Two paths that are added while neither is there stay, when they have come to be one file.
appeared :
    (run files
      (add "/B.pdf" ∷ pass_at 0 disk ∷ pass_at 0 disk_with_b ∷ [])
      (record { paths = "/b.pdf" ∷ []; calls = [] })).paths
    ≡ "/B.pdf" ∷ "/b.pdf" ∷ []
unfolding run step pass to_compare compare without normalize same_file
appeared = refl

run-IsAtomic_example :
    IsAtomic files [] events (record { paths = "/b.pdf" ∷ "/A.pdf" ∷ "/B.pdf" ∷ []; calls = [] })
run-IsAtomic_example = run-IsAtomic files events ("/b.pdf" ∷ "/A.pdf" ∷ "/B.pdf" ∷ [])

disk-Keeps : Keeps files stat is_a disk
disk-Keeps a b ea eb = refl

-- The answers on /a.pdf and /A.pdf are the same throughout.
disk_with_b-Keeps : Keeps files stat is_a disk_with_b
disk_with_b-Keeps a b ea eb = rw (ea, eb) refl

run-load-IsList_example :
    IsList files stat is_a (run files events (load files (λ n. disk) recorded_paths)).paths
run-load-IsList_example =
    run-load-IsList files stat is_a (λ n. disk) (λ n. disk-Keeps) recorded_paths events
      (disk-Keeps, (disk-Keeps, (disk-Keeps, (disk_with_b-Keeps, (disk-Keeps, tt)))))

run-passes_example :
    run files
      (event_of files adding "a.pdf" ∷ pass_at 1 disk ∷ pass_at 1 disk_with_b ∷ [])
      (record { paths = "/A.pdf" ∷ []; calls = begin files removing "/b.pdf" ∷ [] })
    ≡ ended files
        ("/A.pdf" ∷ [])
        (begin files removing "/b.pdf" ∷ [])
        disk
        disk_with_b
        adding
        (normalize files "a.pdf")
run-passes_example =
    run-passes files ("/A.pdf" ∷ []) (begin files removing "/b.pdf" ∷ []) disk disk_with_b adding
      "a.pdf"
