-- ===== src/Serial/Output/Cuts.antt =====
-- Where the markers of a report stand, and where they do not (forge-executor/src/firecracker.rs).
use apeiron.Base.{◌≡◌, refl, none, some, ◌∷◌, ◌++◌, arith, Bytes, append-nil, Lacks, codes}
use apeiron.Serial.Search.Find.{find, starts_with}
use apeiron.Serial.Search.Split.{after, before, find-Lacks, after-append, before-append}
use apeiron.Serial.Output.{crlf, exit_marker, stdout_start, stdout_end, stderr_start, stderr_end}

-- Cutting at the start of each section, at the end of each, and at the exit code.
pub stdout_cut : (x : Bytes) → after (stdout_start ++ crlf) (stdout_start ++ (crlf ++ x)) ≡ some x
unfolding after starts_with
stdout_cut x = refl

pub stderr_cut : (x : Bytes) → after (stderr_start ++ crlf) (stderr_start ++ (crlf ++ x)) ≡ some x
unfolding after starts_with
stderr_cut x = refl

pub stdout_stop :
    (body x : Bytes) → Lacks b'_' body → before stdout_end (body ++ (stdout_end ++ x)) ≡ some body
stdout_stop body x h =
    rw
      (before-append b'F' (codes "ORGE_STDOUT_B64_END") body _ (omega arith)
        (find-Lacks (codes "FORGE") (codes "STDOUT_B64_END") body b'_' h))
      (unfold before starts_with in rw append-nil)

pub stderr_stop :
    (body x : Bytes) → Lacks b'_' body → before stderr_end (body ++ (stderr_end ++ x)) ≡ some body
stderr_stop body x h =
    rw
      (before-append b'F' (codes "ORGE_STDERR_B64_END") body _ (omega arith)
        (find-Lacks (codes "FORGE") (codes "STDERR_B64_END") body b'_' h))
      (unfold before starts_with in rw append-nil)

-- No later marker begins in an earlier section or its end.
pub stderr_not_in_stdout :
    (body : Bytes)
    → Lacks b'_' body
    → find (stderr_start ++ crlf) (stdout_start ++ (crlf ++ body)) ≡ none
unfolding find starts_with
stderr_not_in_stdout body h =
    let e = find-Lacks (codes "FORGE") (codes "STDERR_B64_START" ++ crlf) body b'_' h in rw e

pub exit_not_in_stdout :
    (body : Bytes) → Lacks b'_' body → find exit_marker (stdout_start ++ (crlf ++ body)) ≡ none
unfolding find starts_with
exit_not_in_stdout body h = let e = find-Lacks (codes "FORGE") (codes "EXIT:") body b'_' h in rw e

pub exit_not_in_stderr :
    (body : Bytes) → Lacks b'_' body → find exit_marker (stderr_start ++ (crlf ++ body)) ≡ none
unfolding find starts_with
exit_not_in_stderr body h = let e = find-Lacks (codes "FORGE") (codes "EXIT:") body b'_' h in rw e

pub ends_have_no_marker :
    (find (stderr_start ++ crlf) (stdout_end ++ crlf) ≡ none)
    × (find exit_marker (stdout_end ++ crlf) ≡ none)
    × (find exit_marker (stderr_end ++ crlf) ≡ none)
unfolding find starts_with
ends_have_no_marker = (refl, refl, refl)

-- A search that finds nothing before a text which begins with `F` goes on in that text.
pub skip_stderr :
    (a b : Bytes)
    → find (stderr_start ++ crlf) a ≡ none
    → after (stderr_start ++ crlf) (a ++ b'F' ∷ b) ≡ after (stderr_start ++ crlf) (b'F' ∷ b)
skip_stderr a b = after-append b'F' (codes "ORGE_STDERR_B64_START" ++ crlf) a b (omega arith)

pub skip_exit :
    (a b : Bytes)
    → find exit_marker a ≡ none
    → after exit_marker (a ++ b'F' ∷ b) ≡ after exit_marker (b'F' ∷ b)
skip_exit a b = after-append b'F' (codes "ORGE_EXIT:") a b (omega arith)
