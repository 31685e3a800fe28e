-- ===== src/Log/Rotator.antt =====
-- internal/log/rotator.go: `Rotator`, the log file of a project with its backups. File 0 is the log itself and
-- file k its backup with the suffix .k; a file that does not exist is `none`. The store is changed by
-- the rotator alone. What the system answers is an argument: how opening ends, how much of a write is done,
-- which step of a rotation fails, and of which files that exist Stat gives an answer. Sizes are numbers, taken not to pass 64 bits.
pub mod Retained
mod Tests
use randomshitgo_go.Prelude.{
  ℕ, zero, suc, ◌+◌, ◌-◌, ◌*◌, List, [], ◌++◌, Option, none, some, Bool, true, false, ◌==◌, ltb,
  leb, if◌then◌else◌, length, take,
}

abbrev pub Files : Type 0
Files = ℕ → Option (List ℕ)

pub record Rotator : Type 0 where
  pub files : Files
  pub max_bytes : ℕ
  pub max_backups : ℕ
  pub is_open : Bool
  pub written : ℕ

pub data RotatorError : Type 0 where
  open_failed : RotatorError
  write_failed : RotatorError

-- How `open` ends: the file is not there to be written, or it is and its size cannot be read.
pub data Opening : Type 0 where
  opens : Opening
  not_opened : Opening
  not_stated : Opening

-- The step of a rotation that fails.
pub data Fault : Type 0 where
  no_fault : Fault
  at_close : Fault
  at_drop : Fault
  at_shift : ℕ → Fault
  at_main : Fault

abbrev pub exists? : Option (List ℕ) → Bool
exists? none = false
exists? (some b) = true

-- Whether Stat finds file k: it exists, and Stat does not fail on it.
abbrev pub found : (ℕ → Bool) → Files → ℕ → Bool
found stat files k = if stat k then exists? (files k) else false

abbrev pub content : Files → ℕ → List ℕ
content files k = elim (files k) [ none ↦ [] | some b ↦ b ]

abbrev pub put_file : Files → ℕ → Option (List ℕ) → Files
put_file files i b = λ k. if k == i then b else files k

pub rename : Files → ℕ → ℕ → Files
rename files src dst = put_file (put_file files src none) dst (files src)

-- Whether the file could be opened, and the rest.
pub open_log : Opening → Rotator → Bool × Rotator
open_log not_opened r = (false, r)
open_log not_stated r = (false, record r { files = put_file r.files 0 (some (content r.files 0)) })
open_log opens r = (
  true,
  record r {
    files = put_file r.files 0 (some (content r.files 0));
    is_open = true;
    written = length (content r.files 0);
  },
)

abbrev shift_stops : Fault → ℕ → Bool
shift_stops no_fault i = false
shift_stops at_close i = false
shift_stops at_drop i = false
shift_stops (at_shift k) i = k == i
shift_stops at_main i = false

-- The loop over the backups i, i - 1, … 1, each renamed to the next number; whether it ran through.
pub shift : (ℕ → Bool) → Fault → ℕ → Files → Bool × Files
unfolding rename
shift stat fault zero files = (true, files)
shift stat fault (suc i) files =
    let moved = shift stat fault i (rename files (suc i) (suc i + 1)) in
    let passed = shift stat fault i files in
    if found stat files (suc i)
    then (if shift_stops fault (suc i) then (false, files) else moved)
    else passed

abbrev is_close : Fault → Bool
is_close at_close = true
is_close no_fault = false
is_close at_drop = false
is_close (at_shift k) = false
is_close at_main = false

abbrev is_drop : Fault → Bool
is_drop at_drop = true
is_drop no_fault = false
is_drop at_close = false
is_drop (at_shift k) = false
is_drop at_main = false

abbrev is_main : Fault → Bool
is_main at_main = true
is_main no_fault = false
is_main at_close = false
is_main (at_shift k) = false
is_main at_drop = false

-- The oldest backup goes.
pub drop_oldest : (ℕ → Bool) → Fault → ℕ → Files → Bool × Files
drop_oldest stat fault n files =
    if found stat files n
    then (if is_drop fault then (false, files) else (true, put_file files n none))
    else (true, files)

-- The log becomes the first backup.
pub rotate_main : (ℕ → Bool) → Fault → Files → Bool × Files
unfolding rename
rotate_main stat fault files =
    if found stat files 0
    then (if is_main fault then (false, files) else (true, rename files 0 1))
    else (true, files)

-- The files after the steps of a rotation, up to the one that fails.
pub rotate_files : (ℕ → Bool) → Fault → ℕ → Files → Bool × Files
unfolding drop_oldest shift rotate_main
rotate_files stat fault n files =
    let (dropped, files1) = drop_oldest stat fault n files in
    let (shifted, files2) = shift stat fault (n - 1) files1 in
    if dropped
    then (if shifted then rotate_main stat fault files2 else (false, files2))
    else (false, files1)

-- A close that fails leaves the file open.
pub rotate_locked : (ℕ → Bool) → Fault → Opening → Rotator → Rotator
unfolding rotate_files open_log
rotate_locked stat fault opening r =
    let (done, files) = rotate_files stat fault r.max_backups r.files in
    let closed = record r { is_open = false; files = files } in
    if is_close fault then r else if done then (open_log opening closed).1 else closed

-- The append, of n bytes, and the rotation. A failure to rotate is not reported.
pub append_log :
    Rotator → List ℕ → ℕ → Bool → (ℕ → Bool) → Fault → Opening → (ℕ × Option RotatorError) × Rotator
unfolding rotate_locked
append_log r b n failed stat fault opening =
    let r' = record r {
      files = put_file r.files 0 (some (content r.files 0 ++ take n b));
      written = r.written + n;
    } in
    if failed
    then ((n, some write_failed), r')
    else ((n, none), if leb r.max_bytes r'.written then rotate_locked stat fault opening r' else r')

pub write :
    Rotator
    → List ℕ
    → ℕ
    → Bool
    → (ℕ → Bool)
    → Fault
    → Opening
    → Opening
    → (ℕ × Option RotatorError) × Rotator
unfolding open_log append_log
write r b n failed stat fault first again =
    let (opened, r') = open_log first r in
    if r.is_open
    then append_log r b n failed stat fault again
    else if opened
    then append_log r' b n failed stat fault again
    else ((0, some open_failed), r')

pub close : Rotator → Rotator
close r = record r { is_open = false }

-- `NewRotator`, on the files that are there.
pub new_rotator : Files → ℕ → ℕ → Opening → Bool × Rotator
unfolding open_log
new_rotator files max_size_mb max_backups opening = open_log opening (record {
  files = files;
  max_bytes = (if ltb max_size_mb 1 then 1 else max_size_mb) * 1024 * 1024;
  max_backups = if ltb max_backups 1 then 1 else max_backups;
  is_open = false;
  written = 0;
})
