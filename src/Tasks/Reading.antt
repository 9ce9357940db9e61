-- ===== src/Tasks/Reading.antt =====
-- app/api/server.py, `_load_snapshot`: what it finds is what the file has then.
use shopping_agent.Common.{
  ℕ, ◌≡◌, refl, Bool, true, false, Bool-cases, inl, inr, Option, none, some, if◌then◌else◌,
}
use shopping_agent.Tasks.{
  TaskSnapshot, TaskRecord, Disk, Failure, Result, ok, raised, is_deleted, persist_snapshot,
}
use shopping_agent.Tasks.Timeline.Contract.{Holds}
use shopping_agent.Tasks.Commands.{
  read_persisted, is_free, Loaded, found, missing, unreadable, recovered, recover, load_found,
  is_running, interrupted,
}
use shopping_agent.Tasks.Clarified.{read_stored}

-- What was found is the file's.
abbrev pub FoundOn : Loaded → Disk → Type 0
FoundOn (found s) disk = disk.task_json ≡ some s
FoundOn missing disk = Unit
FoundOn unreadable disk = Unit

recovered-FoundOn :
    (s : TaskSnapshot) (disk : Disk) (m : Result Disk)
    → Holds (λ d. d.task_json ≡ some s) m
    → FoundOn (recovered s disk m).0 (recovered s disk m).1
recovered-FoundOn s disk (ok d) h = h
recovered-FoundOn s disk (raised Failure.task_deleted) h = tt
recovered-FoundOn s disk (raised _) h = tt

if_writable :
    (writable : Bool) (s : TaskSnapshot) (disk : Disk)
    → Holds
        (λ d. d.task_json ≡ some s)
        (if writable then ok (record disk { task_json = some s }) else raised Failure.not_persisted)
if_writable true s disk = refl
if_writable false s disk = tt

written-FoundOn :
    (writable : Bool) (s : TaskSnapshot) (disk : Disk)
    → Holds (λ d. d.task_json ≡ some s) (persist_snapshot writable s disk)
unfolding persist_snapshot
written-FoundOn writable s disk = elim (Bool-cases (is_deleted disk)) [
  | inl gone ↦ rw gone tt
  | inr live ↦ rw live (if_writable writable s disk)
]

recover-FoundOn :
    (now : ℕ) (writable : Bool) (s : TaskSnapshot) (disk : Disk)
    → disk.task_json ≡ some s
    → FoundOn (recover now writable s disk).0 (recover now writable s disk).1
recover-FoundOn now writable s disk h = elim (Bool-cases (is_free disk.owner)) [
  | inl free ↦ rw free (
      recovered-FoundOn (interrupted now s) disk _
        (written-FoundOn writable (interrupted now s) disk))
  | inr held ↦ rw held h
]

pub load_found-FoundOn :
    (now : ℕ) (writable : Bool) (entry : Option TaskRecord) (stored : Option TaskSnapshot)
    (disk : Disk)
    → read_persisted disk ≡ stored
    → FoundOn
        (load_found now writable entry stored disk).0
        (load_found now writable entry stored disk).1
load_found-FoundOn now writable entry none disk h = tt
load_found-FoundOn now writable none (some s) disk h = elim (Bool-cases (is_running s.status)) [
  | inl running ↦ rw running (recover-FoundOn now writable s disk (read_stored disk s h))
  | inr still ↦ rw still (read_stored disk s h)
]
load_found-FoundOn now writable (some r) (some s) disk h = read_stored disk s h
