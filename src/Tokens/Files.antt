-- ===== src/Tokens/Files.antt =====
-- The files of the token store (server/token-store.mjs): the store, its lock, the temporary file of a
-- write and the backups. `Faults` says which calls of the file system fail; the state is the disk beside
-- the account database, which the creation of a board changes too.
use collaborative_ai_whitebo.Prelude.{
  String, Bool, not, Option, none, some, List, [], ◌∷◌, if◌then◌else◌, is_some,
}
use collaborative_ai_whitebo.Exec.{
  ok, err, Exec, pure, throw, lift, gets, modify, ensure, handle, finally, ◌>>=◌, ◌>>◌,
}
use collaborative_ai_whitebo.Accounts.Database.{AuthDatabase}
use collaborative_ai_whitebo.Tokens.Types.{
  TokenFailure, store_error, system_error, locked, invalid_store, listed, malformed, StoreData,
  Json, object, not_object, empty_store, FileText, serialise,
}
use collaborative_ai_whitebo.Tokens.Platform.{TokenPlatform, Checked, parse_json}

-- `temporaries` are the temporary files that exist, the newest first: their names are random.
pub record Disk : Type 0 where
  pub store : Option FileText
  pub lock : Option String
  pub backups : List FileText
  pub temporaries : List FileText

-- A write of a new file succeeds, creates nothing, or stops after a part of the text.
pub data Written : Type 0 where
  done : Written
  nothing : Written
  torn : FileText → Written

-- What each call of the file system does: `true` is a failure.
pub record Faults : Type 0 where
  pub mkdir : Bool
  pub open_lock : Bool
  pub write_lock : Bool
  pub remove_lock : Bool
  pub read : Bool
  pub write_backup : Written
  pub chmod_backup : Bool
  pub write_temporary : Written
  pub chmod_temporary : Bool
  pub failpoint : Bool
  pub rename : Bool
  pub chmod_store : Bool
  pub remove_temporary : Bool
  pub read_again : Bool

-- The disk beside the account database, where a board is created.
pub record Machine : Type 0 where
  pub disk : Disk
  pub accounts : AuthDatabase

abbrev pub FileAction : Type 0 → Type 0
FileAction A = Exec Machine TokenFailure A

unfoldable pub on_disk : (Disk → Disk) → FileAction Unit
on_disk f = modify (λ s. record s { disk = f s.disk })

-- A call of the file system that fails or not.
abbrev pub call : Bool → FileAction Unit
call fails = ensure (not fails) system_error

-- `rm(file, { force: true }).catch(() => {})`
unfoldable pub remove_quietly : Bool → (Disk → Disk) → FileAction Unit
remove_quietly fails f = if fails then pure tt else on_disk f

abbrev pub put_lock : Option String → Disk → Disk
put_lock lock disk = record disk { lock = lock }

unfoldable pub release : Faults → FileAction Unit
unfolding on_disk
release faults = do call faults.remove_lock; on_disk (put_lock none)

-- The lock that this process created and could not initialise is removed.
unfoldable pub initialise_lock : Faults → String → FileAction Unit
unfolding on_disk
initialise_lock faults pid =
    handle (do call faults.write_lock; on_disk (put_lock (some pid)))
      (λ e. remove_quietly faults.remove_lock (put_lock none) >> throw e)

unfoldable pub acquire_mutation_lock : Faults → String → FileAction Unit
unfolding on_disk initialise_lock
acquire_mutation_lock faults pid = do
  call faults.mkdir
  call faults.open_lock
  held ← gets (λ s. s.disk.lock)
  ensure (not (is_some held)) (store_error locked)
  on_disk (put_lock (some ""))
  initialise_lock faults pid

abbrev pub add_backup : FileText → Disk → Disk
add_backup text disk = record disk { backups = text ∷ disk.backups }

unfoldable pub write_backup : Written → FileText → FileAction Unit
unfolding on_disk
write_backup done source = on_disk (add_backup source)
write_backup nothing source = throw system_error
write_backup (torn part) source = do on_disk (add_backup part); throw system_error

unfoldable pub back_up_store : Faults → FileText → FileAction Unit
unfolding on_disk
back_up_store faults source = do write_backup faults.write_backup source; call faults.chmod_backup

abbrev pub add_temporary : FileText → Disk → Disk
add_temporary text disk = record disk { temporaries = text ∷ disk.temporaries }

abbrev pub rest_of : List FileText → List FileText
rest_of [] = []
rest_of (text ∷ texts) = texts

abbrev pub drop_temporary : Disk → Disk
drop_temporary disk = record disk { temporaries = rest_of disk.temporaries }

-- What a write leaves when it fails: no file, or one that holds a part.
unfoldable pub write_temporary : Faults → FileText → FileAction Unit
unfolding on_disk
write_temporary faults source = elim faults.write_temporary [
  | done ↦ on_disk (add_temporary source)
  | nothing ↦ throw system_error
  | torn part ↦
      on_disk (add_temporary part)
      >> remove_quietly faults.remove_temporary drop_temporary
      >> throw system_error
]

-- `rename(temporary, file)`
abbrev pub rename_temporary : FileText → Disk → Disk
rename_temporary source disk = record disk {
  store = some source;
  temporaries = rest_of disk.temporaries;
}

unfoldable pub before_rename : Faults → FileAction Unit
before_rename faults = do call faults.chmod_temporary; call faults.failpoint; call faults.rename

unfoldable pub write_store_atomically : Faults → FileText → FileAction Unit
unfolding on_disk write_temporary
write_store_atomically faults source = do
  write_temporary faults source
  handle (before_rename faults)
      (λ e. remove_quietly faults.remove_temporary drop_temporary >> throw e)
  on_disk (rename_temporary source)
  call faults.chmod_store

-- A mutator edits the parsed object in place; what it edited before a throw is dropped.
abbrev pub Mutator : Type 0 → Type 0
Mutator A = Exec StoreData TokenFailure A

-- The object, whose `clients` is a list.
abbrev pub checked_store : Option Json → Checked StoreData
checked_store none = err (store_error invalid_store)
checked_store (some not_object) = err (store_error invalid_store)
checked_store (some (object store)) = elim store.clients [
  | listed clients ↦ ok store
  | malformed ↦ err (store_error invalid_store)
]

abbrev pub with_source : FileText → Checked StoreData → Checked (StoreData × FileText)
with_source source (ok store) = ok (store, source)
with_source source (err e) = err e

module _ (p : TokenPlatform) where
  unfoldable pub parsed_file : Option FileText → Checked (StoreData × FileText)
  unfolding empty_store
  parsed_file none = ok (empty_store, serialise empty_store)
  parsed_file (some source) = with_source source (checked_store (parse_json p source))

  unfoldable pub read_store : Bool → FileAction (StoreData × FileText)
  unfolding on_disk
  read_store fails = do call fails; file ← gets (λ s. s.disk.store); lift (parsed_file file)

  -- Back up the bytes that were read, then replace the file.
  unfoldable pub persist : Faults → FileText → StoreData → FileAction Unit
  unfolding back_up_store write_store_atomically
  persist faults source store = do
    back_up_store faults source
    write_store_atomically faults (serialise store)

  unfoldable pub mutate_locked : {A : Type 0} → Faults → Mutator A → FileAction A
  unfolding read_store back_up_store write_store_atomically
  mutate_locked faults mutate = do
    (store, source) ← read_store faults.read
    let (outcome, changed) = mutate store
    result ← lift outcome
    persist faults source changed
    pure result

  unfoldable pub mutate_store : {A : Type 0} → Faults → String → Mutator A → FileAction A
  unfolding acquire_mutation_lock release read_store back_up_store write_store_atomically
  mutate_store faults pid mutate = do
    acquire_mutation_lock faults pid
    finally (mutate_locked faults mutate) (release faults)
