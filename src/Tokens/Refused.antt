-- ===== src/Tokens/Refused.antt =====
-- A mutation that its mutator refuses (server/token-store.mjs, `mutateStore`).
use collaborative_ai_whitebo.Prelude.{String, ◌≡◌, ◌≢◌, refl, sym, ◌∙◌, ap, false, Option, none}
use collaborative_ai_whitebo.Exec.{ok}
use collaborative_ai_whitebo.Tokens.Types.{FileText, StoreData}
use collaborative_ai_whitebo.Tokens.Platform.{TokenPlatform}
use collaborative_ai_whitebo.Tokens.Files.{
  Disk, Faults, Machine, Mutator, parsed_file, mutate_store,
}
use collaborative_ai_whitebo.Tokens.Moves.{IsPolicy, mutate_store-Keeps}
use collaborative_ai_whitebo.Tokens.Locking.{mutate_store-StaysUnlocked}

-- The disk but for the lock.
record SameFiles (d e : Disk) : Type 0 where
  store : e.store ≡ d.store
  backups : e.backups ≡ d.backups
  temporaries : e.temporaries ≡ d.temporaries

-- From a disk with this file the files stay.
abbrev FilesStay : Option FileText → Disk → Disk → Type 0
FilesStay file d e = d.store ≡ file → SameFiles d e

-- The object is not what the file parses to.
abbrev Elsewhere : TokenPlatform → Option FileText → StoreData → StoreData → Type 0
Elsewhere p file store changed = (source : FileText) → parsed_file p file ≢ ok (store, source)

SameFiles-trans : (d e f : Disk) → SameFiles d e → SameFiles e f → SameFiles d f
SameFiles-trans d e f g h = record {
  store = h.store ∙ g.store;
  backups = h.backups ∙ g.backups;
  temporaries = h.temporaries ∙ g.temporaries;
}

FilesStay-IsPolicy :
    (p : TokenPlatform) (file : Option FileText) → IsPolicy p (Elsewhere p file) (FilesStay file)
FilesStay-IsPolicy p file = record {
  preorder = record {
    same = λ s same. record { store = refl; backups = refl; temporaries = refl };
    trans =
        λ s t u g h same. SameFiles-trans s.disk t.disk u.disk (g same) (h ((g same).store ∙ same));
  };
  locks = λ lock d same. record { store = refl; backups = refl; temporaries = refl };
  persists = λ faults source store changed s parsed elsewhere same.
      absurd (elsewhere source (ap (parsed_file p) (sym same) ∙ parsed));
}

-- A mutation whose mutator throws on what the file holds leaves the disk exactly as it was, with no
-- backup, no temporary file and no lock, whatever calls of the file system fail, but for the removal
-- of the lock.
pub mutate_store-refused :
    (p : TokenPlatform) (faults : Faults) (pid : String) {A : Type 0} (mutate : Mutator A)
    (s : Machine)
    → faults.remove_lock ≡ false
    → s.disk.lock ≡ none
    → ((store : StoreData) (source : FileText) (a : A)
        → parsed_file p s.disk.store ≡ ok (store, source)
        → (mutate store).0 ≢ ok a)
    → (mutate_store p faults pid mutate s).1.disk ≡ s.disk
mutate_store-refused p faults pid mutate s works free throws =
    let after = (mutate_store p faults pid mutate s).1.disk in
    let files =
      (mutate_store-Keeps (FilesStay-IsPolicy p s.disk.store) faults pid mutate
          (λ store a h source parsed. throws store source a parsed h)).at
        s refl in
    let unlocked = (mutate_store-StaysUnlocked faults works p pid mutate).at s free ∙ sym free in
    λ i. record {
      store = files.store i;
      lock = unlocked i;
      backups = files.backups i;
      temporaries = files.temporaries i;
    }
