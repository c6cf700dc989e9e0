-- ===== src/Tokens/Moves/Grants.antt =====
-- What `grantNewBoard` (server/token-store.mjs) does to the disk, whatever fails and whatever the
-- callbacks do to the accounts.
use collaborative_ai_whitebo.Prelude.{
  String, ◌≡◌, refl, sym, ◌∙◌, ap, Bool, true, List, [], ◌∷◌, ◌++◌, arith,
}
use mathlib.Core.Path.{subst}
use collaborative_ai_whitebo.Exec.{Result, ok, err, pure, lift, handle, or_handle, ◌>>=◌, ◌>>◌}
use collaborative_ai_whitebo.Exec.Keeps.{
  IsPreorder, Keeps, Keeps-bind, bind-at, Keeps-pure, Keeps-ensure, Keeps-finally, keeps_rules,
}
use collaborative_ai_whitebo.Exec.Inversion.{if-throw-eq-ok}
use collaborative_ai_whitebo.Accounts.Database.{Statement}
use collaborative_ai_whitebo.Tokens.Types.{FileText, TokenFailure, Client, StoreData}
use collaborative_ai_whitebo.Tokens.Platform.{TokenPlatform, is_valid_room_id}
use collaborative_ai_whitebo.Tokens.Files.{
  Disk, Faults, Machine, FileAction, parsed_file, read_store, persist,
}
use collaborative_ai_whitebo.Tokens.Grant.{
  on_accounts, GrantRequest, Granted, pinned_client, require_new_board, granted_store,
  grant_is_persisted, compensate, write_grant, grant_locked, grant_new_board,
}
use collaborative_ai_whitebo.Tokens.Moves.{
  OnDisk, IsPolicy, release-Keeps, acquire-Keeps, read_store-bind,
}

-- The disk is the same.
abbrev pub SameDisk : Machine → Machine → Type 0
SameDisk s t = t.disk ≡ s.disk

pub SameDisk-IsPreorder : IsPreorder SameDisk
SameDisk-IsPreorder = record { same = λ s. refl; trans = λ s t u g h. h ∙ g }

pub on_accounts-SameDisk : {A : Type 0} (m : Statement A) → Keeps SameDisk (on_accounts m)
unfolding on_accounts
on_accounts-SameDisk m = record { at = λ s. refl }

module _ (p : TokenPlatform) (request : GrantRequest) where
  pub pinned_client-SameDisk : (store : StoreData) → Keeps SameDisk (pinned_client p request store)
  unfolding pinned_client
  pinned_client-SameDisk store = search (SameDisk-IsPreorder, keeps_rules) depth 30

  pub require_new_board-SameDisk :
      (rooms : List String) (board_id : String)
      → Keeps SameDisk (require_new_board p request rooms board_id)
  unfolding require_new_board
  require_new_board-SameDisk rooms board_id =
      search (SameDisk-IsPreorder, on_accounts-SameDisk, keeps_rules) depth 12

  read_store-SameDisk : (fails : Bool) → Keeps SameDisk (read_store p fails)
  unfolding read_store
  read_store-SameDisk fails = search (SameDisk-IsPreorder, keeps_rules) depth 12

  grant_is_persisted-SameDisk :
      (faults : Faults) (board_id : String)
      → Keeps SameDisk (grant_is_persisted p faults request board_id)
  unfolding grant_is_persisted
  grant_is_persisted-SameDisk faults board_id =
      search (SameDisk-IsPreorder, read_store-SameDisk, keeps_rules) depth 12

  pub compensate-SameDisk :
      (faults : Faults) (board_id : String) (e : TokenFailure)
      → Keeps SameDisk (compensate p faults request board_id e)
  unfolding compensate
  compensate-SameDisk faults board_id e =
      search (SameDisk-IsPreorder, grant_is_persisted-SameDisk, on_accounts-SameDisk, keeps_rules)
        depth 20

  -- A board that passes has an id that the reader accepts.
  require_new_board-valid :
      (rooms : List String) (board_id : String) (s : Machine) {u : Unit}
      → (require_new_board p request rooms board_id s).0 ≡ ok u
      → is_valid_room_id board_id ≡ true
  unfolding require_new_board
  require_new_board-valid rooms board_id s h =
      let passed = if-throw-eq-ok _ (on_accounts (request.rollback board_id)) _ _ s h in
      ground (arith, passed)

module _ {p : TokenPlatform} {Step : StoreData → StoreData → Type 0} {R : Disk → Disk → Type 0}
    (k : IsPolicy p Step R) where
  after_same :
      {A B : Type 0} (r : Result TokenFailure A) (f : A → FileAction B) (d : Disk) (t : Machine)
      → t.disk ≡ d
      → ((a : A) → r ≡ ok a → R d (f a t).1.disk)
      → R d ((lift r >>= f) t).1.disk
  unfolding ◌>>=◌ lift
  after_same (ok a) f d t same h = h a refl
  after_same (err e) f d t same h = subst (R d) (sym same) (k.preorder.same (record t { disk = d }))

  -- A first step that leaves the disk alone.
  same-bind :
      {A B : Type 0} (m : FileAction A) (f : A → FileAction B) (d : Disk) (s : Machine)
      → s.disk ≡ d
      → Keeps SameDisk m
      → ((a : A) → (m s).0 ≡ ok a → (m s).1.disk ≡ d → R d (f a (m s).1).1.disk)
      → R d ((m >>= f) s).1.disk
  unfolding ◌>>=◌ lift
  same-bind m f d s same q h =
      after_same (m s).0 f d (m s).1 (q.at s ∙ same) (λ a e. h a e (q.at s ∙ same))

  compensated :
      (r : Result TokenFailure Unit) (f : TokenFailure → FileAction Unit) (s t : Machine)
      → ((e : TokenFailure) → Keeps SameDisk (f e))
      → R s.disk t.disk
      → R s.disk (or_handle (r, t) f).1.disk
  compensated (ok u) f s t q h = h
  compensated (err e) f s t q h = subst (R s.disk) (sym ((q e).at t)) h

  module _ (faults : Faults) (request : GrantRequest)
      (step : (store : StoreData) (s : Machine) (client : Client) (rooms : List String)
          (board_id : String)
        → (pinned_client p request store s).0 ≡ ok (client, rooms)
        → is_valid_room_id board_id ≡ true
        → Step store (granted_store p request board_id store)) where
    write_grant-Moves :
        (source : FileText) (store : StoreData) (rooms : List String) (board_id : String) (d : Disk)
        (s : Machine)
        → s.disk ≡ d
        → parsed_file p d.store ≡ ok (store, source)
        → Step store (granted_store p request board_id store)
        → R d (write_grant p faults request source store rooms board_id s).1.disk
    unfolding handle write_grant
    write_grant-Moves source store rooms board_id d s same parsed allowed =
        let changed = granted_store p request board_id store in
        let written = persist p faults source changed s in
        let granted : Granted = record { board_id = board_id; rooms = rooms ++ board_id ∷ [] } in
        let moved : R s.disk (write_grant p faults request source store rooms board_id s).1.disk =
          bind-at k.preorder
            (handle (persist p faults source changed) (compensate p faults request board_id))
            (λ u. pure granted) s
            (compensated written.0 (compensate p faults request board_id) s written.1
              (compensate-SameDisk p request faults board_id)
              (k.persists faults source store changed s
                (ap (λ e. parsed_file p e.store) same ∙ parsed) allowed))
            (λ u. Keeps-pure k.preorder granted) in
        subst (λ e. R e (write_grant p faults request source store rooms board_id s).1.disk) same
          moved

    grant_pinned :
        (source : FileText) (store : StoreData) (client : Client) (rooms : List String) (d : Disk)
        (s t : Machine)
        → parsed_file p d.store ≡ ok (store, source)
        → (pinned_client p request store s).0 ≡ ok (client, rooms)
        → t.disk ≡ d
        → R d
            ((on_accounts (request.prepare client) >>= λ board_id.
                require_new_board p request rooms board_id
                >> write_grant p faults request source store rooms board_id)
              t).1.disk
    grant_pinned source store client rooms d s t parsed pinned same =
        same-bind (on_accounts (request.prepare client)) _ d t same (on_accounts-SameDisk _)
          (λ board_id prepared same_1.
            same-bind (require_new_board p request rooms board_id)
              (λ u. write_grant p faults request source store rooms board_id) d _ same_1
              (require_new_board-SameDisk p request rooms board_id)
              (λ u checked same_2. write_grant-Moves source store rooms board_id d _ same_2 parsed (
                step store s client rooms board_id pinned
                  (require_new_board-valid p request rooms board_id _ checked))))

    pub grant_new_board-Keeps :
        (pid : String) → Keeps (OnDisk R) (grant_new_board p faults pid request)
    unfolding grant_new_board grant_locked
    grant_new_board-Keeps pid = Keeps-bind k.preorder _ _ (Keeps-ensure k.preorder _ _) (λ u.
        Keeps-bind k.preorder _ _ (Keeps-ensure k.preorder _ _) (λ v.
          Keeps-bind k.preorder _ _ (acquire-Keeps k faults pid) (λ w.
            Keeps-finally k.preorder _ _
              (read_store-bind k faults.read _ (λ s store source parsed.
                same-bind (pinned_client p request store) _ s.disk s refl
                  (pinned_client-SameDisk p request store)
                  (λ x pinned same.
                    grant_pinned source store x.0 x.1 s.disk s _ parsed pinned same)))
              (release-Keeps k faults))))
